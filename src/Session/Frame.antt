-- ===== src/Session/Frame.antt =====
-- What `readBuffer` and `writeBuffer` of Session.cpp leave as it is: only the task, the buffer with its
-- counters and, where a task asks for it, the write event change.
use files_event.Prelude.{
  ℕ, ◌+◌, ◌-◌, ◌≡◌, arith, refl, ap, sym, subst, ◌∙◌, List, [], ◌∷◌, ◌==◌, ltb, if◌then◌else◌, Bool,
  true, false, ℤ, pos, length, Bool-cases, ◌⊎◌, inl, inr, Run, in_bounds, Ensures, Ensures->>=,
  Ensures-bind, Ensures-if,
}
use files_event.Memory.{Memory, store_in, load, get_u32}
use files_event.Posix.{Net, Segment, Received, got, closed, failed, recv}
use files_event.Transport.{recv_len}
use files_event.Proto.{c_string}
use files_event.FileRecv
use files_event.FileSend
use files_event.FileSend.Reading
use files_event.Session.{
  loop_base, Session, TaskBase, no_task, receiving, sending, Effect, write_event, set_event,
  add_event, ev_write, call_on_write, head_len, buff_len, add_write_event, write_task, write_buffer,
}
use files_event.Session.Requests.{
  Files, Request, play_path, get_path, play_real, other, request_of, serve, request_end,
  head_received, body_received, recv_pack_data, read_task, read_buffer,
}

abbrev pub is_receiving : TaskBase → Bool
is_receiving (receiving t) = true
is_receiving _ = false

-- A session of the server: it has no task yet, or one that sends.
abbrev pub Serves : Session → Type 0
Serves s = is_receiving s.task ≡ false

-- The session is the same object, with its table number, its argument and its read event, and one of
-- the server remains one.
abbrev pub Same : Session → Session → Type 0
Same s s' =
    (s'.self ≡ s.self)
    × (s'.sid ≡ s.sid)
    × (s'.global ≡ s.global)
    × (s'.reading ≡ s.reading)
    × (Serves s → Serves s')

-- Its write event, too.
abbrev pub Calm : Session → Session → Type 0
Calm s s' = Same s s' × (s'.writing ≡ s.writing)

-- What waking a session asks of the loop.
abbrev waking_at : ℕ → List Effect
waking_at fd = set_event write_event (pos fd) ev_write call_on_write ∷ add_event write_event ∷ []

abbrev pub waking : Session → List Effect
waking s = waking_at s.sid

-- Either nothing is asked of the loop, or a write event that was not there is added.
abbrev pub Wakes : Session → Session → List Effect → Type 0
Wakes s s' effects =
    Same s s'
    × (((effects ≡ []) × (s'.writing ≡ s.writing))
        ⊎ ((effects ≡ waking s) × (s.writing ≡ false) × (s'.writing ≡ true)))

serve-Calm :
    (q : Request) (files : Files) (junk : Memory) (junk_len : ℕ) (path : List ℕ) (s : Session)
    (net : Net)
    → Ensures (λ (r : Session × Net). Calm s r.0) (serve q files junk junk_len path s net)
serve-Calm get_path files junk junk_len path s net =
    Ensures->>= _
      (FileSend.set_fetch_file (files.opens path) (files.size path) (FileSend.new junk junk_len)
        net)
      _ (λ r e. ((refl, refl, refl, refl, λ _. refl), refl))
serve-Calm play_path files junk junk_len path s net = ((refl, refl, refl, refl, λ h. h), refl)
serve-Calm play_real files junk junk_len path s net = ((refl, refl, refl, refl, λ h. h), refl)
serve-Calm other files junk junk_len path s net = ((refl, refl, refl, refl, λ h. h), refl)

abbrev pub Result : Type 0
Result = ℤ × Session × Net

abbrev pub Leaves : Session → Run Result → Type 0
Leaves s r = Ensures (λ (x : Result). Calm s x.1) r

request_end-Calm :
    (files : Files) (junk : Memory) (junk_len : ℕ) (m : Memory) (ret : ℤ) (s : Session) (net : Net)
    → Leaves s (request_end files junk junk_len m ret s net)
unfolding request_end
request_end-Calm files junk junk_len m ret s net =
    Ensures->>= _ (request_of (load m head_len (buff_len - head_len))) _ (λ q e.
      Ensures->>= _ (in_bounds (ltb (length (c_string q.1)) 256)) _ (λ _ _.
        Ensures-if _ (files.exists (c_string q.1)) _ _
          (Ensures-bind (λ r. Calm s r.0) _ (serve q.0 files junk junk_len (c_string q.1) s net) _
            (serve-Calm q.0 files junk junk_len (c_string q.1) s net) (λ r same. same))
          ((refl, refl, refl, refl, λ h. h), refl)))

add_write_event-on : (s : Session) → s.writing ≡ true → add_write_event s ≡ (s, [])
unfolding add_write_event
add_write_event-on s on = simp on

pub add_write_event-off :
    (s : Session)
    → s.writing ≡ false
    → add_write_event s
      ≡ (record s { writing = true; write_fd = pos s.sid; write_base = loop_base }, waking s)
unfolding add_write_event
add_write_event-off s off =
    let there : ltb (s.sid + 0) 0 ≡ false = ground arith in simp off (rw there refl)

module _ (files : Files) (junk : Memory) (junk_len : ℕ) where
  body_received-Calm :
      (s : Session) (net : Net) (r : Received × List Segment)
      → Leaves s (body_received files junk junk_len s net r)
  unfolding body_received
  body_received-Calm s net (got bs, inbox) =
      Ensures->>= _ (store_in buff_len s.buff (head_len + s.has_recv_len) bs) _ (λ m e.
        Ensures-if _ (s.has_recv_len + length bs == s.total_len) _ _
          (request_end-Calm files junk junk_len m (pos (length bs))
            (record s { buff = m; has_recv_len = s.has_recv_len + length bs })
            (record net { inbox = inbox }))
          ((refl, refl, refl, refl, λ h. h), refl))
  body_received-Calm s net (closed, inbox) = ((refl, refl, refl, refl, λ h. h), refl)
  body_received-Calm s net (failed, inbox) = ((refl, refl, refl, refl, λ h. h), refl)

  recv_pack_data-Calm :
      (s : Session) (net : Net) → Leaves s (recv_pack_data files junk junk_len s net)
  unfolding recv_pack_data
  recv_pack_data-Calm s net =
      body_received-Calm s net (recv (recv_len s.total_len s.has_recv_len) net)

  head_received-Calm :
      (s : Session) (net : Net) (r : Received × List Segment)
      → Leaves s (head_received files junk junk_len s net r)
  unfolding head_received
  head_received-Calm s net (got bs, inbox) =
      Ensures->>= _ (store_in buff_len s.buff s.has_recv_len bs) _ (λ m e.
        Ensures-if _ (s.has_recv_len + length bs == head_len) _ _
          (recv_pack_data-Calm
            (record s { buff = m; total_len = get_u32 m 12; has_recv_len = 0; head_now = false })
            (record net { inbox = inbox }))
          ((refl, refl, refl, refl, λ h. h), refl))
  head_received-Calm s net (closed, inbox) = ((refl, refl, refl, refl, λ h. h), refl)
  head_received-Calm s net (failed, inbox) = ((refl, refl, refl, refl, λ h. h), refl)

  woken :
      (b : Bool) (s s' : Session)
      → Calm s s'
      → Wakes s
          (if b then add_write_event s' else (s', [])).0
          (if b then add_write_event s' else (s', [])).1
  unfolding add_write_event
  woken false s s' (same, w) = (same, inl (refl, w))
  woken true s s' (same, w) = elim (Bool-cases s'.writing) [
    | inl on ↦
        subst (λ (r : Session × List Effect). Wakes s r.0 r.1) (sym (add_write_event-on s' on))
          (same, inl (refl, w))
    | inr off ↦
        subst (λ (r : Session × List Effect). Wakes s r.0 r.1) (sym (add_write_event-off s' off))
          (same, inr (ap waking_at same.1, sym w ∙ off, refl))
  ]

  read_task-Wakes :
      (task : TaskBase) (s : Session) (net : Net)
      → s.task ≡ task
      → Ensures
          (λ (r : ℤ × Session × Net × List Effect). Wakes s r.1 r.3)
          (read_task files junk junk_len task s net)
  read_task-Wakes no_task s net e =
      Ensures-bind (λ (r : ℤ × Session × Net). Calm s r.1) _ _ _
        (Ensures-if _ s.head_now _ _
          (head_received-Calm s net (recv (recv_len head_len s.has_recv_len) net))
          (recv_pack_data-Calm s net))
        (λ r calm. (calm.0, inl (refl, calm.1)))
  read_task-Wakes (receiving t) s net e =
      Ensures->>= _ (FileRecv.read_buffer t net) _
        (λ r _. ((refl, refl, refl, refl, λ h. sym (ap is_receiving e) ∙ h), inl (refl, refl)))
  read_task-Wakes (sending t) s net e = Ensures->>= _ (Reading.read_buffer t net) _ (λ r _.
      woken r.3 s (record s { task = sending r.1 }) ((refl, refl, refl, refl, λ _. refl), refl))

  pub read_buffer-Wakes :
      (s : Session) (net : Net)
      → Ensures
          (λ (r : ℤ × Session × Net × List Effect). Wakes s r.1 r.3)
          (read_buffer files junk junk_len s net)
  unfolding read_buffer
  read_buffer-Wakes s net = read_task-Wakes s.task s net refl

write_task-kind :
    (junk : Memory) (task : TaskBase) (net : Net)
    → Ensures
        (λ (r : ℤ × TaskBase × Net). is_receiving r.1 ≡ is_receiving task)
        (write_task junk task net)
write_task-kind junk no_task net = refl
write_task-kind junk (receiving t) net = Ensures->>= _ (FileRecv.write_buffer t net) _ (λ _ _. refl)
write_task-kind junk (sending t) net =
    Ensures->>= _ (FileSend.write_buffer junk t net) _ (λ _ _. refl)

pub write_buffer-Calm :
    (junk : Memory) (s : Session) (net : Net) → Leaves s (write_buffer junk s net)
unfolding write_buffer
write_buffer-Calm junk s net =
    Ensures-bind (λ (r : ℤ × TaskBase × Net). is_receiving r.1 ≡ is_receiving s.task) _
      (write_task junk s.task net) _ (write_task-kind junk s.task net)
      (λ r kind. ((refl, refl, refl, refl, λ h. kind ∙ h), refl))
