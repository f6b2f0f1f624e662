-- ===== src/Session/Exiting.antt =====
-- The status of a session, which `onAccept` of TcpServer.cpp sets to exit above the limit: what
-- `readBuffer` of Session.cpp does not depend on. Its callbacks are in Served.
pub mod Served
use files_event.Prelude.{
  ℕ, ◌%◌, ◌^◌, ◌+◌, ◌-◌, ◌≡◌, refl, ap, arith, ◌∙◌, List, [], ◌++◌, ◌==◌, ltb, if◌then◌else◌, Bool,
  true, false, Option, none, some, ℤ, pos, negsuc, zero, suc, length, Run, returns, fault, blocked,
  in_bounds, ◌>>=◌, ◌==ℤ◌,
}
use files_event.Memory.{Memory, store_in, load, get_u32}
use files_event.Posix.{Net, Segment, Received, got, closed, failed, recv}
use files_event.Transport.{recv_len}
use files_event.Proto.{c_string}
use files_event.FileRecv
use files_event.FileSend.{own_sock_exit}
use files_event.FileSend
use files_event.FileSend.Reading
use files_event.SessionTable.{Table, get_and_remove}
use files_event.Session.{
  Session, TaskBase, no_task, receiving, sending, Effect, Status, set_status, set_reading,
  set_writing, head_len, buff_len, add_write_event, write_task, write_buffer, destroy, Events,
  Callback, add_event_with, ev_read, ev_write, call_on_read, call_on_write,
}
use files_event.Session.Requests.{
  Files, Request, play_path, get_path, play_real, other, request_of, serve, request_end,
  head_received, body_received, recv_pack_data, read_task, read_buffer,
}
use files_event.Session.Callbacks.{
  on_read, on_write, after_read, after_write, hang_up, leave_table, rearmed, is_self, del_events,
}

-- The result of a call, changed.
abbrev pub mapped {ℓ κ} : {A : Type ℓ} {B : Type κ} → (A → B) → Run A → Run B
mapped g m = m >>= λ a. returns (g a)

pub mapped->>= {ℓ κ ι} :
    {A : Type ℓ} {B : Type κ} {C : Type ι} (g : B → C) (m : Run A) (f : A → Run B) (f' : A → Run C)
    → ((a : A) → f' a ≡ mapped g (f a))
    → (m >>= f') ≡ mapped g (m >>= f)
mapped->>= g (returns a) f f' h = h a
mapped->>= g fault f f' h = refl
mapped->>= g blocked f f' h = refl

-- A call whose own result is changed in the first place.
pub mapped-then {ℓ κ ι υ} :
    {A : Type ℓ} {B : Type κ} {C : Type ι} {D : Type υ} (p : A → B) (g : C → D) (m : Run A)
    (m' : Run B) (f : A → Run C) (f' : B → Run D)
    → m' ≡ mapped p m
    → ((a : A) → f' (p a) ≡ mapped g (f a))
    → (m' >>= f') ≡ mapped g (m >>= f)
mapped-then p g (returns a) m' f f' e h = ap (λ r. r >>= f') e ∙ h a
mapped-then p g fault m' f f' e h = ap (λ r. r >>= f') e
mapped-then p g blocked m' f f' e h = ap (λ r. r >>= f') e

pub mapped-if {ℓ κ} :
    {A : Type ℓ} {B : Type κ} (g : A → B) (b : Bool) (m n : Run A) (m' n' : Run B)
    → m' ≡ mapped g m
    → n' ≡ mapped g n
    → (if b then m' else n') ≡ mapped g (if b then m else n)
mapped-if g true m n m' n' p q = p
mapped-if g false m n m' n' p q = q

abbrev pub Result : Type 0
Result = ℤ × Session × Net

module _ (v : Status) where
  abbrev pub told : Result → Result
  told (ret, s, net) = (ret, set_status v s, net)

  abbrev pub told_session : Session × Net → Session × Net
  told_session (s, net) = (set_status v s, net)

  serve-told :
      (q : Request) (files : Files) (junk : Memory) (junk_len : ℕ) (path : List ℕ) (s : Session)
      (net : Net)
      → serve q files junk junk_len path (set_status v s) net
        ≡ mapped told_session (serve q files junk junk_len path s net)
  serve-told get_path files junk junk_len path s net =
      mapped->>= told_session
        (FileSend.set_fetch_file (files.opens path) (files.size path) (FileSend.new junk junk_len)
          net)
        _ _ (λ r. refl)
  serve-told play_path files junk junk_len path s net = refl
  serve-told play_real files junk junk_len path s net = refl
  serve-told other files junk junk_len path s net = refl

  abbrev pub told_events : Session × List Effect → Session × List Effect
  told_events (s, effects) = (set_status v s, effects)

  add_write_event-told :
      (s : Session) → add_write_event (set_status v s) ≡ told_events (add_write_event s)
  unfolding add_write_event
  add_write_event-told s = ground arith

  pub add_event_with-told :
      (events : Events) (fd : ℤ) (callback : Callback) (s : Session)
      → add_event_with events fd callback (set_status v s)
        ≡ told_events (add_event_with events fd callback s)
  unfolding add_event_with
  add_event_with-told events fd callback s = ground arith

  wake-told :
      (b : Bool) (s : Session)
      → (if b then add_write_event (set_status v s) else (set_status v s, []))
        ≡ told_events (if b then add_write_event s else (s, []))
  wake-told true s = add_write_event-told s
  wake-told false s = refl

module _ (v : Status) (files : Files) (junk : Memory) (junk_len : ℕ) where
  request_end-told :
      (m : Memory) (ret : ℤ) (s : Session) (net : Net)
      → request_end files junk junk_len m ret (set_status v s) net
        ≡ mapped (told v) (request_end files junk junk_len m ret s net)
  unfolding request_end
  request_end-told m ret s net =
      mapped->>= (told v) (request_of (load m head_len (buff_len - head_len))) _ _ (λ q.
        mapped->>= (told v) (in_bounds (ltb (length (c_string q.1)) 256)) _ _ (λ _.
          mapped-if (told v) (files.exists (c_string q.1)) _ _ _ _
            (mapped-then (told_session v) (told v)
              (serve q.0 files junk junk_len (c_string q.1) s net) _ _ _
              (serve-told v q.0 files junk junk_len (c_string q.1) s net) (λ r. refl))
            refl))

  body_received-told :
      (s : Session) (net : Net) (r : Received × List Segment)
      → body_received files junk junk_len (set_status v s) net r
        ≡ mapped (told v) (body_received files junk junk_len s net r)
  unfolding body_received
  body_received-told s net (got bs, inbox) =
      mapped->>= (told v) (store_in buff_len s.buff (head_len + s.has_recv_len) bs) _ _ (λ m.
        mapped-if (told v) (s.has_recv_len + length bs == s.total_len) _ _ _ _
          (request_end-told m (pos (length bs))
            (record s { buff = m; has_recv_len = s.has_recv_len + length bs })
            (record net { inbox = inbox }))
          refl)
  body_received-told s net (closed, inbox) = refl
  body_received-told s net (failed, inbox) = refl

  recv_pack_data-told :
      (s : Session) (net : Net)
      → recv_pack_data files junk junk_len (set_status v s) net
        ≡ mapped (told v) (recv_pack_data files junk junk_len s net)
  unfolding recv_pack_data
  recv_pack_data-told s net =
      body_received-told s net (recv (recv_len s.total_len s.has_recv_len) net)

  head_received-told :
      (s : Session) (net : Net) (r : Received × List Segment)
      → head_received files junk junk_len (set_status v s) net r
        ≡ mapped (told v) (head_received files junk junk_len s net r)
  unfolding head_received
  head_received-told s net (got bs, inbox) =
      mapped->>= (told v) (store_in buff_len s.buff s.has_recv_len bs) _ _ (λ m.
        mapped-if (told v) (s.has_recv_len + length bs == head_len) _ _ _ _
          (recv_pack_data-told
            (record s { buff = m; total_len = get_u32 m 12; has_recv_len = 0; head_now = false })
            (record net { inbox = inbox }))
          refl)
  head_received-told s net (closed, inbox) = refl
  head_received-told s net (failed, inbox) = refl

  abbrev pub told_read : ℤ × Session × Net × List Effect → ℤ × Session × Net × List Effect
  told_read (ret, s, net, effects) = (ret, set_status v s, net, effects)

  read_task-told :
      (task : TaskBase) (s : Session) (net : Net)
      → read_task files junk junk_len task (set_status v s) net
        ≡ mapped told_read (read_task files junk junk_len task s net)
  read_task-told no_task s net =
      mapped-then (told v) told_read
        (if s.head_now
          then head_received files junk junk_len s net (recv (recv_len head_len s.has_recv_len) net)
          else recv_pack_data files junk junk_len s net)
        _ _ _
        (mapped-if (told v) s.head_now _ _ _ _
          (head_received-told s net (recv (recv_len head_len s.has_recv_len) net))
          (recv_pack_data-told s net))
        (λ r. refl)
  read_task-told (receiving t) s net =
      mapped->>= told_read (FileRecv.read_buffer t net) _ _ (λ r. refl)
  read_task-told (sending t) s net = mapped->>= told_read (Reading.read_buffer t net) _ _ (λ r.
      ap (λ (x : Session × List Effect). returns (r.0, x.0, r.2, x.1))
        (wake-told v r.3 (record s { task = sending r.1 })))

  pub read_buffer-told :
      (s : Session) (net : Net)
      → read_buffer files junk junk_len (set_status v s) net
        ≡ mapped told_read (read_buffer files junk junk_len s net)
  unfolding read_buffer
  read_buffer-told s net = read_task-told s.task s net
