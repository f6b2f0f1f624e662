-- ===== src/Session/Tasks.antt =====
-- The task of a server's session: what `readBuffer` and `writeBuffer` of Session.cpp keep of it, where
-- every file that exists can be opened.
use files_event.Prelude.{
  ℕ, ◌+◌, ◌-◌, ◌≡◌, refl, sym, subst, List, [], ◌==◌, ltb, if◌then◌else◌, Bool, true, false, some,
  ℤ, pos, length, Run, returns, fault, blocked, in_bounds, Ensures, Ensures->>=, Ensures-bind,
  Ensures-if, Ensures-split, Secures, Secures-bind, arith,
}
use files_event.Memory.{Memory, store_in, load, get_u32}
use files_event.Posix.{Net, Segment, Received, got, closed, failed, recv}
use files_event.Transport.{recv_len}
use files_event.Proto.{c_string}
use files_event.FileSend
use files_event.FileSend.Reading
use files_event.FileSend.Valid.{IsValid, Stays}
use files_event.FileSend.Bounds.{write_buffer-IsValid}
use files_event.FileSend.Life.{Keeps, result_task, asked-Stays, read_buffer-Keeps, same-IsValid}
use files_event.Session.{
  Session, TaskBase, no_task, receiving, sending, Effect, head_len, buff_len, add_write_event,
  write_task, write_buffer,
}
use files_event.Session.Requests.{
  Files, Request, play_path, get_path, play_real, other, request_of, serve, request_end,
  head_received, body_received, recv_pack_data, read_task, read_buffer,
}

-- No task yet, or one that sends and is within its buffers.
abbrev pub Sends : TaskBase → Type 0
Sends no_task = Unit
Sends (receiving t) = ⊥
Sends (sending t) = IsValid t

-- Every file that exists can be opened.
abbrev pub Opens : Files → Type 0
Opens files =
    (path : List ℕ)
    → files.exists path ≡ true
    → (content : List ℕ) × (files.opens path ≡ some content)

Stays-Ensures :
    (r : Run (ℤ × FileSend.Task × Net))
    → Stays r
    → Ensures (λ (x : ℤ × FileSend.Task × Net). IsValid x.1) r
Stays-Ensures (returns r) h = h
Stays-Ensures fault h = tt
Stays-Ensures blocked h = tt

Keeps-Ensures :
    (t : FileSend.Task) (r : Run (ℤ × FileSend.Task × Net × Bool))
    → Keeps result_task t r
    → IsValid t
    → Ensures (λ (x : ℤ × FileSend.Task × Net × Bool). IsValid x.1) r
Keeps-Ensures t (returns r) h v = same-IsValid r.1 t h v
Keeps-Ensures t fault h v = tt
Keeps-Ensures t blocked h v = tt

abbrev pub Result : Type 0
Result = ℤ × Session × Net

abbrev Fits : Run Result → Type 0
Fits r = Ensures (λ (x : Result). Sends (x.1).task) r

serve-Sends :
    (q : Request) (files : Files) (junk : Memory) (junk_len : ℕ) (path : List ℕ) (s : Session)
    (net : Net)
    → Opens files
    → files.exists path ≡ true
    → Sends s.task
    → Ensures (λ (r : Session × Net). Sends (r.0).task) (serve q files junk junk_len path s net)
serve-Sends get_path files junk junk_len path s net opens here v =
    let (content, e) = opens path here in
    Ensures-bind (λ (x : ℤ × FileSend.Task × Net). IsValid x.1) _
      (FileSend.set_fetch_file (files.opens path) (files.size path) (FileSend.new junk junk_len)
        net)
      _ (rw e (Stays-Ensures _ (asked-Stays junk junk_len (files.size path) content net)))
      (λ r valid. valid)
serve-Sends play_path files junk junk_len path s net opens here v = v
serve-Sends play_real files junk junk_len path s net opens here v = v
serve-Sends other files junk junk_len path s net opens here v = v

module _ (files : Files) (opens : Opens files) (junk : Memory) (junk_len : ℕ) where
  request_end-Sends :
      (m : Memory) (ret : ℤ) (s : Session) (net : Net)
      → Sends s.task
      → Fits (request_end files junk junk_len m ret s net)
  unfolding request_end
  request_end-Sends m ret s net v =
      Ensures->>= _ (request_of (load m head_len (buff_len - head_len))) _ (λ q _.
        Ensures->>= _ (in_bounds (ltb (length (c_string q.1)) 256)) _ (λ _ _.
          Ensures-split _ (files.exists (c_string q.1)) _ _
            (λ here.
              Ensures-bind (λ (r : Session × Net). Sends (r.0).task) _
                (serve q.0 files junk junk_len (c_string q.1) s net) _
                (serve-Sends q.0 files junk junk_len (c_string q.1) s net opens here v)
                (λ r valid. valid))
            (λ _. v)))

  body_received-Sends :
      (s : Session) (net : Net) (r : Received × List Segment)
      → Sends s.task
      → Fits (body_received files junk junk_len s net r)
  unfolding body_received
  body_received-Sends s net (got bs, inbox) v =
      Ensures->>= _ (store_in buff_len s.buff (head_len + s.has_recv_len) bs) _ (λ m _.
        Ensures-if _ (s.has_recv_len + length bs == s.total_len) _ _
          (request_end-Sends m (pos (length bs))
            (record s { buff = m; has_recv_len = s.has_recv_len + length bs })
            (record net { inbox = inbox }) v)
          v)
  body_received-Sends s net (closed, inbox) v = v
  body_received-Sends s net (failed, inbox) v = v

  recv_pack_data-Sends :
      (s : Session) (net : Net) → Sends s.task → Fits (recv_pack_data files junk junk_len s net)
  unfolding recv_pack_data
  recv_pack_data-Sends s net v =
      body_received-Sends s net (recv (recv_len s.total_len s.has_recv_len) net) v

  head_received-Sends :
      (s : Session) (net : Net) (r : Received × List Segment)
      → Sends s.task
      → Fits (head_received files junk junk_len s net r)
  unfolding head_received
  head_received-Sends s net (got bs, inbox) v =
      Ensures->>= _ (store_in buff_len s.buff s.has_recv_len bs) _ (λ m _.
        Ensures-if _ (s.has_recv_len + length bs == head_len) _ _
          (recv_pack_data-Sends
            (record s { buff = m; total_len = get_u32 m 12; has_recv_len = 0; head_now = false })
            (record net { inbox = inbox }) v)
          v)
  head_received-Sends s net (closed, inbox) v = v
  head_received-Sends s net (failed, inbox) v = v

  woken-task : (b : Bool) (s : Session) → (if b then add_write_event s else (s, [])).0.task ≡ s.task
  unfolding add_write_event
  woken-task false s = refl
  woken-task true s = ground arith

  read_task-Sends :
      (task : TaskBase) (s : Session) (net : Net)
      → s.task ≡ task
      → Sends task
      → Ensures
          (λ (r : ℤ × Session × Net × List Effect). Sends (r.1).task)
          (read_task files junk junk_len task s net)
  read_task-Sends no_task s net e v =
      Ensures-bind (λ (r : Result). Sends (r.1).task) _ _ _
        (Ensures-if _ s.head_now _ _
          (head_received-Sends s net (recv (recv_len head_len s.has_recv_len) net) (rw e v))
          (recv_pack_data-Sends s net (rw e v)))
        (λ r valid. valid)
  read_task-Sends (receiving t) s net e v = absurd v
  read_task-Sends (sending t) s net e v =
      Ensures-bind (λ (x : ℤ × FileSend.Task × Net × Bool). IsValid x.1) _
        (Reading.read_buffer t net) _
        (Keeps-Ensures t (Reading.read_buffer t net) (read_buffer-Keeps t net) v)
        (λ r valid. subst Sends (sym (woken-task r.3 (record s { task = sending r.1 }))) valid)

  pub read_buffer-Sends :
      (s : Session) (net : Net)
      → Sends s.task
      → Ensures
          (λ (r : ℤ × Session × Net × List Effect). Sends (r.1).task)
          (read_buffer files junk junk_len s net)
  unfolding read_buffer
  read_buffer-Sends s net v = read_task-Sends s.task s net refl v

Stays-Secures :
    (r : Run (ℤ × FileSend.Task × Net))
    → Stays r
    → Secures (λ (x : ℤ × FileSend.Task × Net). IsValid x.1) r
Stays-Secures (returns r) h = h
Stays-Secures fault h = h
Stays-Secures blocked h = tt

write_task-Sends :
    (junk : Memory) (task : TaskBase) (net : Net)
    → Sends task
    → Secures (λ (r : ℤ × TaskBase × Net). Sends r.1) (write_task junk task net)
write_task-Sends junk no_task net v = v
write_task-Sends junk (receiving t) net v = absurd v
write_task-Sends junk (sending t) net v =
    Secures-bind (λ (x : ℤ × FileSend.Task × Net). IsValid x.1) _ (FileSend.write_buffer junk t net)
      _ (Stays-Secures _ (write_buffer-IsValid junk t net v)) (λ r valid. valid)

-- A write event does not touch foreign memory, and keeps the task so.
pub write_buffer-Sends :
    (junk : Memory) (s : Session) (net : Net)
    → Sends s.task
    → Secures (λ (x : Result). Sends (x.1).task) (write_buffer junk s net)
unfolding write_buffer
write_buffer-Sends junk s net v =
    Secures-bind (λ (r : ℤ × TaskBase × Net). Sends r.1) _ (write_task junk s.task net) _
      (write_task-Sends junk s.task net v) (λ r valid. valid)
