-- ===== src/Session.antt =====
-- Session.cpp and Session.h: one connection with its three libevent events. What the callbacks ask of
-- libevent and of the kernel is recorded as a list of effects, the oldest first.
pub mod Requests
pub mod Callbacks
pub mod Frame
pub mod Tasks
pub mod Starting
pub mod Exiting
pub mod Closing
pub mod Serving
pub mod Asking
pub mod Arrival
pub mod Granting
pub mod Receiving
pub mod Signalled
use files_event.Prelude.{
  ℕ, ◌+◌, ◌==◌, List, [], ◌∷◌, ◌++◌, ltb, if◌then◌else◌, Bool, true, false, ◌&&◌, ℤ, pos, negsuc,
  ltb_ℤ, Run, returns, fault, ◌>>=◌,
}
use files_event.Memory.{Memory}
use files_event.Posix.{Net}
use files_event.Wire.{MsgType, file_recv_msg}
use files_event.FileRecv
use files_event.FileSend
use files_event.FileSend.Reading

pub data Handle : Type 0 where
  read_event write_event time_event : Handle

pub data Callback : Type 0 where
  call_on_read call_on_write call_on_timer : Callback

-- The bits EV_READ and EV_WRITE of an event mask.
pub record Events : Type 0 where
  pub reads : Bool
  pub writes : Bool

abbrev pub ev_read : Events
ev_read = record { reads = true; writes = false }

abbrev pub ev_write : Events
ev_write = record { reads = false; writes = true }

-- `event_set` with `event_base_set`, `event_add`, `event_del`, `evtimer_add`, `close` and `delete`.
pub data Effect : Type 0 where
  set_event : Handle → ℤ → Events → Callback → Effect
  add_event : Handle → Effect
  del_event : Handle → Effect
  add_timer : ℕ → Effect
  close_fd : ℕ → Effect
  delete_session : ℕ → Effect

-- `mTaskBase`: none yet, or one of the two tasks.
pub data TaskBase : Type 0 where
  no_task : TaskBase
  receiving : FileRecv.Task → TaskBase
  sending : FileSend.Task → TaskBase

pub data Status : Type 0 where
  normal would_exit exit : Status

-- `ev_base` of an event: what `malloc` left there, null or not, until `event_set` gives it a loop.
pub data Base : Type 0 where
  null_base stray_base loop_base : Base

-- `event_del` goes through `ev_base` unless it is null.
abbrev pub deletable : Base → Bool
deletable stray_base = false
deletable _ = true

abbrev pub malloced : ℕ → Base
malloced word = if word == 0 then null_base else stray_base

-- `self` stands for the pointer to the session, `write_fd` for the descriptor in its write event.
pub record Session : Type 0 where
  pub self : ℕ
  pub sid : ℕ
  pub task : TaskBase
  pub global : Bool
  pub status : Status
  pub running : Bool
  pub writing : Bool
  pub reading : Bool
  pub head_now : Bool
  pub total_len : ℕ
  pub has_recv_len : ℕ
  pub buff : Memory
  pub write_fd : ℤ
  pub write_base : Base
  pub time_base : Base

-- `mHeadLenConst`, and the size of `mReadBuff`.
abbrev pub head_len : ℕ
head_len = 16

abbrev pub buff_len : ℕ
buff_len = 1500

abbrev task_for : MsgType → Memory → TaskBase
task_for file_recv_msg junk = receiving (FileRecv.new junk)
task_for _ junk = no_task

-- The constructor; `junk` is what the memory holds before, and behind the buffer what `ev_base` of the write
-- and of the time event hold.
unfoldable pub new : ℕ → ℕ → MsgType → Memory → Session
new self sid type junk = record {
  self = self;
  sid = sid;
  task = task_for type junk;
  global = false;
  status = normal;
  running = false;
  writing = false;
  reading = false;
  head_now = true;
  total_len = 0;
  has_recv_len = 0;
  buff = junk;
  write_fd = pos 0;
  write_base = malloced (junk buff_len);
  time_base = malloced (junk (buff_len + 1));
}

abbrev pub set_global : Bool → Session → Session
set_global g s = record s { global = g }

abbrev pub set_status : Status → Session → Session
set_status v s = record s { status = v }

abbrev pub set_running : Bool → Session → Session
set_running v s = record s { running = v }

abbrev pub set_writing : Bool → Session → Session
set_writing v s = record s { writing = v }

abbrev pub set_reading : Bool → Session → Session
set_reading v s = record s { reading = v }

-- A negative descriptor stands for that of the write event.
abbrev fd_or : ℤ → Session → ℤ
fd_or fd s = if ltb_ℤ fd (pos 0) then s.write_fd else fd

abbrev arm_write : Events → ℤ → Callback → Session → Session × List Effect × ℤ
arm_write events fd callback s = (
  record s { writing = true; write_fd = fd_or fd s; write_base = loop_base },
  set_event write_event (fd_or fd s) events callback ∷ add_event write_event ∷ [],
  fd_or fd s,
)

abbrev arm_read : Events → ℤ → Callback → Session → Session × List Effect
arm_read events fd callback s = (
  record s { reading = true },
  set_event read_event (fd_or fd s) events callback ∷ add_event read_event ∷ [],
)

-- `addEvent` with a callback. The write part may replace the descriptor that the read part uses.
unfoldable pub add_event_with : Events → ℤ → Callback → Session → Session × List Effect
add_event_with events fd callback s =
    let (s', effects, fd') =
      if events.writes && (if s.writing then false else true)
      then arm_write events fd callback s
      else (s, [], fd) in
    if events.reads && (if s'.reading then false else true)
    then (let (s'', more) = arm_read events fd' callback s' in (s'', effects ++ more))
    else (s', effects)

-- `addEvent` without one.
unfoldable pub add_event_for : Events → ℤ → Session → Session × List Effect
unfolding add_event_with
add_event_for events fd s =
    if events.writes
    then add_event_with events fd call_on_write s
    else if events.reads
    then add_event_with events fd call_on_read s
    else (s, [])

unfoldable pub add_read_event : Session → Session × List Effect
unfolding add_event_with
add_read_event s =
    if s.reading
    then (s, [])
    else (let (s', effects) = add_event_with ev_read (pos s.sid) call_on_read s in
        (set_reading true s', effects))

unfoldable pub add_write_event : Session → Session × List Effect
unfolding add_event_with
add_write_event s =
    if s.writing
    then (s, [])
    else (let (s', effects) = add_event_with ev_write (pos s.sid) call_on_write s in
        (set_writing true s', effects))

-- One second, in microseconds.
abbrev timeout_us : ℕ
timeout_us = 1000000

unfoldable pub add_timer_event : Session → Session × List Effect
add_timer_event s = (
  record s { time_base = loop_base },
  set_event time_event (negsuc 0) (record { reads = false; writes = false }) call_on_timer
      ∷ add_timer timeout_us
      ∷ [],
)

-- `fetchFileAndSave` hands over to the task; `TaskBase` and `TaskFileSend` do nothing.
unfoldable pub fetch_file_and_save : List ℕ → Bool → Session → Net → Run (ℤ × Session × Net)
fetch_file_and_save remote can_create s net = fetch_of s.task
  where
    fetch_of : TaskBase → Run (ℤ × Session × Net)
    fetch_of (receiving t) = do
      (ret, t', net') ← FileRecv.set_fetch_and_save_file remote can_create t net
      returns (ret, record s { task = receiving t' }, net')
    fetch_of _ = returns (pos 0, s, net)

-- `setHeartBeat`: every task answers 0.
unfoldable pub set_heart_beat : Session → ℤ × Session
set_heart_beat s = (pos 0, s)

-- `writeBuffer`.
abbrev pub write_task : Memory → TaskBase → Net → Run (ℤ × TaskBase × Net)
write_task junk no_task net = returns (pos 0, no_task, net)
write_task junk (receiving t) net = do
  (ret, t', net') ← FileRecv.write_buffer t net
  returns (ret, receiving t', net')
write_task junk (sending t) net = do
  (ret, t', net') ← FileSend.write_buffer junk t net
  returns (ret, sending t', net')

unfoldable pub write_buffer : Memory → Session → Net → Run (ℤ × Session × Net)
write_buffer junk s net = do
  (ret, task, net') ← write_task junk s.task net
  returns (ret, record s { task = task }, net')

-- `delete mTaskBase`.
abbrev pub delete_task : TaskBase → Run (Unit {0})
delete_task no_task = returns tt
delete_task (receiving t) = FileRecv.close t >>= λ _. returns tt
delete_task (sending t) = returns tt

-- What the destructor asks for.
abbrev pub destroyed : Session → List Effect
destroyed s =
    del_event read_event
    ∷ ((if s.writing then del_event write_event ∷ [] else [])
        ++ (close_fd s.sid ∷ delete_session s.self ∷ []))

-- The destructor.
unfoldable pub destroy : Session → Run (List Effect)
destroy s = do done ← delete_task s.task; returns (destroyed s)
