-- ===== src/Loop.antt =====
-- The server while it runs: the sessions that are alive, the table of TcpServer.cpp's EventGlobal, what each
-- session's events wait for in libevent, and the process's descriptors, under the callbacks that the
-- loop makes (`onAccept`, `onRead`, `onWrite`). An event that fires is no longer in the loop until it is
-- added again; a callback gets the pointer that `event_set` was given.
pub mod Events
pub mod Invariant
pub mod Steps
pub mod Safety
pub mod Tasks
pub mod Writing
pub mod Agreement
pub mod Reading
use files_event.Prelude.{
  ℕ, ◌^◌, List, [], ◌∷◌, ltb, if◌then◌else◌, Bool, true, false, not, Option, none, some, ℤ, pos,
  pos_part, ◌&&◌, Run, returns, deref, ◌>>=◌,
}
use files_event.Memory.{Memory}
use files_event.Posix.{Net}
use files_event.SessionTable.{Table, empty, update}
use files_event.Session.{
  Session, Effect, read_event, write_event, time_event, set_event, add_event, del_event, add_timer,
  close_fd, delete_session, ev_read, ev_write,
}
use files_event.Session.Requests.{Files}
use files_event.Session.Callbacks.{on_read, on_write}
use files_event.Server.{EventGlobal, on_accept}

-- The read and the write event of a session: the descriptor that each was set for, and whether it is in
-- the loop.
pub record Slots : Type 0 where
  pub read_fd : ℤ
  pub reads : Bool
  pub write_fd : ℤ
  pub writes : Bool

abbrev pub no_slots : Slots
no_slots = record { read_fd = pos 0; reads = false; write_fd = pos 0; writes = false }

-- `live` holds the sessions by their pointers.
pub record World : Type 0 where
  pub global : EventGlobal
  pub live : ℕ → Option Session
  pub slots : ℕ → Slots
  pub is_open : ℕ → Bool

-- What one call does to the session's events.
abbrev pub slot_effect : Effect → Slots → Slots
slot_effect (set_event read_event fd _ _) k = record k { read_fd = fd }
slot_effect (set_event write_event fd _ _) k = record k { write_fd = fd }
slot_effect (set_event time_event fd _ _) k = k
slot_effect (add_event read_event) k = record k { reads = true }
slot_effect (add_event write_event) k = record k { writes = true }
slot_effect (add_event time_event) k = k
slot_effect (del_event read_event) k = record k { reads = false }
slot_effect (del_event write_event) k = record k { writes = false }
slot_effect (del_event time_event) k = k
slot_effect (add_timer _) k = k
slot_effect (close_fd _) k = k
slot_effect (delete_session _) k = k

abbrev pub slots_after : List Effect → Slots → Slots
slots_after [] k = k
slots_after (e ∷ es) k = slots_after es (slot_effect e k)

-- What one call does to the descriptors.
abbrev pub fd_effect : Effect → (ℕ → Bool) → ℕ → Bool
fd_effect (close_fd fd) fds = update fds fd false
fd_effect _ fds = fds

abbrev pub fds_after : List Effect → (ℕ → Bool) → ℕ → Bool
fds_after [] fds = fds
fds_after (e ∷ es) fds = fds_after es (fd_effect e fds)

-- What a callback of the session at `self` leaves behind.
abbrev pub settle : ℕ → Slots → Option Session → EventGlobal → List Effect → World → World
settle self k left g effects w = record {
  global = g;
  live = update w.live self left;
  slots = update w.slots self (slots_after effects k);
  is_open = fds_after effects w.is_open;
}

-- What may come next: a connection, which the kernel puts on a descriptor that is not open, and for
-- which `new` finds a pointer that is not in use; an `accept` that fails; and for a session an event
-- that is in the loop, with whatever the kernel answers to the calls it makes.
pub data Happening : Type 0 where
  connection : ℕ → ℕ → Memory → Happening
  accept_failed : Happening
  readable : ℕ → Files → Memory → ℕ → Net → Happening
  writable : ℕ → Memory → Net → Happening

abbrev pub is_free : Option Session → Bool
is_free none = true
is_free (some _) = false

abbrev accepted : ℕ → ℕ → World → Option Session × EventGlobal × List Effect → Run World
accepted client self w (left, g, effects) =
    returns
      (settle self no_slots left g effects (record w { is_open = update w.is_open client true }))

abbrev have_read : ℕ → World → Option Session × Table × Net × List Effect → Run World
have_read self w (left, table, net, effects) = returns (
    settle self (record (w.slots self) { reads = false }) left
      (record (w.global) { manager = some table }) effects w)

abbrev have_written : ℕ → World → Session × Net × List Effect → Run World
have_written self w (s, net, effects) =
    returns (settle self (record (w.slots self) { writes = false }) (some s) w.global effects w)

-- What cannot happen changes nothing. Descriptors are below 2 ^ 16, as `Sockid_t` wants them.
unfoldable pub step : Happening → World → Run World
step (connection client self junk) w =
    if not (w.is_open client) && (ltb client (2 ^ 16) && is_free (w.live self))
    then (on_accept (some client) self junk w.global >>= accepted client self w)
    else returns w
step accept_failed w =
    on_accept none 0 (λ _. 0) w.global >>= λ r. returns (record w { global = r.1 })
step (readable self files junk junk_len net) w =
    if (w.slots self).reads
    then (do
      s ← deref (w.live self)
      table ← deref w.global.manager
      on_read files junk junk_len (pos_part (w.slots self).read_fd) ev_read s table net
          >>= have_read self w)
    else returns w
step (writable self junk net) w =
    if (w.slots self).writes
    then (do
      s ← deref (w.live self)
      on_write junk (pos_part (w.slots self).write_fd) ev_write s net >>= have_written self w)
    else returns w

unfoldable pub run : List Happening → World → Run World
unfolding step
run [] w = returns w
run (h ∷ hs) w = step h w >>= run hs

-- The server when it listens: its global was created, and no connection was made yet.
unfoldable pub start : EventGlobal → (ℕ → Bool) → World
start g fds = record {
  global = record g { manager = some empty };
  live = λ _. none;
  slots = λ _. no_slots;
  is_open = fds;
}
