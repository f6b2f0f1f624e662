-- ===== src/Session/Callbacks.antt =====
-- `onRead`, `onWrite` and `onTimer` of Session.cpp, the callbacks of a session's three events.
use files_event.Prelude.{
  ℕ, zero, ◌%◌, ◌^◌, ◌==ℤ◌, List, [], ◌∷◌, ◌++◌, ◌==◌, ltb, if◌then◌else◌, Bool, false, Option,
  none, some, ℤ, pos, Run, returns, in_bounds, ◌&&◌, ◌>>=◌, ◌>>◌,
}
use files_event.Memory.{Memory}
use files_event.Posix.{Net}
use files_event.FileSend.{own_sock_exit}
use files_event.SessionTable.{Table, get_and_remove}
use files_event.Session.{
  Session, deletable, Effect, Events, read_event, write_event, time_event, call_on_read,
  call_on_write, ev_read, ev_write, del_event, close_fd, add_timer, timeout_us, set_reading,
  set_writing, add_event_with, set_heart_beat, write_buffer, destroy,
}
use files_event.Session.Requests.{Files, read_buffer}

-- Is the pointer that the table gave the session itself?
abbrev pub is_self : Session → Option ℕ → Bool
is_self s none = false
is_self s (some other) = other == s.self

-- The three events are removed from the loop.
abbrev pub del_events : List Effect
del_events = del_event read_event ∷ del_event write_event ∷ del_event time_event ∷ []

-- May `event_del` be called on the write and on the time event?
abbrev pub can_delete : Session → Bool
can_delete s = deletable s.write_base && deletable s.time_base

-- A session that the table held under this descriptor is deleted.
unfoldable pub leave_table : ℕ → Session → Table → Run (Option Session × Table × List Effect)
unfolding get_and_remove
leave_table fd s table =
    let (removed, table') = get_and_remove (fd % 2 ^ 16) table in
    in_bounds (can_delete s)
    >> (if is_self s removed
        then (destroy s >>= λ effects. returns (none, table', del_events ++ effects))
        else returns (some s, table', del_events))

abbrev pub close_of : ℕ → List Effect
close_of fd = if ltb 0 fd then close_fd fd ∷ [] else []

-- What follows a read of 0 bytes.
unfoldable pub hang_up : ℕ → Session → Table → Run (Option Session × Table × List Effect)
hang_up fd s table = do
  (left, table', effects) ←
      (if s.global then leave_table fd s table else returns (some s, table, []))
  returns (left, table', effects ++ close_of fd)

abbrev pub rearmed :
    ℕ → Session → Table → Net → List Effect → Run (Option Session × Table × Net × List Effect)
rearmed fd s table net effects =
    let (s', more) = add_event_with ev_read (pos fd) call_on_read s in
    returns (some s', table, net, effects ++ more)

-- What `readBuffer` answered: 0 hangs up, all else waits for more.
unfoldable pub after_read :
    ℕ → Table → ℤ × Session × Net × List Effect → Run (Option Session × Table × Net × List Effect)
after_read fd table (pos zero, s, net, effects) = do
  (left, table', more) ← hang_up fd s table
  returns (left, table', net, effects ++ more)
after_read fd table (_, s, net, effects) = rearmed fd s table net effects

unfoldable pub on_read :
    Files
    → Memory
    → ℕ
    → ℕ
    → Events
    → Session
    → Table
    → Net
    → Run (Option Session × Table × Net × List Effect)
unfolding after_read
on_read files junk junk_len fd events s table net =
    if events.reads
    then (read_buffer files junk junk_len (set_reading false s) net >>= after_read fd table)
    else rearmed fd (set_reading false s) table net []

-- The event is added again unless `writeBuffer` answered 0 or `OWN_SOCK_EXIT`.
unfoldable pub after_write : ℕ → ℤ × Session × Net → Session × Net × List Effect
unfolding add_event_with
after_write fd (ret, s, net) =
    if ret ==ℤ own_sock_exit
    then (s, net, [])
    else if ret ==ℤ pos 0
    then (s, net, [])
    else (let (s', effects) = add_event_with ev_write (pos fd) call_on_write s in
        (s', net, effects))

unfoldable pub on_write : Memory → ℕ → Events → Session → Net → Run (Session × Net × List Effect)
on_write junk fd events s net =
    if events.writes
    then (write_buffer junk (set_writing false s) net >>= λ done. returns (after_write fd done))
    else returns (set_writing false s, net, [])

unfoldable pub on_timer : Session → Session × List Effect
unfolding set_heart_beat
on_timer s = let (_, s') = set_heart_beat s in (s', add_timer timeout_us ∷ [])
