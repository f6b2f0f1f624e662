-- ===== src/Session/Exiting/Served.antt =====
-- The status of a session and the callbacks of Session.cpp.
use files_event.Prelude.{
  in_bounds, ℕ, ◌%◌, ◌^◌, ◌≡◌, refl, ap, List, [], ◌++◌, if◌then◌else◌, Bool, true, false, Option,
  none, some, ℤ, pos, negsuc, zero, suc, returns, ◌>>=◌, ◌==ℤ◌,
}
use files_event.Memory.{Memory}
use files_event.Posix.{Net}
use files_event.FileSend.{own_sock_exit}
use files_event.SessionTable.{Table, get_and_remove}
use files_event.Session.{
  Session, Effect, Status, set_status, set_reading, set_writing, write_task, write_buffer, destroy,
  Events, add_event_with, ev_read, ev_write, call_on_read, call_on_write,
}
use files_event.Session.Requests.{Files, read_buffer}
use files_event.Session.Callbacks.{
  on_read, on_write, after_read, after_write, hang_up, leave_table, can_delete, rearmed, is_self,
  del_events,
}
use files_event.Session.Exiting.{
  mapped, mapped->>=, mapped-then, mapped-if, Result, told, told_read, read_buffer-told,
  add_event_with-told,
}

abbrev Left : Type 0
Left = Option Session × Table × List Effect

abbrev Read : Type 0
Read = Option Session × Table × Net × List Effect

abbrev Written : Type 0
Written = Session × Net × List Effect

-- The same result, with the status of the session set.
abbrev left_with : Status → Option Session → Option Session
left_with v none = none
left_with v (some s) = some (set_status v s)

abbrev pub read_with : Status → Read → Read
read_with v (left, table, net, effects) = (left_with v left, table, net, effects)

abbrev pub written_with : Status → Written → Written
written_with v (s, net, effects) = (set_status v s, net, effects)

module _ (v : Status) where
  abbrev left_told : Left → Left
  left_told (left, table, effects) = (left_with v left, table, effects)

  leave_table-told :
      (fd : ℕ) (s : Session) (t : Table)
      → leave_table fd (set_status v s) t ≡ mapped left_told (leave_table fd s t)
  unfolding leave_table destroy
  leave_table-told fd s t =
      let (removed, t') = get_and_remove (fd % 2 ^ 16) t in
      mapped->>= left_told (in_bounds (can_delete s)) _ _ (λ _.
        mapped-if left_told (is_self s removed)
          (destroy s >>= λ effects. returns (none, t', del_events ++ effects))
          (returns (some s, t', del_events)) _ _ (mapped->>= left_told (destroy s) _ _ (λ _. refl))
          refl)

  hang_up-told :
      (fd : ℕ) (s : Session) (t : Table)
      → hang_up fd (set_status v s) t ≡ mapped left_told (hang_up fd s t)
  unfolding hang_up
  hang_up-told fd s t =
      mapped-then left_told left_told
        (if s.global then leave_table fd s t else returns (some s, t, [])) _ _ _
        (mapped-if left_told s.global (leave_table fd s t) (returns (some s, t, [])) _ _
          (leave_table-told fd s t) refl)
        (λ r. refl)

  rearmed-told :
      (fd : ℕ) (s : Session) (t : Table) (net : Net) (effects : List Effect)
      → rearmed fd (set_status v s) t net effects
        ≡ mapped (read_with v) (rearmed fd s t net effects)
  rearmed-told fd s t net effects =
      ap (λ (x : Session × List Effect). returns (some x.0, t, net, effects ++ x.1))
        (add_event_with-told v ev_read (pos fd) call_on_read s)

  after_read-told :
      (fd : ℕ) (t : Table) (ret : ℤ) (s : Session) (net : Net) (effects : List Effect)
      → after_read fd t (ret, set_status v s, net, effects)
        ≡ mapped (read_with v) (after_read fd t (ret, s, net, effects))
  unfolding after_read
  after_read-told fd t (pos zero) s net effects =
      mapped-then left_told (read_with v) (hang_up fd s t) _ _ _ (hang_up-told fd s t) (λ r. refl)
  after_read-told fd t (pos (suc n)) s net effects = rearmed-told fd s t net effects
  after_read-told fd t (negsuc n) s net effects = rearmed-told fd s t net effects

  on_read-told :
      (files : Files) (junk : Memory) (junk_len fd : ℕ) (events : Events) (s : Session) (t : Table)
      (net : Net)
      → on_read files junk junk_len fd events (set_status v s) t net
        ≡ mapped (read_with v) (on_read files junk junk_len fd events s t net)
  unfolding on_read
  on_read-told files junk junk_len fd events s t net =
      mapped-if (read_with v) events.reads
        (read_buffer files junk junk_len (set_reading false s) net >>= after_read fd t)
        (rearmed fd (set_reading false s) t net []) _ _
        (mapped-then (told_read v files junk junk_len) (read_with v)
          (read_buffer files junk junk_len (set_reading false s) net) _ _ _
          (read_buffer-told v files junk junk_len (set_reading false s) net)
          (λ r. after_read-told fd t r.0 r.1 r.2 r.3))
        (rearmed-told fd (set_reading false s) t net [])

  write_buffer-told :
      (junk : Memory) (s : Session) (net : Net)
      → write_buffer junk (set_status v s) net ≡ mapped (told v) (write_buffer junk s net)
  unfolding write_buffer
  write_buffer-told junk s net = mapped->>= (told v) (write_task junk s.task net) _ _ (λ r. refl)

  after_write-told :
      (fd : ℕ) (r : Result) → after_write fd (told v r) ≡ written_with v (after_write fd r)
  unfolding after_write
  after_write-told fd (ret, s, net) = pick (ret ==ℤ own_sock_exit) (ret ==ℤ pos 0)
    where
      again : Session → Written
      again u =
          let (s', effects) = add_event_with ev_write (pos fd) call_on_write u in (s', net, effects)

      pick :
          (a b : Bool)
          → (if a
              then (set_status v s, net, [])
              else if b
              then (set_status v s, net, [])
              else again (set_status v s))
            ≡ written_with v (if a then (s, net, []) else if b then (s, net, []) else again s)
      pick true b = refl
      pick false true = refl
      pick false false =
          ap (λ (x : Session × List Effect). (x.0, net, x.1))
            (add_event_with-told v ev_write (pos fd) call_on_write s)

  on_write-told :
      (junk : Memory) (fd : ℕ) (events : Events) (s : Session) (net : Net)
      → on_write junk fd events (set_status v s) net
        ≡ mapped (written_with v) (on_write junk fd events s net)
  unfolding on_write
  on_write-told junk fd events s net =
      mapped-if (written_with v) events.writes
        (write_buffer junk (set_writing false s) net >>= λ done. returns (after_write fd done))
        (returns (set_writing false s, net, [])) _ _
        (mapped-then (told v) (written_with v) (write_buffer junk (set_writing false s) net) _ _ _
          (write_buffer-told junk (set_writing false s) net)
          (λ r. ap returns (after_write-told fd r)))
        refl

  -- The status of a session changes nothing of what its read and write events do: a session that is told to
  -- exit, because there are too many, is served like any other, and keeps its status.
  pub status_ignored :
      (files : Files) (junk : Memory) (junk_len fd : ℕ) (events : Events) (s : Session) (t : Table)
      (net : Net)
      → (on_read files junk junk_len fd events (set_status v s) t net
          ≡ mapped (read_with v) (on_read files junk junk_len fd events s t net))
        × (on_write junk fd events (set_status v s) net
            ≡ mapped (written_with v) (on_write junk fd events s net))
  status_ignored files junk junk_len fd events s t net =
      (on_read-told files junk junk_len fd events s t net, on_write-told junk fd events s net)
