-- ===== src/Session/Closing.antt =====
-- What `onRead` does with a session whose peer is gone, and what adding an event twice does.
use files_event.Prelude.{
  ℕ, ◌+◌, ◌%◌, ◌^◌, ◌<◌, ◌≡◌, refl, arith, List, [], ◌∷◌, ◌++◌, ◌==◌, ltb, if◌then◌else◌, true,
  false, none, some, returns, fault, ◌⊎◌, inl, inr, Bool-cases,
}
use files_event.SessionTable.{Table, get_and_remove}
use files_event.Session.{
  Session, Effect, close_fd, destroy, no_task, add_read_event, add_write_event, del_event,
  write_event, read_event, delete_session,
}
use files_event.Session.Callbacks.{hang_up, leave_table, can_delete, del_events, close_of}

-- How often a list of effects closes a descriptor.
unfoldable pub closes : ℕ → List Effect → ℕ
closes fd [] = 0
closes fd (close_fd other ∷ effects) = (if other == fd then 1 else 0) + closes fd effects
closes fd (_ ∷ effects) = closes fd effects

-- The effects of `onRead` on a session that has no task.
abbrev pub closing : Session → List Effect
closing s =
    (del_events
      ++ (del_event read_event
          ∷ ((if s.writing then del_event write_event ∷ [] else [])
              ++ (close_fd s.sid ∷ delete_session s.self ∷ []))))
    ++ close_of s.sid

closing_twice : (s : Session) → 0 < s.sid → closes s.sid (closing s) ≡ 2
unfolding closes
closing_twice s p =
    let here : ltb 0 s.sid ≡ true = ground arith in
    rw here elim s.writing [ true ↦ ground arith | false ↦ ground arith ]

-- A session without a task that the table holds under its descriptor (a `uint16_t`, not 0), when a read
-- answers 0: either no event that was never set has a stray pointer for its loop, and then it is taken out of
-- the table and deleted, and its descriptor is closed twice, once by the destructor and once by `onRead`; or
-- its write or its time event has one, and `event_del` goes through it.
pub hang_up-closes :
    (s : Session) (table : Table)
    → s.global ≡ true
    → 0 < s.sid
    → s.sid < 2 ^ 16
    → s.task ≡ no_task
    → (get_and_remove s.sid table).0 ≡ some s.self
    → ((can_delete s ≡ true)
        × (hang_up s.sid s table ≡ returns (none, (get_and_remove s.sid table).1, closing s))
        × (closes s.sid (closing s) ≡ 2))
      ⊎ ((can_delete s ≡ false) × (hang_up s.sid s table ≡ fault))
unfolding hang_up leave_table destroy
hang_up-closes s table g p b t e =
    let same : (s.self == s.self) ≡ true = ground arith in
    let low : s.sid % 2 ^ 16 ≡ s.sid = omega arith in
    elim (Bool-cases (can_delete s)) [
      | inl fine ↦ inl (fine, rw (g, low, e, same, t, fine) refl, closing_twice s p)
      | inr stray ↦ inr (stray, rw (g, low, e, same, t, stray) refl)
    ]

-- An event that is added twice is set in the loop only once: the second call does nothing, for the read
-- event as for the write event.
pub add_event_twice :
    (s : Session)
    → (add_read_event (add_read_event s).0 ≡ ((add_read_event s).0, []))
      × (add_write_event (add_write_event s).0 ≡ ((add_write_event s).0, []))
unfolding add_read_event add_write_event
add_event_twice s = (ground arith, ground arith)
