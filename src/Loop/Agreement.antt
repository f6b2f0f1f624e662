-- ===== src/Loop/Agreement.antt =====
-- What the running server's table, sessions and events have to do with each other, at any time.
use files_event.Prelude.{
  ℕ, ◌^◌, ◌<◌, ◌≡◌, ◌↔◌, sym, subst, List, Bool, true, if◌then◌else◌, some, pos, ◌⊎◌, inl, inr,
  Option-cases,
}
use files_event.SessionTable.{Table, get}
use files_event.SessionTable.Deleting.{times, destroy-once, destroy-none}
use files_event.Session.{Session}
use files_event.Server.{EventGlobal, destroy_global}
use files_event.Loop.{World, Happening, is_free}
use files_event.Loop.Invariant.{Sound}
use files_event.Loop.Safety.{EndsIn, run-start-Sound, live_of}

module _ (g : EventGlobal) (fds : ℕ → Bool) (hs : List Happening) (w : World)
    (h : EndsIn g fds hs w) where
  sound : Sound w
  sound = run-start-Sound g fds hs h

  -- Whatever has happened on a server: an event in the loop belongs to a session that is alive, and was set
  -- for its descriptor, which is open.
  pub event-live :
      (p : ℕ)
      → ((w.slots p).reads ≡ true) ⊎ ((w.slots p).writes ≡ true)
      → (s : Session) × (w.live p ≡ some s)
        × ((w.slots p).read_fd ≡ pos s.sid)
        × ((w.slots p).write_fd ≡ pos s.sid)
        × (w.is_open s.sid ≡ true)
  event-live p on =
      let (s, here) = live_of w sound p on in
      let known = sound.alive p s here in
      (s, here, known.waits.read_here, known.waits.write_here, known.descriptor)

  same_number :
      (sid p : ℕ) (s u : Session)
      → s.sid ≡ sid
      → w.live p ≡ some s
      → w.live p ≡ some u
      → u.sid ≡ sid
  same_number sid p s u number here there =
      let same : s ≡ u = cc in subst (λ (v : Session). v.sid ≡ sid) same number

  -- Whatever has happened on a server, with any answers of the kernel and any bytes from its clients: there is
  -- a table, and under a number below 2 ^ 16 it has just the session that is alive and has that number, and
  -- none if there is no such session.
  pub table-live :
      (t : Table) × (w.global.manager ≡ some t)
      × ((sid p : ℕ)
          → sid < 2 ^ 16
          → ((get sid t).0 ≡ some p) ↔ ((s : Session) × (w.live p ≡ some s) × (s.sid ≡ sid)))
  table-live = (
    sound.table,
    sound.has_table,
    λ sid p low. (
      λ found. sound.held sid p low found,
      λ (s, here, number).
          subst (λ n. (get n sound.table).0 ≡ some p) number (sound.alive p s here).in_table,
    ),
  )

  -- Whatever has happened on a server, with any answers of the kernel and any bytes from its clients: when `Destroy` deletes the table, each session that is alive is
  -- deleted just once, and no other pointer is deleted.
  pub destroy-live :
      (p : ℕ) → times p (destroy_global w.global).0 ≡ (if is_free (w.live p) then 0 else 1)
  unfolding destroy_global
  destroy-live p = rw sound.has_table (elim (Option-cases (w.live p)) [
    | inl gone ↦ rw gone (
        destroy-none p sound.table
          (λ sid low found. let (s, here, _) = sound.held sid p low found in absurd (cc)))
    | inr (s, here) ↦
        let known = sound.alive p s here in
        rw here (
          destroy-once p s.sid sound.table known.low known.in_table (λ other low found.
            let (u, there, number) = sound.held other p low found in
            sym (same_number other p u s number there here)))
  ])
