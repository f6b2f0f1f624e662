-- ===== src/Reactor/Safety.antt =====
-- What can go wrong between the two threads of ReactorStation.cpp, and what cannot.
use files_event.Prelude.{◌≡◌, ◌≢◌, refl, arith, true, Option, ◌⊎◌, inl, inr}
use files_event.Server.{EventGlobal}
use files_event.Reactor.{
  Station, free, held, loop_thread, MainPc, fresh, running, stopping, holding, deleted, released,
  stopped, LoopPc, created, locked, looping, in_loop, handling, leaving, finished, crashed, Step,
  Steps, here, then_step, Reach, startup, startup_alone, shutdown, shutdown_locks, shutdown_deletes,
  shutdown_unlocks, shutdown_ends, shutdown_busy, loop_locks, loop_locks_gone, sets_up,
  sets_up_null, tests, turns, turns_freed, leaves, loop_unlocks, signal, handler_stops,
}
use files_event.Reactor.Invariant.{Inv, is_some, Reach-Inv, Steps-Inv, stopping-free}

-- The loop's thread has the mutex, and a global that is there, or is done with both.
abbrev Started : LoopPc → Option EventGlobal → Type 0
Started locked g = is_some g ≡ true
Started looping g = Unit {0}
Started in_loop g = Unit {0}
Started handling g = Unit {0}
Started leaving g = Unit {0}
Started finished g = Unit {0}
Started _ g = ⊥

Step-Started :
    {s t : Station} → Step s t → Inv s → Started s.loop s.global → Started t.loop t.global
Step-Started (startup junk a) v h = ground arith
Step-Started (startup_alone junk a) v h = ground arith
Step-Started (shutdown a) v h = ground arith
Step-Started (shutdown_locks a b) v h = ground arith
Step-Started (shutdown_deletes a) v h = ground arith
Step-Started (shutdown_unlocks a) v h = ground arith
Step-Started (shutdown_ends a b) v h = ground arith
Step-Started (shutdown_busy a b) v h = ground arith
Step-Started (loop_locks a b) v h = ground arith
Step-Started (loop_locks_gone a b) v h = ground arith
Step-Started (sets_up a b) v h = ground arith
Step-Started (sets_up_null a b) v h = ground arith
Step-Started (tests a b) v h = ground arith
Step-Started (turns a b) v h = ground arith
Step-Started (turns_freed a b) v h = ground arith
Step-Started (leaves a b) v h = ground arith
Step-Started (loop_unlocks a b) v h = ground arith
Step-Started (signal a b) v h = ground arith
Step-Started (handler_stops a b) v h = ground arith

Steps-Started :
    {s t : Station} → Steps s t → Inv s → Started s.loop s.global → Started t.loop t.global
Steps-Started here v h = h
Steps-Started (then_step r st) v h = Step-Started st (Steps-Inv r v) (Steps-Started r v h)

-- Once the loop's thread has the mutex while the global is there, it never goes through a pointer that is
-- null or was deleted, whatever the other thread does and whenever a signal comes.
pub loop_never_crashes :
    {s t : Station}
    → Reach s
    → s.loop ≡ locked
    → is_some s.global ≡ true
    → Steps s t
    → t.loop ≢ crashed
loop_never_crashes {s} {t} r a b steps e =
    let kept : Started t.loop t.global = Steps-Started steps (Reach-Inv r) (rw a b) in ground arith

-- If `shutdown` begins before the loop's thread has come to its lock, then that thread may find the global
-- deleted, and go through the null pointer.
pub late_loop_crashes :
    {s : Station}
    → Reach s
    → s.main ≡ stopping
    → s.loop ≡ created
    → (t : Station) × Steps s t × (t.loop ≡ crashed)
late_loop_crashes {s} r a b =
    let v : Inv s = Reach-Inv r in
    let m : s.mutex ≡ free = stopping-free v a (not_held v) in
    (
      _,
      then_step
          (then_step
            (then_step (then_step (then_step here (shutdown_locks a m)) (shutdown_deletes refl))
              (shutdown_unlocks refl))
            (loop_locks b refl))
          (sets_up_null refl refl),
      refl,
    )
  where
    not_held : Inv s → s.mutex ≢ held loop_thread
    not_held v e = ground arith

handling_stays : {s t : Station} → Step s t → Inv s → s.loop ≡ handling → t.loop ≡ handling
handling_stays (startup junk a) v h = ground arith
handling_stays (startup_alone junk a) v h = ground arith
handling_stays (shutdown a) v h = h
handling_stays (shutdown_locks a b) v h = h
handling_stays (shutdown_deletes a) v h = h
handling_stays (shutdown_unlocks a) v h = h
handling_stays (shutdown_ends a b) v h = h
handling_stays (shutdown_busy a b) v h = h
handling_stays (loop_locks a b) v h = ground arith
handling_stays (loop_locks_gone a b) v h = ground arith
handling_stays (sets_up a b) v h = ground arith
handling_stays (sets_up_null a b) v h = ground arith
handling_stays (tests a b) v h = ground arith
handling_stays (turns a b) v h = ground arith
handling_stays (turns_freed a b) v h = ground arith
handling_stays (leaves a b) v h = ground arith
handling_stays (loop_unlocks a b) v h = ground arith
handling_stays (signal a b) v h = ground arith
handling_stays (handler_stops a b) v h = ground arith

handling_steps : {s t : Station} → Steps s t → Inv s → s.loop ≡ handling → t.loop ≡ handling
handling_steps here v h = h
handling_steps (then_step r st) v h = handling_stays st (Steps-Inv r v) (handling_steps r v h)

handling_holds :
    (s : Station)
    → Inv s
    → s.loop ≡ handling
    → (s.mutex ≡ held loop_thread) × ((s.main ≡ running) ⊎ (s.main ≡ stopping))
handling_holds s v h = go s.main refl
  where
    go :
        (p : MainPc)
        → s.main ≡ p
        → (s.mutex ≡ held loop_thread) × ((s.main ≡ running) ⊎ (s.main ≡ stopping))
    go fresh e = ground arith
    go running e = (ground arith, inl e)
    go stopping e = (ground arith, inr e)
    go holding e = ground arith
    go deleted e = ground arith
    go released e = ground arith
    go stopped e = ground arith

-- A signal that is handled in the loop calls `shutdown` there, which waits for the mutex that its own
-- thread holds: from then on the handler never returns, its thread keeps the mutex, and a `shutdown`
-- of the other thread never gets past its lock.
pub signal_deadlocks :
    {s t : Station}
    → Reach s
    → s.loop ≡ handling
    → Steps s t
    → (t.loop ≡ handling)
      × (t.mutex ≡ held loop_thread)
      × ((t.main ≡ running) ⊎ (t.main ≡ stopping))
signal_deadlocks {s} {t} r h steps =
    let v : Inv s = Reach-Inv r in
    let stays : t.loop ≡ handling = handling_steps steps v h in
    let (m, p) = handling_holds t (Steps-Inv steps v) stays in (stays, m, p)
