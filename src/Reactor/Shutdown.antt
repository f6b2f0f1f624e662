-- ===== src/Reactor/Shutdown.antt =====
-- `shutdown` of ReactorStation.cpp ends, if the loop is under way and no signal has come.
use files_event.Prelude.{ℕ, suc, ◌+◌, ◌≤◌, ◌<◌, ◌≡◌, refl, arith, false, Option, none, some}
use files_event.Server.{EventGlobal}
use files_event.Reactor.{
  Station, free, gone, held, loop_thread, MainPc, stopping, holding, deleted, released, stopped,
  LoopPc, created, locked, looping, in_loop, handling, leaving, finished, Step, Steps, here,
  then_step, Reach, startup, startup_alone, shutdown, shutdown_locks, shutdown_deletes,
  shutdown_unlocks, shutdown_ends, shutdown_busy, loop_locks, loop_locks_gone, sets_up,
  sets_up_null, tests, turns, turns_freed, leaves, loop_unlocks, signal, handler_stops,
}
use files_event.Reactor.Invariant.{Inv, Reach-Inv, Steps-Inv, stopping-free}

Steps-trans : {s t u : Station} → Steps s t → Steps t u → Steps s u
Steps-trans r here = r
Steps-trans r (then_step q st) = then_step (Steps-trans r q) st

-- Where the loop's thread is on its way out.
pub data Underway : LoopPc → Type 0 where
  at_head : Underway looping
  in_base : Underway in_loop
  at_end : Underway leaving
  over : Underway finished

abbrev pub Stopped : Station → Type 0
Stopped s =
    (t : Station) × Steps s t
    × (t.main ≡ stopped)
    × (t.loop ≡ finished)
    × (t.mutex ≡ gone)
    × (t.global ≡ none)

after_steps : {s t : Station} → Steps s t → Stopped t → Stopped s
after_steps r (t, q, a, b, c, d) = (t, Steps-trans r q, a, b, c, d)

from_finished : (s : Station) → s.main ≡ stopping → s.loop ≡ finished → s.mutex ≡ free → Stopped s
from_finished s a b m = (
  _,
  then_step
      (then_step (then_step (then_step here (shutdown_locks a m)) (shutdown_deletes refl))
        (shutdown_unlocks refl))
      (shutdown_ends refl refl),
  refl,
  b,
  refl,
  refl,
)

from_leaving :
    (s : Station) → s.main ≡ stopping → s.loop ≡ leaving → s.mutex ≡ held loop_thread → Stopped s
from_leaving s a b m =
    after_steps (then_step here (loop_unlocks b m))
      (from_finished (record s { mutex = free; loop = finished }) a refl refl)

from_looping :
    (s : Station)
    → s.main ≡ stopping
    → s.loop ≡ looping
    → s.mutex ≡ held loop_thread
    → s.is_startup ≡ false
    → Stopped s
from_looping s a b m off =
    after_steps (then_step here (leaves b off))
      (from_leaving (record s { loop = leaving }) a refl m)

from_in_loop :
    (s : Station) (g : EventGlobal)
    → s.main ≡ stopping
    → s.loop ≡ in_loop
    → s.mutex ≡ held loop_thread
    → s.is_startup ≡ false
    → s.global ≡ some g
    → Stopped s
from_in_loop s g a b m off e =
    after_steps (then_step here (turns b e))
      (from_looping (record s { loop = looping }) a refl m off)

-- From every state in which `shutdown` has begun and the loop's thread is in its loop, behind it or at its
-- end, both threads can go on to their ends: the global is deleted, and the mutex is destroyed.
pub shutdown_ends_lem :
    {s : Station} {l : LoopPc} → Reach s → s.main ≡ stopping → s.loop ≡ l → Underway l → Stopped s
shutdown_ends_lem {s} r a b at_head =
    let v : Inv s = Reach-Inv r in from_looping s a b (ground arith) (ground arith)
shutdown_ends_lem {s} r a b in_base = go (Reach-Inv r) s.global refl
  where
    go : Inv s → (g : Option EventGlobal) → s.global ≡ g → Stopped s
    go v none e = ground arith
    go v (some g) e = from_in_loop s g a b (ground arith) (ground arith) e
shutdown_ends_lem {s} r a b at_end =
    let v : Inv s = Reach-Inv r in from_leaving s a b (ground arith)
shutdown_ends_lem {s} r a b over =
    let v : Inv s = Reach-Inv r in from_finished s a b (stopping-free v a (ground arith))

-- How many steps are left for a thread, at most.
abbrev pub main_left : MainPc → ℕ
main_left stopping = 4
main_left holding = 3
main_left deleted = 2
main_left released = 1
main_left _ = 0

abbrev pub loop_left : LoopPc → ℕ
loop_left created = 6
loop_left locked = 5
loop_left in_loop = 4
loop_left looping = 3
loop_left leaving = 2
loop_left handling = 1
loop_left _ = 0

-- `shutdown` has begun.
abbrev pub Begun : MainPc → Type 0
Begun stopping = Unit {0}
Begun holding = Unit {0}
Begun deleted = Unit {0}
Begun released = Unit {0}
Begun stopped = Unit {0}
Begun _ = ⊥

step_lowers :
    {s t : Station}
    → Step s t
    → Inv s
    → Begun s.main
    → Begun t.main × (main_left t.main + loop_left t.loop < main_left s.main + loop_left s.loop)
step_lowers (startup junk a) v h = ground arith
step_lowers (startup_alone junk a) v h = ground arith
step_lowers (shutdown a) v h = ground arith
step_lowers (shutdown_locks a b) v h = ground arith
step_lowers (shutdown_deletes a) v h = ground arith
step_lowers (shutdown_unlocks a) v h = ground arith
step_lowers (shutdown_ends a b) v h = ground arith
step_lowers (shutdown_busy a b) v h = ground arith
step_lowers (loop_locks a b) v h = ground arith
step_lowers (loop_locks_gone a b) v h = ground arith
step_lowers (sets_up a b) v h = ground arith
step_lowers (sets_up_null a b) v h = ground arith
step_lowers (tests a b) v h = ground arith
step_lowers (turns a b) v h = ground arith
step_lowers (turns_freed a b) v h = ground arith
step_lowers (leaves a b) v h = ground arith
step_lowers (loop_unlocks a b) v h = ground arith
step_lowers (signal a b) v h = ground arith
step_lowers (handler_stops a b) v h = ground arith

abbrev pub count_steps : {s t : Station} → Steps s t → ℕ
count_steps here = 0
count_steps (then_step r st) = suc (count_steps r)

steps_lower :
    {s t : Station} (r : Steps s t)
    → Inv s
    → Begun s.main
    → Begun t.main
      × (count_steps r + main_left t.main + loop_left t.loop ≤ main_left s.main + loop_left s.loop)
steps_lower here v h = (h, omega arith)
steps_lower (then_step r st) v h =
    let (h', n) = steps_lower r v h in
    let (h'', m) = step_lowers st (Steps-Inv r v) h' in (h'', omega arith)

-- Once `shutdown` has begun, the two threads together make at most ten more steps, in whatever order they
-- are run: the loop does not go on.
pub shutdown-bounded :
    {s t : Station} → Reach s → Begun s.main → (r : Steps s t) → count_steps r ≤ 10
shutdown-bounded {s} {t} q h r =
    let (h', n) = steps_lower r (Reach-Inv q) h in omega (arith, main_most s.main, loop_most s.loop)
  where
    main_most : (p : MainPc) → main_left p ≤ 4
    main_most p = ground arith

    loop_most : (p : LoopPc) → loop_left p ≤ 6
    loop_most p = ground arith
