-- ===== src/Reactor/Invariant.antt =====
-- What holds in every state that the two threads can reach.
use files_event.Prelude.{◌≡◌, ◌≢◌, refl, arith, Bool, true, false, Option, none, some}
use files_event.Server.{EventGlobal}
use files_event.Reactor.{
  Station, Mutex, unmade, free, gone, held, main_thread, loop_thread, MainPc, fresh, running,
  stopping, holding, deleted, released, stopped, LoopPc, absent, created, locked, looping, in_loop,
  handling, leaving, finished, crashed, Step, Steps, here, then_step, Reach, fresh_station, startup,
  startup_alone, shutdown, shutdown_locks, shutdown_deletes, shutdown_unlocks, shutdown_ends,
  shutdown_busy, loop_locks, loop_locks_gone, sets_up, sets_up_null, tests, turns, turns_freed,
  leaves, loop_unlocks, signal, handler_stops,
}

abbrev pub is_some {ℓ} : {A : Type ℓ} → Option A → Bool
is_some none = false
is_some (some a) = true

-- What the place of the loop's thread says of the mutex and of the pointer.
abbrev pub LoopOk : LoopPc → Mutex → Option EventGlobal → Type 0
LoopOk absent m g = m ≢ held loop_thread
LoopOk created m g = m ≢ held loop_thread
LoopOk locked m g = m ≡ held loop_thread
LoopOk looping m g = (m ≡ held loop_thread) × (is_some g ≡ true)
LoopOk in_loop m g = (m ≡ held loop_thread) × (is_some g ≡ true)
LoopOk handling m g = (m ≡ held loop_thread) × (is_some g ≡ true)
LoopOk leaving m g = (m ≡ held loop_thread) × (is_some g ≡ true)
LoopOk finished m g = m ≢ held loop_thread
LoopOk crashed m g = is_some g ≡ false

-- What the place of the other thread says.
abbrev pub MainOk : MainPc → LoopPc → Mutex → Option EventGlobal → Type 0
MainOk fresh l m g = (l ≡ absent) × (m ≡ unmade)
MainOk running l m g = (is_some g ≡ true) × (m ≢ held main_thread) × (m ≢ gone) × (m ≢ unmade)
MainOk stopping l m g = (is_some g ≡ true) × (m ≢ held main_thread) × (m ≢ gone) × (m ≢ unmade)
MainOk holding l m g = (is_some g ≡ true) × (m ≡ held main_thread)
MainOk deleted l m g = (is_some g ≡ false) × (m ≡ held main_thread)
MainOk released l m g = (is_some g ≡ false) × (m ≢ held main_thread)
MainOk stopped l m g = (is_some g ≡ false) × (m ≢ held main_thread)

-- Once `shutdown` has begun, the loop is told to end.
abbrev pub StartOk : MainPc → Bool → Type 0
StartOk stopping b = b ≡ false
StartOk holding b = b ≡ false
StartOk deleted b = b ≡ false
StartOk released b = b ≡ false
StartOk stopped b = b ≡ false
StartOk _ b = Unit {0}

pub record Inv (s : Station) : Type 0 where
  pub loop_ok : LoopOk s.loop s.mutex s.global
  pub main_ok : MainOk s.main s.loop s.mutex s.global
  pub start_ok : StartOk s.main s.is_startup

fresh-Inv : Inv fresh_station
fresh-Inv = ground arith

pub Step-Inv : {s t : Station} → Step s t → Inv s → Inv t
Step-Inv (startup junk a) v = ground arith
Step-Inv (startup_alone junk a) v = ground arith
Step-Inv (shutdown a) v = ground arith
Step-Inv (shutdown_locks a b) v = ground arith
Step-Inv (shutdown_deletes a) v = ground arith
Step-Inv (shutdown_unlocks a) v = ground arith
Step-Inv (shutdown_ends a b) v = ground arith
Step-Inv (shutdown_busy a b) v = ground arith
Step-Inv (loop_locks a b) v = ground arith
Step-Inv (loop_locks_gone a b) v = ground arith
Step-Inv (sets_up a b) v = ground arith
Step-Inv (sets_up_null a b) v = ground arith
Step-Inv (tests a b) v = ground arith
Step-Inv (turns a b) v = ground arith
Step-Inv (turns_freed a b) v = ground arith
Step-Inv (leaves a b) v = ground arith
Step-Inv (loop_unlocks a b) v = ground arith
Step-Inv (signal a b) v = ground arith
Step-Inv (handler_stops a b) v = ground arith

free_mutex :
    (m : Mutex) → m ≢ held main_thread → m ≢ held loop_thread → m ≢ gone → m ≢ unmade → m ≡ free
free_mutex unmade a b c d = absurd (d refl)
free_mutex free a b c d = refl
free_mutex gone a b c d = absurd (c refl)
free_mutex (held main_thread) a b c d = absurd (a refl)
free_mutex (held loop_thread) a b c d = absurd (b refl)

-- While `shutdown` waits, a mutex that the loop's thread does not hold is free.
pub stopping-free :
    {s : Station} → Inv s → s.main ≡ stopping → s.mutex ≢ held loop_thread → s.mutex ≡ free
stopping-free {s} v e n = go s.main v.main_ok e
  where
    go : (p : MainPc) → MainOk p s.loop s.mutex s.global → p ≡ stopping → s.mutex ≡ free
    go stopping (a, b, c, d) e = free_mutex s.mutex b n c d
    go fresh h e = cc
    go running h e = cc
    go holding h e = cc
    go deleted h e = cc
    go released h e = cc
    go stopped h e = cc

pub Steps-Inv : {s t : Station} → Steps s t → Inv s → Inv t
Steps-Inv here v = v
Steps-Inv (then_step r st) v = Step-Inv st (Steps-Inv r v)

pub Reach-Inv : {s : Station} → Reach s → Inv s
Reach-Inv r = Steps-Inv r fresh-Inv
