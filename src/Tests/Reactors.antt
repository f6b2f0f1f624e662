-- ===== src/Tests/Reactors.antt =====
-- Runs of the two threads of ReactorStation.cpp.
use files_event.Prelude.{◌≤◌, ◌≡◌, ◌≢◌, refl, true, false, some, none, ◌⊎◌}
use files_event.Reactor.{
  Station, free, held, main_thread, loop_thread, running, stopping, created, locked, looping,
  handling, crashed, made_global, Steps, here, then_step, Reach, deleted, startup, shutdown,
  shutdown_locks, shutdown_deletes, loop_locks, sets_up, tests, signal,
}
use files_event.Reactor.Safety.{loop_never_crashes, late_loop_crashes, signal_deadlocks}
use files_event.Reactor.Shutdown.{
  count_steps, shutdown-bounded, at_head, Stopped, shutdown_ends_lem,
}

-- The station is started, and the loop's thread has not run yet.
abbrev just_started : Station
just_started = record {
  global = some (made_global 7);
  is_startup = true;
  mutex = free;
  main = running;
  loop = created;
}

just_started-Reach : Reach just_started
just_started-Reach = then_step here (startup 7 refl)

-- `shutdown` begins before the loop's thread has run.
abbrev early_stop : Station
early_stop = record just_started { is_startup = false; main = stopping }

early_stop-Reach : Reach early_stop
early_stop-Reach = then_step just_started-Reach (shutdown refl)

abbrev has_lock : Station
has_lock = record just_started { mutex = held loop_thread; loop = locked }

has_lock-Reach : Reach has_lock
has_lock-Reach = then_step just_started-Reach (loop_locks refl refl)

abbrev at_loop : Station
at_loop = record has_lock { loop = looping }

at_loop-Steps : Steps has_lock at_loop
at_loop-Steps = then_step here (sets_up refl refl)

at_loop-Reach : Reach at_loop
at_loop-Reach = then_step has_lock-Reach (sets_up refl refl)

abbrev stopped_at_loop : Station
stopped_at_loop = record at_loop { is_startup = false; main = stopping }

stopped_at_loop-Reach : Reach stopped_at_loop
stopped_at_loop-Reach = then_step at_loop-Reach (shutdown refl)

abbrev signalled : Station
signalled = record at_loop { is_startup = false; loop = handling }

signalled-Reach : Reach signalled
signalled-Reach = then_step (then_step at_loop-Reach (tests refl refl)) (signal refl refl)

abbrev both_stop : Station
both_stop = record signalled { main = stopping }

both_stop-Steps : Steps signalled both_stop
both_stop-Steps = then_step here (shutdown refl)

loop_never_crashes_example : at_loop.loop ≢ crashed
loop_never_crashes_example = loop_never_crashes has_lock-Reach refl refl at_loop-Steps

late_loop_crashes_example : (t : Station) × Steps early_stop t × (t.loop ≡ crashed)
late_loop_crashes_example = late_loop_crashes early_stop-Reach refl refl

signal_deadlocks_example :
    (both_stop.loop ≡ handling)
    × (both_stop.mutex ≡ held loop_thread)
    × ((both_stop.main ≡ running) ⊎ (both_stop.main ≡ stopping))
signal_deadlocks_example = signal_deadlocks signalled-Reach refl both_stop-Steps

shutdown_ends_lem_example : Stopped stopped_at_loop
shutdown_ends_lem_example = shutdown_ends_lem stopped_at_loop-Reach refl refl at_head

abbrev before_unlock : Station
before_unlock = record early_stop { global = none; mutex = held main_thread; main = deleted }

abbrev two_steps : Steps early_stop before_unlock
two_steps = then_step (then_step here (shutdown_locks refl refl)) (shutdown_deletes refl)

shutdown-bounded_example : count_steps two_steps ≤ 10
shutdown-bounded_example = shutdown-bounded early_stop-Reach tt two_steps
