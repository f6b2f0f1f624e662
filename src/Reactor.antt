-- ===== src/Reactor.antt =====
-- ReactorStation.cpp and ReactorStation.h: the thread that runs the event loop, and the one that starts and
-- stops it. Each step is one access to what they share: the pointer `mEveGlobal`, `mIsStartup`, and the
-- mutex `mExitMutex`. The station is started and stopped once.
pub mod Invariant
pub mod Safety
pub mod Shutdown
use files_event.Prelude.{ℕ, ◌≡◌, Bool, true, false, Option, none, some}
use files_event.Server.{EventGlobal, new_global, create, set_timeout}

pub data Thread : Type 0 where
  main_thread loop_thread : Thread

-- `unmade` before `pthread_mutex_init`, `gone` after `pthread_mutex_destroy`.
pub data Mutex : Type 0 where
  unmade free gone : Mutex
  held : Thread → Mutex

-- Where the thread stands that calls `startup` and `shutdown`: before the one, between the two,
-- before the lock in `shutdown`, behind it, behind `delete`, behind the unlock, and at the end.
pub data MainPc : Type 0 where
  fresh running stopping holding deleted released stopped : MainPc

-- Where the thread of `eventLoop` stands: not created, before its lock, behind it, at the head of the loop
-- of `startThread`, in `event_base_loop`, in `sigHandler` before the lock of `shutdown`, behind the
-- loop, and at the end. `crashed` is behind a null pointer or a mutex that is gone.
pub data LoopPc : Type 0 where
  absent created locked looping in_loop handling leaving finished crashed : LoopPc

pub record Station : Type 0 where
  pub global : Option EventGlobal
  pub is_startup : Bool
  pub mutex : Mutex
  pub main : MainPc
  pub loop : LoopPc

-- The constructor.
abbrev pub fresh_station : Station
fresh_station = record {
  global = none;
  is_startup = false;
  mutex = unmade;
  main = fresh;
  loop = absent;
}

-- EVENT_TIMEOUT.
abbrev pub event_timeout : ℕ
event_timeout = 1000

-- `new EventGlobal`, `Create` and `setTimeout`, on a heap that holds `junk`.
unfoldable pub made_global : ℕ → EventGlobal
made_global junk = set_timeout event_timeout (create (new_global junk))

pub data Step (s : Station) : Station → Type 0 where
  -- `startup`, where `pthread_create` succeeds, or fails
  startup :
      (junk : ℕ)
      → s.main ≡ fresh
      → Step s (record {
        global = some (made_global junk);
        is_startup = true;
        mutex = free;
        main = running;
        loop = created;
      })
  startup_alone :
      (junk : ℕ)
      → s.main ≡ fresh
      → Step s (record {
        global = some (made_global junk);
        is_startup = true;
        mutex = free;
        main = running;
        loop = absent;
      })
  -- `shutdown`
  shutdown : s.main ≡ running → Step s (record s { is_startup = false; main = stopping })
  shutdown_locks :
      s.main ≡ stopping
      → s.mutex ≡ free
      → Step s (record s { mutex = held main_thread; main = holding })
  shutdown_deletes : s.main ≡ holding → Step s (record s { global = none; main = deleted })
  shutdown_unlocks : s.main ≡ deleted → Step s (record s { mutex = free; main = released })
  shutdown_ends :
      s.main ≡ released → s.mutex ≡ free → Step s (record s { mutex = gone; main = stopped })
  -- a mutex that is held is not destroyed
  shutdown_busy :
      s.main ≡ released → s.mutex ≡ held loop_thread → Step s (record s { main = stopped })
  -- `eventLoop` and `startThread`
  loop_locks :
      s.loop ≡ created
      → s.mutex ≡ free
      → Step s (record s { mutex = held loop_thread; loop = locked })
  loop_locks_gone : s.loop ≡ created → s.mutex ≡ gone → Step s (record s { loop = crashed })
  sets_up :
      {g : EventGlobal} → s.loop ≡ locked → s.global ≡ some g → Step s (record s { loop = looping })
  sets_up_null : s.loop ≡ locked → s.global ≡ none → Step s (record s { loop = crashed })
  tests : s.loop ≡ looping → s.is_startup ≡ true → Step s (record s { loop = in_loop })
  turns :
      {g : EventGlobal}
      → s.loop ≡ in_loop
      → s.global ≡ some g
      → Step s (record s { loop = looping })
  turns_freed : s.loop ≡ in_loop → s.global ≡ none → Step s (record s { loop = crashed })
  leaves : s.loop ≡ looping → s.is_startup ≡ false → Step s (record s { loop = leaving })
  loop_unlocks :
      s.loop ≡ leaving
      → s.mutex ≡ held loop_thread
      → Step s (record s { mutex = free; loop = finished })
  -- `sigHandler` within the loop, and `shutdown` called from it
  signal :
      {g : EventGlobal}
      → s.loop ≡ in_loop
      → s.global ≡ some g
      → Step s (record s { is_startup = false; loop = handling })
  handler_stops :
      s.loop ≡ handling
      → s.mutex ≡ free
      → Step s (record s { global = none; mutex = gone; loop = in_loop })

-- The states that can be reached from a given one.
pub data Steps (s : Station) : Station → Type 0 where
  here : Steps s s
  then_step : {t u : Station} → Steps s t → Step t u → Steps s u

abbrev pub Reach : Station → Type 0
Reach = Steps fresh_station
