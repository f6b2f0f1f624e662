-- ===== src/Loop/Writing.antt =====
-- The write events of the running server, where every file that exists can be opened.
use files_event.Prelude.{
  ℕ, ◌≢◌, List, [], ◌∷◌, Bool, Bool-cases, inl, inr, fault, Ensures, Ensures-bind, Ensures-returns,
  Secures, Secures-bind, Secures-ne-fault, pos_part,
}
use files_event.Memory.{Memory}
use files_event.Posix.{Net}
use files_event.Session.{Session, Effect, ev_write}
use files_event.Session.Tasks.{Sends}
use files_event.Session.Callbacks.{on_write}
use files_event.Server.{EventGlobal}
use files_event.Loop.{World, Happening, writable, have_written, step, run, start}
use files_event.Loop.Safety.{EndsIn, run-start-Sound, live_of}
use files_event.Loop.Invariant.{Sound}
use files_event.Loop.Tasks.{AllSend, OpensIn, step-AllSend, on_write-Sends}

-- All the events of a list do.
abbrev pub OpensAll : List Happening → Type 0
OpensAll [] = Unit
OpensAll (h ∷ hs) = OpensIn h × OpensAll hs

run-AllSend :
    (hs : List Happening) (w : World) → OpensAll hs → AllSend w → Ensures AllSend (run hs w)
unfolding run
run-AllSend [] w o all = all
run-AllSend (h ∷ hs) w o all =
    Ensures-bind AllSend AllSend (step h w) (run hs) (step-AllSend h w o.0 all)
      (λ w' all'. run-AllSend hs w' o.1 all')

start-AllSend : (g : EventGlobal) (fds : ℕ → Bool) → AllSend (start g fds)
unfolding start
start-AllSend g fds p s h = cc

writable-Secures :
    (w : World) (p : ℕ) (junk : Memory) (net : Net)
    → Sound w
    → AllSend w
    → Secures (λ (w' : World). Unit) (step (writable p junk net) w)
unfolding step
writable-Secures w p junk net sound all = elim (Bool-cases (w.slots p).writes) [
  | inr off ↦ rw off tt
  | inl on ↦
      let (s, here) = live_of w sound p (inr on) in
      rw (on, here)
        (Secures-bind (λ (r : Session × Net × List Effect). Sends (r.0).task) _
          (on_write junk (pos_part (w.slots p).write_fd) ev_write s net) (have_written p w)
          (on_write-Sends junk (pos_part (w.slots p).write_fd) s net (all p s here)) (λ _ _. tt))
]

-- A server on which any events have happened, in any order, with any answers of the kernel and any bytes
-- from its clients, and for which every file that a request names can be opened if it exists: the next
-- write event, of whatever session, touches no foreign memory, and no session that was deleted.
pub writable-ne-fault :
    (g : EventGlobal) (fds : ℕ → Bool) (hs : List Happening) {w : World}
    → EndsIn g fds hs w
    → OpensAll hs
    → (p : ℕ) (junk : Memory) (net : Net) → step (writable p junk net) w ≢ fault
writable-ne-fault g fds hs {w} h o p junk net =
    Secures-ne-fault (λ (w' : World). Unit) (step (writable p junk net) w)
      (writable-Secures w p junk net (run-start-Sound g fds hs h) (
        Ensures-returns AllSend (run hs (start g fds))
          (run-AllSend hs (start g fds) o (start-AllSend g fds)) h))
