-- ===== src/Loop/Safety.antt =====
-- The running server never uses a session that was deleted, and forgets none.
use files_event.Prelude.{
  ℕ, ◌^◌, ◌<◌, ◌≡◌, ◌≢◌, arith, refl, ap, sym, subst, ◌∙◌, List, [], ◌∷◌, ltb, Bool, true, false,
  not, ◌&&◌, Option, none, some, pos, ◌⊎◌, inl, inr, Bool-cases, Option-cases, returns, ◌>>=◌,
  Ensures, Ensures-bind, Ensures-when, Ensures-deref, Ensures-returns, pos_part,
}
use files_event.Memory.{Memory}
use files_event.Posix.{Net}
use files_event.SessionTable.{Table, empty, get}
use files_event.Session.{Session, Effect, ev_read, ev_write}
use files_event.Session.Frame.{is_receiving}
use files_event.Session.Requests.{Files}
use files_event.Session.Callbacks.{on_read, on_write}
use files_event.Server.{EventGlobal, on_accept}
use files_event.Server.Accepting.{on_accept_lem}
use files_event.Loop.{
  World, Happening, connection, accept_failed, readable, writable, accepted, have_read,
  have_written, is_free, step, run, start,
}
use files_event.Loop.Events.{Outcome, goes_on, ends}
use files_event.Loop.Events.Whole.{Written, written, on_read-Outcome, on_write-Written}
use files_event.Loop.Invariant.{Sound}
use files_event.Loop.Steps.{going, leaving, coming}

start-Sound : (g : EventGlobal) (fds : ℕ → Bool) → Sound (start g fds)
unfolding start empty get
start-Sound g fds = record {
  table = empty;
  has_table = refl;
  alive = λ p s h. cc;
  dead = λ p h. (refl, refl);
  held = λ sid p low h. cc;
}

have_read-Sound :
    (w : World) (sound : Sound w) (p : ℕ) (s : Session)
    (r : Option Session × Table × Net × List Effect)
    → w.live p ≡ some s
    → Outcome (record (w.slots p) { reads = false }) s sound.table r
    → Ensures Sound (have_read p w r)
have_read-Sound w sound p s r here (goes_on s' net effects stays waits quiet) =
    going w sound p s s' _ _ _ here refl (quiet w.is_open) stays waits
have_read-Sound w sound p s r here (ends net effects reads writes closes) =
    leaving w sound p s _ _ _ here refl (closes w.is_open) (reads, writes)

have_written-Sound :
    (w : World) (sound : Sound w) (p : ℕ) (s : Session) (r : Session × Net × List Effect)
    → w.live p ≡ some s
    → Written (record (w.slots p) { writes = false }) s r
    → Ensures Sound (have_written p w r)
have_written-Sound w sound p s r here (written s' net effects stays waits quiet) =
    going w sound p s s' _ _ _ here sound.has_table (quiet w.is_open) stays waits

not_dead :
    (w : World) (sound : Sound w) (p : ℕ)
    → ((w.slots p).reads ≡ true) ⊎ ((w.slots p).writes ≡ true)
    → w.live p ≢ none
not_dead w sound p (inl on) gone = let (off, _) = sound.dead p gone in cc
not_dead w sound p (inr on) gone = let (_, off) = sound.dead p gone in cc

-- An event that is in the loop is one of a session that is alive.
pub live_of :
    (w : World) (sound : Sound w) (p : ℕ)
    → ((w.slots p).reads ≡ true) ⊎ ((w.slots p).writes ≡ true)
    → (s : Session) × (w.live p ≡ some s)
live_of w sound p on = elim (Option-cases (w.live p)) [
  | inl gone ↦ absurd (not_dead w sound p on gone)
  | inr h ↦ h
]

readable-Sound :
    (w : World) (p : ℕ) (files : Files) (junk : Memory) (junk_len : ℕ) (net : Net)
    → Sound w
    → Ensures Sound (step (readable p files junk junk_len net) w)
unfolding step
readable-Sound w p files junk junk_len net sound = elim (Bool-cases (w.slots p).reads) [
  | inr off ↦ rw off sound
  | inl on ↦
      let (s, here) = live_of w sound p (inl on) in
      let known = sound.alive p s here in
      Ensures-when Sound (w.slots p).reads _ _ on (
        Ensures-deref Sound (w.live p) s _ here (
          Ensures-deref Sound w.global.manager sound.table _ sound.has_table (
            Ensures-bind (Outcome (record (w.slots p) { reads = false }) s sound.table) Sound
              (on_read files junk junk_len (pos_part (w.slots p).read_fd) ev_read s sound.table net)
              (have_read p w)
              (subst
                (λ n.
                  Ensures (Outcome (record (w.slots p) { reads = false }) s sound.table)
                    (on_read files junk junk_len (pos_part n) ev_read s sound.table net))
                (sym known.waits.read_here)
                (on_read-Outcome files junk junk_len (w.slots p) s sound.table net known.low
                  known.has_global (known.in_table ∙ ap some (sym known.own_pointer)) known.waits))
              (λ r. have_read-Sound w sound p s r here))))
]

writable-Sound :
    (w : World) (p : ℕ) (junk : Memory) (net : Net)
    → Sound w
    → Ensures Sound (step (writable p junk net) w)
unfolding step
writable-Sound w p junk net sound = elim (Bool-cases (w.slots p).writes) [
  | inr off ↦ rw off sound
  | inl on ↦
      let (s, here) = live_of w sound p (inr on) in
      let known = sound.alive p s here in
      Ensures-when Sound (w.slots p).writes _ _ on (
        Ensures-deref Sound (w.live p) s _ here (
          Ensures-bind (Written (record (w.slots p) { writes = false }) s) Sound
            (on_write junk (pos_part (w.slots p).write_fd) ev_write s net) (have_written p w)
            (subst
              (λ n.
                Ensures (Written (record (w.slots p) { writes = false }) s)
                  (on_write junk (pos_part n) ev_write s net))
              (sym known.waits.write_here) (on_write-Written junk (w.slots p) s net known.waits))
            (λ r. have_written-Sound w sound p s r here)))
]

pub allowed :
    (opened : Bool) (client : ℕ) (o : Option Session)
    → (not opened && (ltb client (2 ^ 16) && is_free o)) ≡ true
    → (opened ≡ false) × (client < 2 ^ 16) × (o ≡ none)
allowed true client o h = cc
allowed false client (some s) h = ground arith
allowed false client none h = (refl, ground arith, refl)

connection-Sound :
    (w : World) (client self : ℕ) (junk : Memory)
    → Sound w
    → Ensures Sound (step (connection client self junk) w)
unfolding step
connection-Sound w client self junk sound =
    elim (Bool-cases (not (w.is_open client) && (ltb client (2 ^ 16) && is_free (w.live self)))) [
      | inr off ↦ rw off sound
      | inl on ↦
          let (closed, low, free) = allowed (w.is_open client) client (w.live self) on in
          let (s, done, pointer, task, _, _, number, has, reads, writes) =
            on_accept_lem client self junk w.global sound.table sound.has_table low in
          Ensures-when Sound _ _ _ on (
            subst (λ r. Ensures Sound (r >>= accepted client self w)) (sym done)
              (coming w sound self client s _ _ free closed low refl pointer number has
                (ap is_receiving task)
                (record {
                  read_here = ap pos (sym number);
                  reads_so = sym reads;
                  write_here = ap pos (sym number);
                  writes_so = sym writes;
                })))
    ]

-- Whatever happens next keeps what holds.
pub step-Sound : (h : Happening) (w : World) → Sound w → Ensures Sound (step h w)
unfolding step on_accept
step-Sound (connection client self junk) w sound = connection-Sound w client self junk sound
step-Sound accept_failed w sound = sound
step-Sound (readable p files junk junk_len net) w sound =
    readable-Sound w p files junk junk_len net sound
step-Sound (writable p junk net) w sound = writable-Sound w p junk net sound

run-Sound : (hs : List Happening) (w : World) → Sound w → Ensures Sound (run hs w)
unfolding run
run-Sound [] w sound = sound
run-Sound (h ∷ hs) w sound =
    Ensures-bind Sound Sound (step h w) (run hs) (step-Sound h w sound) (run-Sound hs)

-- What a run from the start of the server ends in.
abbrev pub EndsIn : EventGlobal → (ℕ → Bool) → List Happening → World → Type 0
EndsIn g fds hs w = run hs (start g fds) ≡ returns w

pub run-start-Sound :
    (g : EventGlobal) (fds : ℕ → Bool) (hs : List Happening) {w : World}
    → EndsIn g fds hs w
    → Sound w
run-start-Sound g fds hs h =
    Ensures-returns Sound (run hs (start g fds)) (run-Sound hs (start g fds) (start-Sound g fds)) h
