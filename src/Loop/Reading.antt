-- ===== src/Loop/Reading.antt =====
-- Where a read event of the running server may fail.
use files_event.Prelude.{
  inr, ◌⊎◌, Bool-cases, fault-then, Ensures-returns, refl, ℕ, ◌^◌, ◌%◌, ◌≡◌, ◌≢◌, List, [], ◌++◌,
  Bool, true, false, Option, none, some, ℤ, pos, zero, suc, negsuc, inl, Run, returns, fault, ◌>>=◌,
  pos_part, if◌then◌else◌, Secures, Secures-bind, Secures-ne-fault, fault->>=, Ensures-all,
  fault-deref, fault-if,
}
use files_event.Memory.{Memory}
use files_event.Posix.{Net}
use files_event.SessionTable.{Table, get_and_remove}
use files_event.Session.{
  Session, TaskBase, no_task, receiving, sending, Effect, ev_read, set_reading, destroy,
  delete_task,
}
use files_event.Session.Frame.{Serves, Wakes, is_receiving, read_buffer-Wakes}
use files_event.Session.Requests.{Files, read_buffer}
use files_event.Session.Callbacks.{
  on_read, after_read, hang_up, leave_table, can_delete, is_self, del_events,
}
use files_event.Server.{EventGlobal}
use files_event.Loop.{World, Happening, readable, have_read, step}
use files_event.Loop.Safety.{EndsIn, run-start-Sound, live_of}

abbrev Done : {A : Type 0} → A → Type 0
Done a = Unit

delete_task-Done :
    (task : TaskBase) → is_receiving task ≡ false → Secures (Done {A = Unit {0}}) (delete_task task)
delete_task-Done no_task h = tt
delete_task-Done (receiving t) h = cc
delete_task-Done (sending t) h = tt

destroy-Done : (s : Session) → Serves s → Secures (Done {A = List Effect}) (destroy s)
unfolding destroy
destroy-Done s h =
    Secures-bind (Done {A = Unit {0}}) _ (delete_task s.task) _ (delete_task-Done s.task h)
      (λ _ _. tt)

abbrev Left : Type 0
Left = Option Session × Table × List Effect

Secures-if :
    {A : Type 0} (P : A → Type 0) (b : Bool) (m n : Run A)
    → Secures P m
    → Secures P n
    → Secures P (if b then m else n)
Secures-if P true m n p q = p
Secures-if P false m n p q = q

hang_up-Done :
    (fd : ℕ) (s : Session) (t : Table)
    → Serves s
    → can_delete s ≡ true
    → Secures (Done {A = Left}) (hang_up fd s t)
unfolding hang_up leave_table
hang_up-Done fd s t h fine =
    let (removed, t') = get_and_remove (fd % 2 ^ 16) t in
    Secures-bind (Done {A = Left}) (Done {A = Left}) _ _
      (Secures-if (Done {A = Left}) s.global _ (returns (some s, t, []))
        (rw fine (
          Secures-if (Done {A = Left}) (is_self s removed)
            (destroy s >>= λ effects. returns (none, t', del_events ++ effects))
            (returns (some s, t', del_events))
            (Secures-bind (Done {A = List Effect}) (Done {A = Left}) (destroy s)
              (λ effects. returns (none, t', del_events ++ effects)) (destroy-Done s h) (λ _ _. tt))
            tt))
        tt)
      (λ _ _. tt)

abbrev Read : Type 0
Read = Option Session × Table × Net × List Effect

-- What follows a read fails only in `event_del`, after a read of 0 bytes.
after_read-fault :
    (fd : ℕ) (t : Table) (ret : ℤ) (s : Session) (net : Net) (effects : List Effect)
    → Serves s
    → after_read fd t (ret, s, net, effects) ≡ fault
    → (ret ≡ pos 0) × (can_delete s ≡ false)
unfolding after_read
after_read-fault fd t (pos zero) s net effects h e = elim (Bool-cases (can_delete s)) [
  | inr stray ↦ (refl, stray)
  | inl fine ↦ absurd (
      Secures-ne-fault (Done {A = Read}) _
        (Secures-bind (Done {A = Left}) (Done {A = Read}) (hang_up fd s t) _
          (hang_up-Done fd s t h fine) (λ _ _. tt))
        e)
]
after_read-fault fd t (pos (suc n)) s net effects h e = cc
after_read-fault fd t (negsuc n) s net effects h e = cc

-- How a read event touches foreign memory: in `readBuffer`, or, when that returns 0, in `event_del`.
abbrev pub ReadFails : Run (ℤ × Session × Net × List Effect) → Type 0
ReadFails r =
    (r ≡ fault)
    ⊎ ((done : ℤ × Session × Net × List Effect) × (r ≡ returns done)
        × (done.0 ≡ pos 0)
        × (can_delete done.1 ≡ false))

on_read-fault :
    (files : Files) (junk : Memory) (junk_len fd : ℕ) (s : Session) (t : Table) (net : Net)
    → Serves s
    → on_read files junk junk_len fd ev_read s t net ≡ fault
    → ReadFails (read_buffer files junk junk_len (set_reading false s) net)
unfolding on_read
on_read-fault files junk junk_len fd s t net h e =
    let r = read_buffer files junk junk_len (set_reading false s) net in
    elim (fault-then r (after_read fd t) e) [
      | inl at_once ↦ inl at_once
      | inr (done, k, later) ↦
          let wakes =
            Ensures-returns
              (λ (r : ℤ × Session × Net × List Effect). Wakes (set_reading false s) r.1 r.3) r
              (read_buffer-Wakes files junk junk_len (set_reading false s) net) k in
          let (zero_read, stray) =
            after_read-fault fd t done.0 done.1 done.2 done.3 (wakes.0.4 h) later in
          inr (done, k, zero_read, stray)
    ]

-- Whatever has happened on a server: if a read event touches foreign memory, then it is one of a session that
-- is alive, and either its `readBuffer` does so, or `readBuffer` returns 0 and `event_del` goes through a stray
-- pointer in the session's write or time event, which `malloc` left there.
pub readable-fault :
    (g : EventGlobal) (fds : ℕ → Bool) (hs : List Happening) {w : World}
    → EndsIn g fds hs w
    → (p : ℕ) (files : Files) (junk : Memory) (junk_len : ℕ) (net : Net)
    → step (readable p files junk junk_len net) w ≡ fault
    → (s : Session) × (w.live p ≡ some s)
      × ReadFails (read_buffer files junk junk_len (set_reading false s) net)
unfolding step
readable-fault g fds hs {w} h p files junk junk_len net e =
    let sound = run-start-Sound g fds hs h in
    let (on, called) = fault-if (w.slots p).reads _ w e in
    let (s, here) = live_of w sound p (inl on) in
    let with_table = fault-deref (w.live p) s _ here called in
    let fd = pos_part (w.slots p).read_fd in
    (
      s,
      here,
      on_read-fault files junk junk_len fd s sound.table net (sound.alive p s here).serves (
          fault->>= (on_read files junk junk_len fd ev_read s sound.table net) (have_read p w)
            (Ensures-all (λ r. have_read p w r ≢ fault) _ (λ r z. cc))
            (fault-deref w.global.manager sound.table _ sound.has_table with_table)),
    )
