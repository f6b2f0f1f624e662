-- ===== src/Loop/Tasks.antt =====
-- The tasks of the running server's sessions, where every file that exists can be opened.
use files_event.Prelude.{
  in_bounds, ℕ, ◌%◌, ◌^◌, ◌≡◌, arith, refl, sym, subst, List, [], ◌++◌, ◌==◌, ltb, if◌then◌else◌,
  Bool, true, false, not, ◌&&◌, Option, none, some, ℤ, pos, negsuc, zero, suc, Bool-cases, inl, inr,
  returns, fault, ◌>>=◌, deref, ◌==ℤ◌, Ensures, Ensures->>=, Ensures-bind, Ensures-if,
  Ensures-split, Option-cases, ◌<◌, Secures, Secures-bind, Secures-Ensures, pos_part,
}
use files_event.Memory.{Memory}
use files_event.Posix.{Net}
use files_event.FileSend.{own_sock_exit}
use files_event.SessionTable.{Table, update, get_and_remove}
use files_event.Session.{
  Session, Effect, Events, Callback, call_on_read, call_on_write, ev_read, ev_write, add_event_with,
  set_reading, set_writing, destroy, write_buffer,
}
use files_event.Session.Requests.{Files, read_buffer}
use files_event.Session.Tasks.{Sends, Opens, Result, read_buffer-Sends, write_buffer-Sends}
use files_event.Session.Callbacks.{
  on_read, on_write, after_read, after_write, hang_up, leave_table, can_delete, rearmed, is_self,
  del_events,
}
use files_event.Server.{EventGlobal, on_accept, enter}
use files_event.Server.Accepting.{on_accept_lem}
use files_event.Loop.{
  World, Happening, connection, accept_failed, readable, writable, accepted, have_read,
  have_written, is_free, step,
}
use files_event.Loop.Safety.{allowed}

-- What is left of a session has no task, or one that sends and is within its buffers.
abbrev LeftSends : Option Session → Type 0
LeftSends none = Unit
LeftSends (some s) = Sends s.task

abbrev pub AllSend : World → Type 0
AllSend w = (p : ℕ) (s : Session) → w.live p ≡ some s → Sends s.task

add_event_with-task :
    (events : Events) (fd : ℤ) (callback : Callback) (s : Session)
    → (add_event_with events fd callback s).0.task ≡ s.task
unfolding add_event_with
add_event_with-task events fd callback s = ground arith

abbrev Read : Type 0
Read = Option Session × Table × Net × List Effect

rearmed-Sends :
    (fd : ℕ) (s : Session) (t : Table) (net : Net) (effects : List Effect)
    → Sends s.task
    → Ensures (λ (r : Read). LeftSends r.0) (rearmed fd s t net effects)
rearmed-Sends fd s t net effects v =
    subst Sends (sym (add_event_with-task ev_read (pos fd) call_on_read s)) v

abbrev Left : Type 0
Left = Option Session × Table × List Effect

leave_table-Sends :
    (fd : ℕ) (s : Session) (t : Table)
    → Sends s.task
    → Ensures (λ (r : Left). LeftSends r.0) (leave_table fd s t)
unfolding leave_table
leave_table-Sends fd s t v =
    let (removed, t') = get_and_remove (fd % 2 ^ 16) t in
    Ensures->>= {B = Left} (λ (r : Left). LeftSends r.0) (in_bounds (can_delete s)) _
      (λ _ _.
        Ensures-if {A = Left} (λ (r : Left). LeftSends r.0) (is_self s removed)
          (destroy s >>= λ effects. returns (none, t', del_events ++ effects))
          (returns (some s, t', del_events))
          (Ensures->>= {B = Left} (λ (r : Left). LeftSends r.0) (destroy s)
            (λ effects. returns (none, t', del_events ++ effects)) (λ _ _. tt))
          v)

hang_up-Sends :
    (fd : ℕ) (s : Session) (t : Table)
    → Sends s.task
    → Ensures (λ (r : Left). LeftSends r.0) (hang_up fd s t)
unfolding hang_up
hang_up-Sends fd s t v =
    Ensures-bind (λ (r : Left). LeftSends r.0) _ _ _
      (Ensures-if (λ (r : Left). LeftSends r.0) s.global (leave_table fd s t)
        (returns (some s, t, [])) (leave_table-Sends fd s t v) v)
      (λ r left. left)

after_read-Sends :
    (fd : ℕ) (t : Table) (ret : ℤ) (s : Session) (net : Net) (effects : List Effect)
    → Sends s.task
    → Ensures (λ (r : Read). LeftSends r.0) (after_read fd t (ret, s, net, effects))
unfolding after_read
after_read-Sends fd t (pos zero) s net effects v =
    Ensures-bind (λ (r : Option Session × Table × List Effect). LeftSends r.0) _ (hang_up fd s t) _
      (hang_up-Sends fd s t v) (λ r left. left)
after_read-Sends fd t (pos (suc n)) s net effects v = rearmed-Sends fd s t net effects v
after_read-Sends fd t (negsuc n) s net effects v = rearmed-Sends fd s t net effects v

on_read-Sends :
    (files : Files) (junk : Memory) (junk_len fd : ℕ) (s : Session) (t : Table) (net : Net)
    → Opens files
    → Sends s.task
    → Ensures (λ (r : Read). LeftSends r.0) (on_read files junk junk_len fd ev_read s t net)
unfolding on_read
on_read-Sends files junk junk_len fd s t net opens v =
    Ensures-bind (λ (r : ℤ × Session × Net × List Effect). Sends (r.1).task) _
      (read_buffer files junk junk_len (set_reading false s) net) (after_read fd t)
      (read_buffer-Sends files opens junk junk_len (set_reading false s) net v)
      (λ r kept. after_read-Sends fd t r.0 r.1 r.2 r.3 kept)

after_write-task : (fd : ℕ) (r : Result) → (after_write fd r).0.task ≡ (r.1).task
unfolding after_write
after_write-task fd (ret, s, net) = elim (Bool-cases (ret ==ℤ own_sock_exit)) [
  | inl e ↦ rw e refl
  | inr e ↦ elim (Bool-cases (ret ==ℤ pos 0)) [
    | inl z ↦ rw (e, z) refl
    | inr z ↦ rw (e, z) (add_event_with-task ev_write (pos fd) call_on_write s)
  ]
]

pub on_write-Sends :
    (junk : Memory) (fd : ℕ) (s : Session) (net : Net)
    → Sends s.task
    → Secures
        (λ (r : Session × Net × List Effect). Sends (r.0).task)
        (on_write junk fd ev_write s net)
unfolding on_write
on_write-Sends junk fd s net v =
    Secures-bind (λ (x : Result). Sends (x.1).task) _ (write_buffer junk (set_writing false s) net)
      _ (write_buffer-Sends junk (set_writing false s) net v)
      (λ r kept. subst Sends (sym (after_write-task fd r)) kept)

left_at :
    (live : ℕ → Option Session) (p : ℕ) (left : Option Session)
    → ((q : ℕ) (s : Session) → live q ≡ some s → Sends s.task)
    → LeftSends left
    → (q : ℕ) (s : Session) → update live p left q ≡ some s
    → Sends s.task
left_at live p left all v q s h = pick (q == p) left v h
  where
    pick :
        (b : Bool) (o : Option Session)
        → LeftSends o
        → (if b then o else live q) ≡ some s
        → Sends s.task
    pick true none v e = cc
    pick true (some u) v e = let same : u ≡ s = cc in subst (λ (x : Session). Sends x.task) same v
    pick false o v e = all q s e

deref-eq : (o : Option Session) {s : Session} → deref o ≡ returns s → o ≡ some s
deref-eq none h = cc
deref-eq (some u) h = cc

-- The files that an event meets can all be opened, if they exist.
abbrev pub OpensIn : Happening → Type 0
OpensIn (readable p files junk junk_len net) = Opens files
OpensIn (connection client self junk) = Unit
OpensIn accept_failed = Unit
OpensIn (writable p junk net) = Unit

no_manager :
    (client self : ℕ) (junk : Memory) (g : EventGlobal)
    → g.manager ≡ none
    → on_accept (some client) self junk g ≡ fault
unfolding on_accept enter
no_manager client self junk g m = rw m refl

connected-AllSend :
    (client self : ℕ) (junk : Memory) (w : World)
    → client < 2 ^ 16
    → AllSend w
    → Ensures AllSend (on_accept (some client) self junk w.global >>= accepted client self w)
connected-AllSend client self junk w low all = elim (Option-cases w.global.manager) [
  | inl m ↦
      subst (λ r. Ensures AllSend (r >>= accepted client self w))
        (sym (no_manager client self junk w.global m)) tt
  | inr (t, m) ↦
      let (s, done, _, task, _, _, _, _, _, _) = on_accept_lem client self junk w.global t m low in
      subst (λ r. Ensures AllSend (r >>= accepted client self w)) (sym done)
        (left_at w.live self (some s) all (subst Sends (sym task) tt))
]

pub step-AllSend : (h : Happening) (w : World) → OpensIn h → AllSend w → Ensures AllSend (step h w)
unfolding step on_accept
step-AllSend (connection client self junk) w o all =
    Ensures-split AllSend (not (w.is_open client) && (ltb client (2 ^ 16) && is_free (w.live self)))
      _ _
      (λ on.
        connected-AllSend client self junk w (allowed (w.is_open client) client (w.live self) on).1
          all)
      (λ _. all)
step-AllSend accept_failed w o all = all
step-AllSend (readable p files junk junk_len net) w o all =
    Ensures-if AllSend (w.slots p).reads _ _
      (Ensures->>= AllSend (deref (w.live p)) _ (λ s here.
        Ensures->>= AllSend (deref w.global.manager) _ (λ t _.
          Ensures-bind (λ (r : Read). LeftSends r.0) AllSend
            (on_read files junk junk_len (pos_part (w.slots p).read_fd) ev_read s t net)
            (have_read p w)
            (on_read-Sends files junk junk_len (pos_part (w.slots p).read_fd) s t net o
              (all p s (deref-eq (w.live p) here)))
            (λ r left. left_at w.live p r.0 all left))))
      all
step-AllSend (writable p junk net) w o all =
    Ensures-if AllSend (w.slots p).writes _ _
      (Ensures->>= AllSend (deref (w.live p)) _ (λ s here.
        Ensures-bind (λ (r : Session × Net × List Effect). Sends (r.0).task) AllSend
          (on_write junk (pos_part (w.slots p).write_fd) ev_write s net) (have_written p w)
          (Secures-Ensures (λ (r : Session × Net × List Effect). Sends (r.0).task) _
            (on_write-Sends junk (pos_part (w.slots p).write_fd) s net
              (all p s (deref-eq (w.live p) here))))
          (λ r kept. left_at w.live p (some r.0) all kept)))
      all
