-- ===== src/Loop/Events.antt =====
-- What one callback of Session.cpp leaves of a session, its events and its descriptor: what is asked of the
-- loop, and a session that hangs up. The callbacks as a whole are in Whole.
pub mod Whole
use files_event.Prelude.{
  in_bounds, ℕ, ◌+◌, ◌%◌, ◌^◌, ◌<◌, ◌≡◌, arith, refl, ap, sym, subst, ◌∙◌, List, [], ◌∷◌, ◌++◌,
  ◌==◌, ltb, if◌then◌else◌, Bool, true, false, Option, none, some, ℤ, pos, zero, suc, negsuc,
  Bool-cases, inl, inr, returns, ◌>>=◌, ◌==ℤ◌, Ensures, Ensures->>=, Ensures-bind, Ensures-when,
}
use files_event.Memory.{Memory}
use files_event.Posix.{Net}
use files_event.FileSend.{own_sock_exit}
use files_event.SessionTable.{Table, get, get_and_remove, update}
use files_event.SessionTable.Lookup.{get_and_remove_lem}
use files_event.Session.{
  loop_base, destroyed, Session, Effect, set_reading, set_writing, destroy, ev_read, ev_write,
  add_event_with, call_on_read, call_on_write, set_event, add_event, read_event, write_event,
  write_buffer, delete_task, del_event, close_fd, delete_session,
}
use files_event.Session.Frame.{Serves, Calm, Wakes, read_buffer-Wakes, write_buffer-Calm}
use files_event.Session.Requests.{Files, read_buffer}
use files_event.Session.Closing.{closing}
use files_event.Session.Callbacks.{
  hang_up, leave_table, can_delete, after_read, rearmed, on_read, after_write, on_write, del_events,
}
use files_event.Loop.{Slots, slots_after, fds_after}

-- The events of a session are set for its descriptor, and are in the loop when its flags say so.
pub record Waits (k : Slots) (s : Session) : Type 0 where
  pub read_here : k.read_fd ≡ pos s.sid
  pub reads_so : k.reads ≡ s.reading
  pub write_here : k.write_fd ≡ pos s.sid
  pub writes_so : k.writes ≡ s.writing

-- The session goes on: it is the same object under the same number.
abbrev pub Stays : Session → Session → Type 0
Stays s s' = (s'.self ≡ s.self) × (s'.sid ≡ s.sid) × (s'.global ≡ s.global) × (Serves s → Serves s')

pub slots_after-append :
    (a b : List Effect) (k : Slots) → slots_after (a ++ b) k ≡ slots_after b (slots_after a k)
slots_after-append [] b k = refl
slots_after-append (e ∷ a) b k = slots_after-append a b _

pub fds_after-append :
    (a b : List Effect) (fds : ℕ → Bool) → fds_after (a ++ b) fds ≡ fds_after b (fds_after a fds)
fds_after-append [] b fds = refl
fds_after-append (e ∷ a) b fds = fds_after-append a b _

-- What is asked of the loop when an event is added again.
abbrev pub reading_on : ℕ → List Effect
reading_on fd = set_event read_event (pos fd) ev_read call_on_read ∷ add_event read_event ∷ []

abbrev pub writing_on : ℕ → List Effect
writing_on fd = set_event write_event (pos fd) ev_write call_on_write ∷ add_event write_event ∷ []

pub add_event_with-read :
    (fd : ℕ) (s : Session)
    → s.reading ≡ false
    → add_event_with ev_read (pos fd) call_on_read s ≡ (record s { reading = true }, reading_on fd)
unfolding add_event_with
add_event_with-read fd s off =
    let there : ltb (fd + 0) 0 ≡ false = ground arith in simp off (rw there refl)

pub add_event_with-write :
    (fd : ℕ) (s : Session)
    → s.writing ≡ false
    → add_event_with ev_write (pos fd) call_on_write s
      ≡ (record s { writing = true; write_fd = pos fd; write_base = loop_base }, writing_on fd)
unfolding add_event_with
add_event_with-write fd s off =
    let there : ltb (fd + 0) 0 ≡ false = ground arith in simp off (rw there refl)

-- After a read the session goes on, or it is deleted and taken out of the table, and its descriptor is
-- closed.
pub data Outcome (k : Slots) (s : Session) (t : Table)
    : Option Session × Table × Net × List Effect → Type 0 where
  goes_on :
      (s' : Session) (net : Net) (effects : List Effect)
      → Stays s s'
      → Waits (slots_after effects k) s'
      → ((fds : ℕ → Bool) → fds_after effects fds ≡ fds)
      → Outcome k s t (some s', t, net, effects)
  ends :
      (net : Net) (effects : List Effect)
      → (slots_after effects k).reads ≡ false
      → (slots_after effects k).writes ≡ false
      → ((fds : ℕ → Bool) (fd : ℕ)
          → fds_after effects fds fd ≡ (if fd == s.sid then false else fds fd))
      → Outcome k s t (none, (get_and_remove s.sid t).1, net, effects)

-- What `readBuffer` asks of the loop keeps the flags right.
pub waking-Waits :
    (k : Slots) (s s' : Session) (effects : List Effect)
    → Waits k s
    → Wakes s s' effects
    → Waits (slots_after effects k) s' × ((fds : ℕ → Bool) → fds_after effects fds ≡ fds)
waking-Waits k s s' effects w (same, inl (none_asked, kept)) =
    rw none_asked
      (record { read_here = cc; reads_so = cc; write_here = cc; writes_so = cc }, λ fds. refl)
waking-Waits k s s' effects w (same, inr (asked, off, on)) =
    rw asked
      (record { read_here = cc; reads_so = cc; write_here = cc; writes_so = cc }, λ fds. refl)

-- The event is added again behind what was asked before.
pub reading_on-Waits :
    (k : Slots) (s : Session)
    → Waits k s
    → Waits (slots_after (reading_on s.sid) k) (record s { reading = true })
reading_on-Waits k s w = record {
  read_here = refl;
  reads_so = refl;
  write_here = w.write_here;
  writes_so = w.writes_so;
}

pub writing_on-Waits :
    (k : Slots) (s : Session)
    → Waits k s
    → Waits
        (slots_after (writing_on s.sid) k)
        (record s { writing = true; write_fd = pos s.sid; write_base = loop_base })
writing_on-Waits k s w = record {
  read_here = w.read_here;
  reads_so = w.reads_so;
  write_here = refl;
  writes_so = refl;
}

-- What a session that hangs up asks for takes both events out of the loop and closes its descriptor.
pub closing-slots :
    (s : Session) (k : Slots)
    → ((slots_after (closing s) k).reads ≡ false) × ((slots_after (closing s) k).writes ≡ false)
closing-slots s k = elim (Bool-cases s.writing) [
  | inl on ↦ elim (Bool-cases (ltb 0 s.sid)) [
    | inl p ↦ simp (on, p) (refl, refl)
    | inr p ↦ simp (on, p) (refl, refl)
  ]
  | inr off ↦ elim (Bool-cases (ltb 0 s.sid)) [
    | inl p ↦ simp (off, p) (refl, refl)
    | inr p ↦ simp (off, p) (refl, refl)
  ]
]

closed_twice :
    (fds : ℕ → Bool) (sid fd : ℕ)
    → update (update fds sid false) sid false fd ≡ (if fd == sid then false else fds fd)
closed_twice fds sid fd = elim (Bool-cases (fd == sid)) [ inl e ↦ rw e refl | inr e ↦ rw e refl ]

pub closing-fds :
    (s : Session) (fds : ℕ → Bool) (fd : ℕ)
    → fds_after (closing s) fds fd ≡ (if fd == s.sid then false else fds fd)
closing-fds s fds fd = elim (Bool-cases s.writing) [
  | inl on ↦ elim (Bool-cases (ltb 0 s.sid)) [
    | inl p ↦ simp (on, p) (closed_twice fds s.sid fd)
    | inr p ↦ simp (on, p)
  ]
  | inr off ↦ elim (Bool-cases (ltb 0 s.sid)) [
    | inl p ↦ simp (off, p) (closed_twice fds s.sid fd)
    | inr p ↦ simp (off, p)
  ]
]

destroy-Ensures :
    (s : Session) → Ensures (λ (effects : List Effect). effects ≡ destroyed s) (destroy s)
unfolding destroy
destroy-Ensures s = Ensures->>= _ (delete_task s.task) _ (λ _ _. refl)

abbrev pub Gone : Session → Table → List Effect → Option Session × Table × List Effect → Type 0
Gone s t effects r = r ≡ (none, (get_and_remove s.sid t).1, effects)

leave_table-Gone :
    (s : Session) (t : Table)
    → s.sid < 2 ^ 16
    → (get s.sid t).0 ≡ some s.self
    → Ensures (Gone s t (del_events ++ destroyed s)) (leave_table s.sid s t)
unfolding leave_table
leave_table-Gone s t low found =
    let number : s.sid % 2 ^ 16 ≡ s.sid = omega arith in
    let same : (s.self == s.self) ≡ true = ground arith in
    let out : (get_and_remove s.sid t).0 ≡ some s.self =
      (get_and_remove_lem s.sid s.sid t).0 ∙ found in
    rw (number, out, same)
      (Ensures->>= _ (in_bounds (can_delete s)) _ (λ _ _.
        Ensures-bind (λ (e : List Effect). e ≡ destroyed s) (Gone s t (del_events ++ destroyed s))
          (destroy s) _ (destroy-Ensures s) (λ e asked. rw asked refl)))

pub hang_up-Gone :
    (s : Session) (t : Table)
    → s.global ≡ true
    → s.sid < 2 ^ 16
    → (get s.sid t).0 ≡ some s.self
    → Ensures (Gone s t (closing s)) (hang_up s.sid s t)
unfolding hang_up
hang_up-Gone s t g low found =
    Ensures-bind (Gone s t (del_events ++ destroyed s)) _ _ _
      (Ensures-when _ s.global (leave_table s.sid s t) _ g (leave_table-Gone s t low found))
      (λ r gone. rw gone refl)
