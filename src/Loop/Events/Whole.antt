-- ===== src/Loop/Events/Whole.antt =====
-- `onRead` and `onWrite` of Session.cpp, for a session of the running server.
use files_event.Prelude.{
  ℕ, ◌^◌, ◌<◌, ◌≡◌, refl, ap, sym, subst, ◌∙◌, List, [], ◌++◌, ◌==◌, if◌then◌else◌, Bool, true,
  false, Option, none, some, ℤ, pos, zero, suc, negsuc, returns, ◌>>=◌, ◌==ℤ◌, Ensures,
  Ensures-bind,
}
use files_event.Memory.{Memory}
use files_event.Posix.{Net}
use files_event.FileSend.{own_sock_exit}
use files_event.SessionTable.{Table, get, get_and_remove}
use files_event.Session.{
  loop_base, Session, Effect, set_reading, set_writing, ev_read, ev_write, add_event_with,
  call_on_write, write_buffer,
}
use files_event.Session.Frame.{Calm, Wakes, read_buffer-Wakes, write_buffer-Calm}
use files_event.Session.Requests.{Files, read_buffer}
use files_event.Session.Closing.{closing}
use files_event.Session.Callbacks.{hang_up, after_read, rearmed, on_read, after_write, on_write}
use files_event.Loop.{Slots, slots_after, fds_after}
use files_event.Loop.Events.{
  Waits, Stays, Outcome, goes_on, ends, slots_after-append, fds_after-append, reading_on,
  writing_on, add_event_with-read, add_event_with-write, waking-Waits, reading_on-Waits,
  writing_on-Waits, closing-slots, closing-fds, Gone, hang_up-Gone,
}

-- What follows a read, for a session that the table holds under its number.
module _ (k : Slots) (s s' : Session) (t : Table) (net : Net) (effects : List Effect)
    (low : s.sid < 2 ^ 16) (held : s.global ≡ true) (found : (get s.sid t).0 ≡ some s.self)
    (stays : Stays s s') (idle : s'.reading ≡ false) (waits : Waits (slots_after effects k) s')
    (quiet : (fds : ℕ → Bool) → fds_after effects fds ≡ fds) where
  closed_fds :
      (fds : ℕ → Bool) (fd : ℕ)
      → fds_after (effects ++ closing s') fds fd ≡ (if fd == s.sid then false else fds fd)
  closed_fds fds fd =
      ap (λ (f : ℕ → Bool). f fd) (fds_after-append effects (closing s') fds)
      ∙ ap (λ (f : ℕ → Bool). fds_after (closing s') f fd) (quiet fds)
      ∙ closing-fds s' fds fd
      ∙ ap (λ n. if fd == n then false else fds fd) stays.1

  after_closed :
      Ensures (Outcome k s t) (hang_up s'.sid s' t >>= λ r. returns (r.0, r.1, net, effects ++ r.2))
  after_closed =
      Ensures-bind (Gone s' t (closing s')) _ (hang_up s'.sid s' t) _
        (hang_up-Gone s' t (stays.2 ∙ held) (rw stays.1 low) (rw (stays.1, stays.0) found))
        (λ r gone.
          subst
            (λ (r : Option Session × Table × List Effect).
              Outcome k s t (r.0, r.1, net, effects ++ r.2))
            (sym gone)
            (subst (λ n. Outcome k s t (none, (get_and_remove n t).1, net, effects ++ closing s'))
              (sym stays.1)
              (ends net (effects ++ closing s')
                (ap (λ (l : Slots). l.reads) (slots_after-append effects (closing s') k)
                  ∙ (closing-slots s' (slots_after effects k)).0)
                (ap (λ (l : Slots). l.writes) (slots_after-append effects (closing s') k)
                  ∙ (closing-slots s' (slots_after effects k)).1)
                closed_fds)))

  again_Waits : Waits (slots_after (effects ++ reading_on s.sid) k) (record s' { reading = true })
  again_Waits =
      subst (λ l. Waits l (record s' { reading = true }))
        (sym (slots_after-append effects (reading_on s.sid) k))
        (subst
          (λ n.
            Waits (slots_after (reading_on n) (slots_after effects k))
              (record s' { reading = true }))
          stays.1 (reading_on-Waits (slots_after effects k) s' waits))

  after_more : Ensures (Outcome k s t) (rearmed s.sid s' t net effects)
  after_more =
      subst (λ (r : Session × List Effect). Outcome k s t (some r.0, t, net, effects ++ r.1))
        (sym (add_event_with-read s.sid s' idle))
        (goes_on (record s' { reading = true }) net (effects ++ reading_on s.sid) stays again_Waits
          (λ fds. fds_after-append effects (reading_on s.sid) fds ∙ quiet fds))

  after_read-Outcome :
      (ret : ℤ) → Ensures (Outcome k s t) (after_read s.sid t (ret, s', net, effects))
  unfolding after_read
  after_read-Outcome (pos zero) =
      subst
        (λ n.
          Ensures (Outcome k s t) (hang_up n s' t >>= λ r. returns (r.0, r.1, net, effects ++ r.2)))
        stays.1 after_closed
  after_read-Outcome (pos (suc n)) = after_more
  after_read-Outcome (negsuc n) = after_more

-- A read event of a session that the table holds under its number.
pub on_read-Outcome :
    (files : Files) (junk : Memory) (junk_len : ℕ) (k : Slots) (s : Session) (t : Table) (net : Net)
    → s.sid < 2 ^ 16
    → s.global ≡ true
    → (get s.sid t).0 ≡ some s.self
    → Waits k s
    → Ensures
        (Outcome (record k { reads = false }) s t)
        (on_read files junk junk_len s.sid ev_read s t net)
unfolding on_read
on_read-Outcome files junk junk_len k s t net low held found w =
    Ensures-bind (λ (r : ℤ × Session × Net × List Effect). Wakes (set_reading false s) r.1 r.3) _
      (read_buffer files junk junk_len (set_reading false s) net) (after_read s.sid t)
      (read_buffer-Wakes files junk junk_len (set_reading false s) net)
      (λ r wakes.
        let (waits, quiet) =
          waking-Waits (record k { reads = false }) (set_reading false s) r.1 r.3
            (record {
              read_here = w.read_here;
              reads_so = refl;
              write_here = w.write_here;
              writes_so = w.writes_so;
            })
            wakes in
        let same = wakes.0 in
        after_read-Outcome (record k { reads = false }) s r.1 t r.2 r.3 low held found
          (same.0, same.1, same.2, same.4) same.3 waits quiet r.0)

-- A write event: the session goes on, and its write event is in the loop again or not.
pub data Written (k : Slots) (s : Session) : Session × Net × List Effect → Type 0 where
  written :
      (s' : Session) (net : Net) (effects : List Effect)
      → Stays s s'
      → Waits (slots_after effects k) s'
      → ((fds : ℕ → Bool) → fds_after effects fds ≡ fds)
      → Written k s (s', net, effects)

after_write-Written :
    (k : Slots) (s s' : Session) (net : Net) (ret : ℤ)
    → Stays s s'
    → s'.writing ≡ false
    → Waits k s'
    → Written k s (after_write s.sid (ret, s', net))
unfolding after_write
after_write-Written k s s' net ret stays off w = pick (ret ==ℤ own_sock_exit) (ret ==ℤ pos 0)
  where
    rest : Written k s (s', net, [])
    rest = written s' net [] stays w (λ fds. refl)

    again :
        let r = add_event_with ev_write (pos s.sid) call_on_write s' in Written k s (r.0, net, r.1)
    again =
        subst (λ (r : Session × List Effect). Written k s (r.0, net, r.1))
          (sym (add_event_with-write s.sid s' off))
          (written (record s' { writing = true; write_fd = pos s.sid; write_base = loop_base }) net
            (writing_on s.sid) stays
            (subst
              (λ n.
                Waits (slots_after (writing_on n) k)
                  (record s' { writing = true; write_fd = pos n; write_base = loop_base }))
              stays.1 (writing_on-Waits k s' w))
            (λ fds. refl))

    pick :
        (a b : Bool)
        → Written k s (
            if a
            then (s', net, [])
            else if b
            then (s', net, [])
            else (let (s'', effects) = add_event_with ev_write (pos s.sid) call_on_write s' in
                (s'', net, effects)))
    pick true b = rest
    pick false true = rest
    pick false false = again

pub on_write-Written :
    (junk : Memory) (k : Slots) (s : Session) (net : Net)
    → Waits k s
    → Ensures (Written (record k { writes = false }) s) (on_write junk s.sid ev_write s net)
unfolding on_write
on_write-Written junk k s net w =
    Ensures-bind (λ (r : ℤ × Session × Net). Calm (set_writing false s) r.1) _
      (write_buffer junk (set_writing false s) net) _
      (write_buffer-Calm junk (set_writing false s) net)
      (λ r calm.
        after_write-Written (record k { writes = false }) s r.1 r.2 r.0
          (calm.0.0, calm.0.1, calm.0.2, calm.0.4) calm.1
          (record { read_here = cc; reads_so = cc; write_here = cc; writes_so = cc }))
