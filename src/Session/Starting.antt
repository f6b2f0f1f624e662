-- ===== src/Session/Starting.antt =====
-- A session that sends a file, and the client's command to start: its read events put the write event into the
-- loop (Session.cpp, TaskFileSend.cpp).
use files_event.Prelude.{
  ℕ, zero, suc, ◌≤◌, ◌≡◌, refl, ap, sym, subst, ◌∙◌, arith, List, [], length, if◌then◌else◌, true,
  false, pos, Run, returns, ◌>>=◌, inl, inr,
}
use files_event.Memory.{Memory}
use files_event.Posix.{Net, Segment, pending}
use files_event.Buffers.{reset_cmd}
use files_event.FileSend
use files_event.FileSend.Reading
use files_event.FileSend.Starting.Arrival.{
  start_packet, Waits, Turn, read_buffer-Turn, Waits-some_left, fresh-Waits,
}
use files_event.Session.{loop_base, Session, sending, Effect}
use files_event.Session.Frame.{waking, add_write_event-off}
use files_event.Session.Requests.{Files, read_buffer, read_task}

-- At most `n` read events, until the write event is in the loop.
unfoldable pub start_events :
    Files → Memory → ℕ → ℕ → Session → Net → Run (Session × Net × List Effect)
start_events files junk junk_len zero s net = returns (s, net, [])
start_events files junk junk_len (suc n) s net = do
  (ret, s', net', effects) ← read_buffer files junk junk_len s net
  let more = start_events files junk junk_len n s' net'
  if s'.writing then returns (s', net', effects) else more

module _ (files : Files) (junk : Memory) (junk_len total : ℕ) where
  -- The write event is in the loop, the command was read, and the task sends what it did before.
  abbrev pub Started : Session → FileSend.Task → Net → Run (Session × Net × List Effect) → Type 0
  Started s t net r =
      (ss : List Segment) × (r
        ≡ returns (
          record s {
            task = sending (record t { recv = reset_cmd });
            writing = true;
            write_fd = pos s.sid;
            write_base = loop_base;
          },
          record net { inbox = ss },
          waking s,
        ))
      × (pending ss ≡ [])

  reads-sending :
      (s : Session) (t : FileSend.Task) (net : Net)
      → s.task ≡ sending t
      → read_buffer files junk junk_len s net ≡ read_task files junk junk_len (sending t) s net
  unfolding read_buffer
  reads-sending s t net e = ap (λ task. read_task files junk junk_len task s net) e

  continued :
      (k : ℕ) (s : Session) (t : FileSend.Task) (net : Net)
      → s.task ≡ sending t
      → s.writing ≡ false
      → length (pending net.inbox) ≤ suc k
      → ((s' : Session) (t' : FileSend.Task) (net' : Net)
          → s'.task ≡ sending t'
          → s'.writing ≡ false
          → Waits total t' net'.inbox
          → length (pending net'.inbox) ≤ k
          → Started s' t' net' (start_events files junk junk_len k s' net'))
      → Turn total t net (Reading.read_buffer t net)
      → Started s t net (start_events files junk junk_len (suc k) s net)
  unfolding start_events
  continued k s t net e off h later_on (inl (ret, t', ss, r, waits, same, less)) =
      let s₁ : Session = record s { task = sending t' } in
      let net₁ : Net = record net { inbox = ss } in
      let (ss', done, none_left) = later_on s₁ t' net₁ refl off waits (omega arith) in
      let reset : record t' { recv = reset_cmd } ≡ record t { recv = reset_cmd } =
        ap (λ (x : FileSend.Task). record x { recv = reset_cmd }) same in
      rw (reads-sending s t net e, r)
        (subst
          (λ b.
            Started s t net
              (if b then returns (s₁, net₁, []) else start_events files junk junk_len k s₁ net₁))
          (sym off)
          (
            ss',
            done
                ∙ ap
                    (λ (x : FileSend.Task). returns (
                      record s {
                        task = sending x;
                        writing = true;
                        write_fd = pos s.sid;
                        write_base = loop_base;
                      },
                      record net { inbox = ss' },
                      waking s,
                    ))
                    reset,
            none_left,
          ))
  continued k s t net e off h later_on (inr (ret, ss, r, none_left)) =
      rw
        (
          reads-sending s t net e,
          r,
          add_write_event-off (record s { task = sending (record t { recv = reset_cmd }) }) off,
        )
        (ss, refl, none_left)

  Waits-Started :
      (k : ℕ) (s : Session) (t : FileSend.Task) (net : Net)
      → s.task ≡ sending t
      → s.writing ≡ false
      → Waits total t net.inbox
      → length (pending net.inbox) ≤ k
      → Started s t net (start_events files junk junk_len k s net)
  Waits-Started zero s t net e off v h = absurd (omega (arith, Waits-some_left total t net.inbox v))
  Waits-Started (suc k) s t net e off v h =
      continued k s t net e off h (Waits-Started k) (read_buffer-Turn total t net v)

  -- A session whose task is at the start of a command and whose write event is not in the loop, on which just
  -- the client's command to start arrives, in pieces of any size: at most as many read events as bytes
  -- read all of it, the last one adds the write event, once and for the session's descriptor, and what the
  -- task sends is as it was.
  pub start-Started :
      (k : ℕ) (s : Session) (t : FileSend.Task) (net : Net)
      → s.task ≡ sending t
      → s.writing ≡ false
      → t.recv.proc_cmmd ≡ true
      → t.recv.has_proc_len ≡ 0
      → pending net.inbox ≡ start_packet total
      → length (pending net.inbox) ≤ k
      → Started s t net (start_events files junk junk_len k s net)
  start-Started k s t net e off first none_yet here h =
      Waits-Started k s t net e off (fresh-Waits total t net.inbox first none_yet here) h
