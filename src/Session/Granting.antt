-- ===== src/Session/Granting.antt =====
-- Read events of a session that is asked for a file (Session.cpp), until it has its task.
use files_event.Prelude.{
  ℕ, zero, suc, ◌+◌, ◌%◌, ◌^◌, ◌≤◌, ◌<◌, ◌≡◌, refl, ap, sym, ◌∙◌, subst, arith, List, [], ◌++◌,
  length, length-append, if◌then◌else◌, Bool, true, some, ℤ, Run, returns, ◌>>=◌, inl, inr,
}
use files_event.Memory.{Memory, load, length-load}
use files_event.Posix.{Net, Answer, Segment, pending, recv}
use files_event.Wire.{code_of, login}
use files_event.Transport.{recv_len}
use files_event.Transport.Sending.{Willing}
use files_event.FileRecv.{get_request}
use files_event.FileRecv.Commands.{packet_of}
use files_event.FileSend
use files_event.FileSend.Events.{Idle}
use files_event.Session.{Session, TaskBase, no_task, sending, head_len}
use files_event.Session.Requests.{Files, read_buffer, read_task, head_received, recv_pack_data}
use files_event.Transfer.Packets.{length-packet}
use files_event.Session.Asking.{Nameable}
use files_event.Session.Arrival.{Waits, Place, Turn}
use files_event.Session.Arrival.Turns.{head-Turn, body-Turn}

abbrev pub unless_task {ℓ} : {A : Type ℓ} → TaskBase → A → A → A
unless_task no_task more done = more
unless_task _ more done = done

-- At most `n` read events, as long as there is no task.
unfoldable pub request_events : Files → Memory → ℕ → ℕ → Session → Net → Run (Session × Net)
request_events files junk junk_len zero s net = returns (s, net)
request_events files junk junk_len (suc n) s net = do
  (ret, s', net', effects) ← read_buffer files junk junk_len s net
  let more = request_events files junk junk_len n s' net'
  unless_task s'.task more (returns (s', net'))

module _ (files : Files) (junk : Memory) (junk_len : ℕ) (path content : List ℕ) (n : Nameable path)
    (there : files.exists path ≡ true) (opened : files.opens path ≡ some content) where
  -- One read event, in either place.
  abbrev read_in : Bool → Session → Net → Run (ℤ × Session × Net)
  read_in head_now s net =
      if head_now
      then head_received files junk junk_len s net (recv (recv_len head_len s.has_recv_len) net)
      else recv_pack_data files junk junk_len s net

  abbrev reads : Session → Net → Run (ℤ × Session × Net)
  reads s net = read_in s.head_now s net

  reads-idle :
      (s : Session) (net : Net)
      → s.task ≡ no_task
      → read_buffer files junk junk_len s net
        ≡ (reads s net >>= λ (ret, s', net'). returns (ret, s', net', []))
  unfolding read_buffer
  reads-idle s net e = ap (λ t. read_task files junk junk_len t s net) e

  turn :
      (s : Session) (net : Net)
      → Waits files junk junk_len path content s net.inbox
      → Willing net.answers 1048
      → Turn files junk junk_len path content net (reads s net)
  turn s net v w = go v.stands
    where
      go :
          Place files junk junk_len path content s v.so_far
          → Turn files junk junk_len path content net (reads s net)
      go (inl (first, k, under)) =
          subst (λ b. Turn files junk junk_len path content net (read_in b s net)) (sym first)
            (head-Turn files junk junk_len path content n there opened s net v.idle first
              (ap (λ i. load s.buff 0 i ++ pending net.inbox) k ∙ v.taken) v.ended (omega arith) w)
      go (inr (away, total, k, under)) =
          subst (λ b. Turn files junk junk_len path content net (read_in b s net)) (sym away)
            (body-Turn files junk junk_len path content n there opened s net v.idle away
              (ap (λ i. load s.buff 0 i ++ pending net.inbox) (sym k) ∙ v.taken) v.ended total under
              w)

  -- The session has its task, and the reply is out.
  abbrev pub Granted : Net → Run (Session × Net) → Type 0
  Granted net r =
      (s' : Session) × (later : List Answer) × (ss : List Segment) × (t : FileSend.Task) × (r
        ≡ returns (
          s',
          record net {
            inbox = ss;
            answers = later;
            wire = net.wire ++ FileSend.loginret_bytes (files.size path % 2 ^ 32);
          },
        ))
      × (pending ss ≡ [])
      × (s'.task ≡ sending t)
      × Idle t (record { content = content; position = 0 })
      × (t.file_len ≡ files.size path % 2 ^ 32)
      × (t.has_read_len ≡ 0)

  some_left :
      (s : Session) (ss : List Segment)
      → Waits files junk junk_len path content s ss
      → 0 < length (pending ss)
  some_left s ss v = go v.stands
    where
      all_of : v.so_far + length (pending ss) ≡ 16 + length (get_request path)
      all_of = omega (
        arith,
        ap length v.taken,
        length-append (load s.buff 0 v.so_far) (pending ss),
        length-load s.buff 0 v.so_far,
        length-packet _ (get_request path),
      )

      go : Place files junk junk_len path content s v.so_far → 0 < length (pending ss)
      go (inl (first, k, under)) = omega (arith, all_of)
      go (inr (away, total, k, under)) = omega (arith, all_of)

  continued :
      (k : ℕ) (s : Session) (net : Net)
      → Waits files junk junk_len path content s net.inbox
      → Willing net.answers 1048
      → length (pending net.inbox) ≤ suc k
      → ((s' : Session) (net' : Net)
          → Waits files junk junk_len path content s' net'.inbox
          → Willing net'.answers 1048
          → length (pending net'.inbox) ≤ k
          → Granted net' (request_events files junk junk_len k s' net'))
      → Turn files junk junk_len path content net (reads s net)
      → Granted net (request_events files junk junk_len (suc k) s net)
  unfolding request_events
  continued k s net v w h later_on (inl (ret, s', ss, e, waits, less)) =
      rw (reads-idle s net v.idle, e)
        (subst
          (λ task. Granted net (
            unless_task task (request_events files junk junk_len k s' (record net { inbox = ss }))
              (returns (s', record net { inbox = ss }))))
          (sym waits.idle) (later_on s' (record net { inbox = ss }) waits w (omega arith)))
  continued k s net v w h later_on
        (inr (ret, s', ss, later, t, e, none_left, task, idle, len, read)) =
      rw (reads-idle s net v.idle, e, task)
        (record s' { task = sending t }, later, ss, t, refl, none_left, refl, idle, len, read)

  Waits-Granted :
      (k : ℕ) (s : Session) (net : Net)
      → Waits files junk junk_len path content s net.inbox
      → Willing net.answers 1048
      → length (pending net.inbox) ≤ k
      → Granted net (request_events files junk junk_len k s net)
  unfolding request_events
  Waits-Granted zero s net v w h = absurd (omega (arith, some_left s net.inbox v))
  Waits-Granted (suc k) s net v w h = continued k s net v w h (Waits-Granted k) (turn s net v w)

  -- A session without a task, at the start of a packet, to which the request that the client makes for a
  -- file arrives in pieces of any size: if the path is one that a request can name, the file exists and can be
  -- opened, the byte behind the request is zero in the session's buffer, and the kernel takes the 1048
  -- bytes of the reply, then after at most as many read events as bytes the whole request was read, the reply
  -- with the file's length is out, and the session has a task that is ready to send the file from its
  -- first byte.
  pub request-Granted :
      (k : ℕ) (s : Session) (net : Net)
      → s.task ≡ no_task
      → s.head_now ≡ true
      → s.has_recv_len ≡ 0
      → s.buff (16 + length (get_request path)) ≡ 0
      → pending net.inbox ≡ packet_of (code_of login) 0 (get_request path)
      → Willing net.answers 1048
      → length (pending net.inbox) ≤ k
      → Granted net (request_events files junk junk_len k s net)
  unfolding load
  request-Granted k s net idle first none_yet z here w h =
      Waits-Granted k s net
        (record {
          idle = idle;
          so_far = 0;
          taken = here;
          ended = z;
          stands = inl (first, none_yet, omega arith);
        })
        w h
