-- ===== src/Transfer/Whole.antt =====
-- A transfer from end to end: the events of a server that is asked for a file (TaskFileSend.cpp), and
-- then those of the client that reads what they have put on the wire (TaskFileRecv.cpp).
use files_event.Prelude.{
  ℕ, ◌*◌, ◌%◌, ◌^◌, ◌≤◌, ◌<◌, ◌≡◌, refl, ap, sym, ◌∙◌, List, [], ◌∷◌, ◌++◌, append_assoc,
  append-nil, arith, length, some, Run, returns, ◌>>=◌, ◌⊎◌, inl, inr,
}
use files_event.Memory.{Memory}
use files_event.Posix.{Net, Answer, pending}
use files_event.Wire.{code_of, dataend}
use files_event.Buffers.{file_memory_len}
use files_event.Transport.Sending.{Willing}
use files_event.Transport.Waiting.{chances}
use files_event.FileSend
use files_event.FileSend.{loginret_bytes, signal_bytes}
use files_event.FileSend.Events.{Idle}
use files_event.FileSend.Ends.{end_event, reply_event}
use files_event.FileRecv
use files_event.FileRecv.Stream.{Saved, awaiting, ended, feed_all, feed_all-append}
use files_event.FileRecv.Tracking.{Tracks}
use files_event.FileRecv.Events.{read_events}
use files_event.Transfer.Packets.{signal_ends}
use files_event.Transfer.Reply.{loginret_understood}
use files_event.Transfer.Sender.{frames, Answers, Serves, frame_events, frames_sent}
use files_event.Transfer.Arrival.{served, served_understood, Arrives, understood-Arrives}

-- Two write events for each frame, and the last one. The kernel answers the sends of the events with `ps` and
-- `last`.
unfoldable pub finish_file : Memory → Answers → List Answer → FileSend.Task → Net → Run Net
finish_file junk ps last t net = do
  (t', net') ← frame_events junk ps t net
  (_, _, net'') ← FileSend.write_buffer junk t' (record net' { answers = last })
  returns net''

-- What follows the reply.
abbrev pub tail : ℕ → List ℕ → List ℕ
tail n content = frames n 0 content ++ signal_bytes (code_of dataend) 0

pub finish_file-sends :
    (junk : Memory) (ps : Answers) (last : List Answer) (content : List ℕ) (t : FileSend.Task)
    (net : Net)
    → Idle t (record { content = content; position = 0 })
    → t.file_len ≡ length content
    → t.has_read_len ≡ 0
    → Serves ps (length content)
    → Willing last 16
    → (net' : Net) × (finish_file junk ps last t net ≡ returns net')
      × (net'.wire ≡ net.wire ++ tail (length ps) content)
unfolding finish_file
finish_file-sends junk ps last content t net idle len read w w' =
    let (t₂, net₂, e₂, wire₂, (f, i₂, same, done)) =
      frames_sent ps junk t (record { content = content; position = 0 }) net idle len read w in
    let (l₃, t₃, e₃) = end_event junk t₂ f (record net₂ { answers = last }) i₂ done w' in
    (
      record net₂ { answers = l₃; wire = net₂.wire ++ signal_bytes (code_of dataend) 0 },
      rw (e₂, e₃) refl,
      ap (λ v. v ++ signal_bytes (code_of dataend) 0) wire₂
          ∙ append_assoc net.wire (frames (length ps) 0 content) _,
    )

-- The request is answered, and the kernel answers that with `first`; then come the file's events.
unfoldable pub serve_file :
    Memory → ℕ → List Answer → Answers → List Answer → List ℕ → Net → Run Net
unfolding finish_file
serve_file junk junk_len first ps last content net = do
  (_, t, net') ←
      FileSend.set_fetch_file (some content) (length content) (FileSend.new junk junk_len)
        (record net { answers = first })
  finish_file junk ps last t net'

-- A server that is asked for a file shorter than 2 ^ 32 bytes puts exactly the reply, the frames and the end
-- signal on the wire, if the kernel takes what each event sends.
pub serve_file-served :
    (junk : Memory) (junk_len : ℕ) (first : List Answer) (ps : Answers) (last : List Answer)
    (content : List ℕ) (net : Net)
    → Willing first 1048
    → Serves ps (length content)
    → Willing last 16
    → length content < 2 ^ 32
    → (net' : Net) × (serve_file junk junk_len first ps last content net ≡ returns net')
      × (net'.wire ≡ net.wire ++ served (length ps) content)
unfolding serve_file FileSend.new
serve_file-served junk junk_len first ps last content net w₁ w₂ w₃ small =
    let (l₁, t₁, e₁, i₁, n₁, r₁) =
      reply_event content (length content) (FileSend.new junk junk_len)
        (record net { answers = first }) refl refl refl refl refl refl w₁ in
    let fits : length content % 2 ^ 32 ≡ length content = omega arith in
    let (net₂, e₂, wire₂) =
      finish_file-sends junk ps last content t₁
        (record net { answers = l₁; wire = net.wire ++ loginret_bytes (length content % 2 ^ 32) })
        i₁ (n₁ ∙ fits) r₁ w₂ w₃ in
    (
      net₂,
      rw (e₁, e₂) refl,
      wire₂
          ∙ ap (λ k. (net.wire ++ loginret_bytes k) ++ tail (length ps) content) fits
          ∙ append_assoc net.wire (loginret_bytes (length content)) _,
    )

-- A file of at most 1 MiB takes one frame, or none if it is empty.
Serves-length :
    (ps : Answers) (content : List ℕ)
    → Serves ps (length content)
    → length content ≤ file_memory_len
    → (length ps ≡ 1) ⊎ ((length ps ≡ 0) × (content ≡ []))
Serves-length [] [] w h = inr (refl, refl)
Serves-length [] (b ∷ bs) w h = absurd (omega arith)
Serves-length (p ∷ []) content w h = inl refl
Serves-length (p ∷ q ∷ ps) content w h = absurd (omega arith)

served_none :
    (s : Saved) → feed_all (awaiting [] s) (served 0 []) ≡ ended (record s { expected = 0 })
unfolding frames
served_none s =
    feed_all-append (awaiting [] s) (loginret_bytes 0) _
    ∙ ap (λ x. feed_all x (signal_bytes (code_of dataend) 0))
        (loginret_understood 0 s (omega arith))
    ∙ signal_ends (code_of dataend) 0 _

-- What the server sends for a file of at most 1048568 bytes arrives at a client.
pub served-Arrives :
    (ps : Answers) (content : List ℕ) (n : ℕ) (s : Saved) (t : FileRecv.Task) (net : Net)
    → Serves ps (length content)
    → length content ≤ 1048568
    → Tracks t (awaiting [] s)
    → pending net.inbox ≡ served (length ps) content
    → length (pending net.inbox) ≤ n
    → 2 * n ≤ chances net.answers
    → Arrives (s.content ++ content) (read_events n t net)
served-Arrives ps content n s t net w small k here enough c =
    arrived (Serves-length ps content w (omega arith))
  where
    arrived :
        ((length ps ≡ 1) ⊎ ((length ps ≡ 0) × (content ≡ [])))
        → Arrives (s.content ++ content) (read_events n t net)
    arrived (inl one) =
        understood-Arrives n s _ t net k
          (ap (feed_all (awaiting [] s)) (here ∙ ap (λ m. served m content) one)
            ∙ served_understood content s small)
          enough c
    arrived (inr (none, empty)) =
        rw (empty, append-nil s.content)
          (understood-Arrives n s (record s { expected = 0 }) t net k
            (ap (feed_all (awaiting [] s))
                (here ∙ ap (λ m. served m content) none ∙ ap (served 0) empty)
              ∙ served_none s)
            enough c)

-- A whole transfer of a file of at most 1048568 bytes, empty ones included: a server that is asked for it
-- and whose kernel takes what each event sends ends its events; and a client that waits for a packet, and on
-- which just what the server has sent arrives, in pieces of any size, has the file behind what its own
-- file held before, after as many read events as bytes (with two chances to send in each).
pub transfer :
    (junk : Memory) (junk_len : ℕ) (first : List Answer) (ps : Answers) (last : List Answer)
    (content : List ℕ) (server_net : Net) (n : ℕ) (s : Saved) (t : FileRecv.Task) (net : Net)
    → Willing first 1048
    → Serves ps (length content)
    → Willing last 16
    → length content ≤ 1048568
    → Tracks t (awaiting [] s)
    → pending net.inbox ≡ served (length ps) content
    → length (pending net.inbox) ≤ n
    → 2 * n ≤ chances net.answers
    → (sent : Net) × (serve_file junk junk_len first ps last content server_net ≡ returns sent)
      × (sent.wire ≡ server_net.wire ++ pending net.inbox)
      × Arrives (s.content ++ content) (read_events n t net)
transfer junk junk_len first ps last content server_net n s t net w₁ w₂ w₃ small k here enough c =
    let (sent, e, wire) =
      serve_file-served junk junk_len first ps last content server_net w₁ w₂ w₃ (omega arith) in
    (
      sent,
      e,
      wire ∙ ap (λ v. server_net.wire ++ v) (sym here),
      served-Arrives ps content n s t net w₂ small k here enough c,
    )
