-- ===== src/Transfer/Arrival.antt =====
-- A file that the server sends arrives at the client.
use files_event.Prelude.{
  ℕ, zero, suc, ◌*◌, ◌≤◌, ◌≡◌, ◌≢◌, refl, ap, sym, ◌∙◌, inl, inr, List, [], ◌∷◌, ◌++◌, append-nil,
  arith, length, take, take_all, some, ℤ, Run, returns, fault, blocked, ◌>>=◌,
}
use files_event.Posix.{Net, pending}
use files_event.Wire.{code_of, dataend}
use files_event.Buffers.{file_memory_len}
use files_event.Transport.{add_int}
use files_event.Transport.Waiting.{chances}
use files_event.FileSend.{loginret_bytes, signal_bytes}
use files_event.FileRecv.{Task, read_buffer}
use files_event.FileRecv.Stream.{Saved, Feed, awaiting, ended, malformed, feed_all, feed_all-append}
use files_event.FileRecv.Tracking.{Stands, in_head, signalled, in_data, Tracks}
use files_event.FileRecv.Reassembly.{IsEnded}
use files_event.FileRecv.Events.{read_events, Reads, read_events-Reads}
use files_event.FileRecv.Waiting.{EndsTask}
use files_event.FileRecv.Ending.{read_buffer-EndsTask}
use files_event.Transfer.Packets.{frame_bytes, frame_understood, signal_ends}
use files_event.Transfer.Reply.{loginret_understood}
use files_event.Transfer.Sender.{frames}

-- What the server sends for a file: the reply, the frames, and the end.
abbrev pub served : ℕ → List ℕ → List ℕ
served count content =
    loginret_bytes (length content) ++ (frames count 0 content ++ signal_bytes (code_of dataend) 0)

frames_one :
    (content : List ℕ)
    → length content ≤ file_memory_len
    → frames 1 0 content ≡ frame_bytes 0 content
unfolding frames
frames_one content h =
    append-nil (frame_bytes 0 (take file_memory_len content))
    ∙ ap (frame_bytes 0) (take_all file_memory_len content h)

-- A file of at most 1048568 bytes: the stream is well formed, and means the file.
pub served_understood :
    (content : List ℕ) (s : Saved)
    → length content ≤ 1048568
    → feed_all (awaiting [] s) (served 1 content)
      ≡ ended (record {
        content = s.content ++ content;
        expected = length content;
        count = add_int s.count (length content);
      })
served_understood content s fits =
    feed_all-append (awaiting [] s) (loginret_bytes (length content)) _
    ∙ ap (λ x. feed_all x (frames 1 0 content ++ signal_bytes (code_of dataend) 0))
        (loginret_understood (length content) s (omega arith))
    ∙ feed_all-append _ (frames 1 0 content) (signal_bytes (code_of dataend) 0)
    ∙ ap (λ x. feed_all x (signal_bytes (code_of dataend) 0))
        (ap (feed_all _) (frames_one content (omega arith))
          ∙ frame_understood 0 content (record s { expected = length content }) fits)
    ∙ signal_ends (code_of dataend) 0 _

-- The events return, and the client's file holds `content`.
abbrev pub Arrives : List ℕ → Run (Task × Net) → Type 0
Arrives content (returns (t, net)) = t.file ≡ some content
Arrives content fault = ⊥
Arrives content blocked = ⊥

events_end :
    (n : ℕ) (t : Task) (net : Net) → 2 * n ≤ chances net.answers → read_events n t net ≢ blocked
unfolding read_events
events_end zero t net c e = cc
events_end (suc n) t net c e =
    go (read_buffer t net) (read_buffer-EndsTask t net (omega arith))
      (λ t' net' c'. events_end n t' net' c') e
  where
    go :
        (r : Run (ℤ × Task × Net))
        → EndsTask net r
        → ((t' : Task) (net' : Net)
            → 2 * n ≤ chances net'.answers
            → read_events n t' net' ≢ blocked)
        → (r >>= λ (ret, t', net'). read_events n t' net') ≡ blocked
        → ⊥
    go (returns (ret, t', net')) h ih e' = ih t' net' (omega arith) e'
    go fault h ih e' = cc
    go blocked h ih e' = h

ended_file : (t : Task) (x : Feed) (s : Saved) → Tracks t x → x ≡ ended s → t.file ≡ some s.content
ended_file t x s k e = go k.content x k.file k.stands e
  where
    go :
        (f : List ℕ) (y : Feed)
        → t.file ≡ some f
        → Stands k.bytes f t y
        → y ≡ ended s
        → t.file ≡ some s.content
    go f _ h (in_head a b) q = cc
    go f _ h (signalled a b c) q = cc
    go f _ h (in_data a b c d) q = cc

ended_already : (x : Feed) (rest : List ℕ) → IsEnded x → feed_all x rest ≡ x
unfolding feed_all
ended_already x [] h = refl
ended_already (awaiting p s) (b ∷ bs) h = absurd h
ended_already (ended s) (b ∷ bs) h = ended_already (ended s) bs tt
ended_already malformed (b ∷ bs) h = absurd h

Reads-arrive :
    (n : ℕ) (x : Feed) (s : Saved) (net : Net) (r : Run (Task × Net))
    → feed_all x (pending net.inbox) ≡ ended s
    → length (pending net.inbox) ≤ n
    → r ≢ blocked
    → Reads n x net r
    → Arrives s.content r
Reads-arrive n x s net (returns (t, net')) whole h ne (bs, e, k, inl a) = absurd (omega arith)
Reads-arrive n x s net (returns (t, net')) whole h ne (bs, e, k, inr (inl none_left)) =
    ended_file t (feed_all x bs) s k
      (ap (feed_all x) (sym (append-nil bs) ∙ sym (e ∙ ap (λ r. bs ++ r) none_left)) ∙ whole)
Reads-arrive n x s net (returns (t, net')) whole h ne (bs, e, k, inr (inr done)) =
    ended_file t (feed_all x bs) s k (
      sym (ended_already (feed_all x bs) (pending net'.inbox) done)
      ∙ sym (feed_all-append x bs (pending net'.inbox))
      ∙ ap (feed_all x) (sym e)
      ∙ whole)
Reads-arrive n x s net fault whole h ne k = k
Reads-arrive n x s net blocked whole h ne k = ne refl

ended_not_malformed : (s : Saved) → ended s ≢ malformed
ended_not_malformed s e = cc

-- A stream that is understood to its end.
pub understood-Arrives :
    (n : ℕ) (s s' : Saved) (t : Task) (net : Net)
    → Tracks t (awaiting [] s)
    → feed_all (awaiting [] s) (pending net.inbox) ≡ ended s'
    → length (pending net.inbox) ≤ n
    → 2 * n ≤ chances net.answers
    → Arrives s'.content (read_events n t net)
understood-Arrives n s s' t net k whole enough c =
    Reads-arrive n (awaiting [] s) s' net (read_events n t net) whole enough (events_end n t net c)
      (read_events-Reads n t (awaiting [] s) net k (λ z. ended_not_malformed s' (sym whole ∙ z)))

-- When what the server sends for a file of at most 1048568 bytes has arrived, in pieces of any size,
-- at a client that waits for a packet, then as many read events as bytes leave exactly the file
-- behind what the client's file held before. No event waits for ever if there are two chances for
-- each to send its reply, and none touches foreign memory.
pub file-Arrives :
    (n : ℕ) (content : List ℕ) (s : Saved) (t : Task) (net : Net)
    → Tracks t (awaiting [] s)
    → pending net.inbox ≡ served 1 content
    → length content ≤ 1048568
    → length (served 1 content) ≤ n
    → 2 * n ≤ chances net.answers
    → Arrives (s.content ++ content) (read_events n t net)
file-Arrives n content s t net k here fits enough c =
    understood-Arrives n s _ t net k
      (ap (feed_all (awaiting [] s)) here ∙ served_understood content s fits)
      (omega (arith, ap length here)) c
