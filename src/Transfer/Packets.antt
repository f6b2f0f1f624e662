-- ===== src/Transfer/Packets.antt =====
-- The packets that TaskFileSend.cpp makes, as TaskFileRecv.cpp understands them.
use files_event.Prelude.{
  ℕ, ◌+◌, ◌%◌, ◌^◌, ◌≤◌, ◌<◌, ◌≡◌, refl, ap, ◌∙◌, List, [], ◌++◌, append_assoc, length,
  length-append, arith, leb, true, get_or-append_right,
}
use files_event.Memory.{as_memory, get_u32, u32_bytes, load, load_of_get}
use files_event.Wire.{NetHead, head_bytes, net_flag, code_of, files}
use files_event.Transport.{add_int}
use files_event.FileSend.{frame_head, signal_bytes}
use files_event.FileRecv.{recv_mem_len}
use files_event.FileRecv.Stream.{
  Saved, awaiting, ended, act, collected, feed_all, feed_all-append, head_fed, body_fed, grown_long,
  collected_part, collected_whole, collected_signal,
}

-- The fields of a head are read back, whatever follows it.
pub head_fields :
    (h : NetHead) (payload : List ℕ)
    → h.cmd < 2 ^ 32
    → h.length < 2 ^ 32
    → (get_u32 (as_memory (head_bytes h ++ payload)) 4 ≡ h.cmd)
      × (get_u32 (as_memory (head_bytes h ++ payload)) 12 ≡ h.length)
unfolding get_u32 head_bytes u32_bytes
head_fields h payload c l = (omega arith, omega arith)

pub length-head_bytes : (h : NetHead) → length (head_bytes h) ≡ 16
unfolding head_bytes
length-head_bytes h = refl

pub length-packet :
    (h : NetHead) (payload : List ℕ) → length (head_bytes h ++ payload) ≡ 16 + length payload
length-packet h payload = omega (arith, length-append (head_bytes h) payload, length-head_bytes h)

-- A head alone.
head_only :
    (h : NetHead) (s : Saved) → feed_all (awaiting [] s) (head_bytes h) ≡ collected (head_bytes h) s
head_only h s =
    head_fed [] s (head_bytes h) (omega (arith, length-head_bytes h))
      (omega (arith, length-head_bytes h))
    ∙ grown_long (head_bytes h) s (omega (arith, length-head_bytes h))

pub head_field_alone :
    (h : NetHead) → h.length < 2 ^ 32 → get_u32 (as_memory (head_bytes h)) 12 ≡ h.length
unfolding get_u32 head_bytes u32_bytes
head_field_alone h l = omega arith

-- A packet without data ends what the client looks at.
pub signal_ends :
    (cmd index : ℕ) (s : Saved) → feed_all (awaiting [] s) (signal_bytes cmd index) ≡ ended s
signal_ends cmd index s =
    head_only (record { flag = net_flag; cmd = cmd; index = index; length = 0 }) s
    ∙ collected_signal (signal_bytes cmd index) s
        (omega (
          arith,
          length-head_bytes (record { flag = net_flag; cmd = cmd; index = index; length = 0 }),
        ))
        (head_field_alone (record { flag = net_flag; cmd = cmd; index = index; length = 0 })
          (omega arith))

-- The head of a packet with data is waited on.
head_waits :
    (h : NetHead) (s : Saved)
    → 0 < h.length
    → h.length < 2 ^ 32
    → feed_all (awaiting [] s) (head_bytes h) ≡ awaiting (head_bytes h) s
head_waits h s some_bytes l =
    head_only h s
    ∙ collected_part (head_bytes h) s (omega (arith, length-head_bytes h))
        (omega (arith, head_field_alone h l))
        (λ e. omega (arith, e, head_field_alone h l, length-head_bytes h))

packet_part :
    (h : NetHead) (payload : List ℕ) (s : Saved)
    → 0 < length payload
    → length payload ≤ h.length
    → h.length < 2 ^ 32
    → feed_all (awaiting [] s) (head_bytes h ++ payload) ≡ collected (head_bytes h ++ payload) s
packet_part h payload s some_bytes most l =
    feed_all-append (awaiting [] s) (head_bytes h) payload
    ∙ ap (λ x. feed_all x payload) (head_waits h s (omega arith) l)
    ∙ body_fed (head_bytes h) s payload some_bytes (omega (arith, length-head_bytes h))
        (omega (arith, head_field_alone h l))
        (omega (arith, head_field_alone h l, length-head_bytes h))

-- A packet that fits the client's buffer is acted on as a whole.
pub packet_acted :
    (h : NetHead) (payload : List ℕ) (s : Saved)
    → 0 < length payload
    → length payload ≡ h.length
    → 16 + h.length ≤ recv_mem_len
    → h.cmd < 2 ^ 32
    → feed_all (awaiting [] s) (head_bytes h ++ payload) ≡ act (head_bytes h ++ payload) s
packet_acted h payload s some_bytes whole fits c =
    packet_part h payload s some_bytes (omega arith) (omega arith)
    ∙ collected_whole (head_bytes h ++ payload) s (omega (arith, length-packet h payload))
        (omega (arith, (head_fields h payload c (omega arith)).1))
        (omega (arith, (head_fields h payload c (omega arith)).1, length-packet h payload))

-- The frame that `writeBuffer` makes of the bytes `chunk` at `position`.
abbrev pub frame_bytes : ℕ → List ℕ → List ℕ
frame_bytes position chunk = frame_head position (length chunk) ++ chunk

abbrev frame_net_head : List ℕ → NetHead
frame_net_head chunk = record {
  flag = net_flag;
  cmd = code_of files;
  index = 0;
  length = (length chunk + 8) % 2 ^ 32;
}

abbrev frame_payload : ℕ → List ℕ → List ℕ
frame_payload position chunk = (u32_bytes position ++ u32_bytes (length chunk)) ++ chunk

frame_split :
    (position : ℕ) (chunk : List ℕ)
    → frame_bytes position chunk ≡ head_bytes (frame_net_head chunk) ++ frame_payload position chunk
unfolding frame_head
frame_split position chunk =
    append_assoc (head_bytes (frame_net_head chunk))
      (u32_bytes position ++ u32_bytes (length chunk)) chunk

length-frame_payload :
    (position : ℕ) (chunk : List ℕ) → length (frame_payload position chunk) ≡ 8 + length chunk
unfolding u32_bytes
length-frame_payload position chunk = omega arith

-- What the client reads off a frame.
frame_fields :
    (position : ℕ) (chunk : List ℕ)
    → length chunk < 2 ^ 31
    → let p = head_bytes (frame_net_head chunk) ++ frame_payload position chunk in
      (get_u32 (as_memory p) 20 ≡ length chunk) × (load (as_memory p) 24 (length chunk) ≡ chunk)
unfolding get_u32 head_bytes u32_bytes
frame_fields position chunk small = (
  omega arith,
  load_of_get _ 24 chunk (λ i h.
      get_or-append_right
        (head_bytes (frame_net_head chunk) ++ (u32_bytes position ++ u32_bytes (length chunk)))
        chunk i 0),
)

true-leb : (a b : ℕ) → a ≤ b → leb a b ≡ true
true-leb a b h = ground arith

length-frame_packet :
    (position : ℕ) (chunk : List ℕ)
    → length (head_bytes (frame_net_head chunk) ++ frame_payload position chunk) ≡ 24 + length chunk
length-frame_packet position chunk = omega (
  arith,
  length-packet (frame_net_head chunk) (frame_payload position chunk),
  length-frame_payload position chunk,
)

frame_act :
    (position : ℕ) (chunk : List ℕ) (s : Saved)
    → length chunk < 2 ^ 31
    → act (head_bytes (frame_net_head chunk) ++ frame_payload position chunk) s
      ≡ awaiting [] (record {
        content = s.content ++ chunk;
        expected = s.expected;
        count = add_int s.count (length chunk);
      })
unfolding act
frame_act position chunk s small =
    let p = head_bytes (frame_net_head chunk) ++ frame_payload position chunk in
    let (count, bytes) = frame_fields position chunk small in
    simp (
      (head_fields (frame_net_head chunk) (frame_payload position chunk) (omega arith)
          (omega arith)).0,
      count,
      length-frame_packet position chunk,
      true-leb (24 + length chunk) (24 + length chunk) (omega arith),
      bytes,
    )

-- A frame of at most 1048568 bytes appends its bytes to the client's file and to its count; the
-- announced length stays.
pub frame_understood :
    (position : ℕ) (chunk : List ℕ) (s : Saved)
    → length chunk ≤ 1048568
    → feed_all (awaiting [] s) (frame_bytes position chunk)
      ≡ awaiting [] (record {
        content = s.content ++ chunk;
        expected = s.expected;
        count = add_int s.count (length chunk);
      })
frame_understood position chunk s fits =
    ap (feed_all (awaiting [] s)) (frame_split position chunk)
    ∙ packet_acted (frame_net_head chunk) (frame_payload position chunk) s
        (omega (arith, length-frame_payload position chunk))
        (omega (arith, length-frame_payload position chunk)) (omega arith) (omega arith)
    ∙ frame_act position chunk s (omega arith)
