-- ===== src/Transfer/Overrun.antt =====
-- A frame that TaskFileSend.cpp makes of the rest of a long file, at the buffer of TaskFileRecv.cpp.
use files_event.Prelude.{
  ℕ, zero, suc, ◌+◌, ◌-◌, ◌^◌, ◌≤◌, ◌<◌, ◌≡◌, refl, ap, ◌∙◌, arith, List, ◌++◌, length,
  length-append, take, leb, ltb, ◌==◌, true, false, some, inl, inr, Bool-cases, fault, ◌>>=◌,
}
use files_event.Memory.{Memory, store, get_u32}
use files_event.Posix.{
  Net, Segment, Received, got, closed, failed, recv, pending, Takes, recv-Takes,
}
use files_event.Transport.{recv_len}
use files_event.Transport.Sending.{recv_len_small}
use files_event.FileSend
use files_event.FileSend.{frame_head, frame_len}
use files_event.FileRecv.{
  Task, recv_mem_len, read_buffer, head_received, head_end, recv_pack_data, body_received,
}
use files_event.FileRecv.Events.{read_events}

-- Within the data of a packet that has more than 1 MiB of it.
record Within (t : Task) : Type 0 where
  bytes : Memory
  block : t.buf.block ≡ some bytes
  size : t.buf.mem_len ≡ recv_mem_len
  data_now : t.buf.proc_cmmd ≡ false
  large : 1048576 < t.buf.total_len
  sized : t.buf.total_len < 2 ^ 31
  room : t.buf.has_proc_len ≤ 1048576

abbrev further : Task → Memory → List ℕ → Task
further t m bs = record t {
  buf = record (t.buf) {
    has_proc_len = t.buf.has_proc_len + length bs;
    block = some (store m (16 + t.buf.has_proc_len) bs);
  };
}

-- The bytes that come are written behind the last ones, and the write that does not fit fails.
overruns :
    (n : ℕ) (t : Task) (net : Net)
    → Within t
    → recv_mem_len < 16 + t.buf.has_proc_len + length (pending net.inbox)
    → recv_mem_len < 16 + t.buf.has_proc_len + n
    → read_events n t net ≡ fault
unfolding read_events read_buffer recv_pack_data body_received
overruns zero t net w more enough = absurd (omega (arith, w.room))
overruns (suc n) t net w more enough = simp w.data_now (
    go (recv (recv_len t.buf.total_len t.buf.has_proc_len) net)
      (recv-Takes (recv_len t.buf.total_len t.buf.has_proc_len) net)
      (λ bs inbox fine some_bytes all.
        overruns n (further t w.bytes bs) (record net { inbox = inbox })
          (record {
            bytes = store w.bytes (16 + t.buf.has_proc_len) bs;
            block = refl;
            size = w.size;
            data_now = w.data_now;
            large = w.large;
            sized = w.sized;
            room = omega arith;
          })
          (omega (arith, ap length all, length-append bs (pending inbox))) (omega arith)))
  where
    go :
        (r : Received × List Segment)
        → Takes (recv_len t.buf.total_len t.buf.has_proc_len) net r
        → ((bs : List ℕ) (inbox : List Segment)
            → 16 + (t.buf.has_proc_len + length bs) ≤ recv_mem_len
            → 0 < length bs
            → pending net.inbox ≡ bs ++ pending inbox
            → read_events n (further t w.bytes bs) (record net { inbox = inbox }) ≡ fault)
        → (body_received t net r >>= λ (ret, t', net'). read_events n t' net') ≡ fault
    go (got bs, inbox) (all, some_bytes, most) next =
        elim (Bool-cases (leb (16 + t.buf.has_proc_len + length bs) t.buf.mem_len)) [
          | inr over ↦ rw (w.block, over) refl
          | inl fine ↦
              let part : (t.buf.has_proc_len + length bs == t.buf.total_len) ≡ false =
                ground (arith, w.large, w.size, fine) in
              rw (w.block, fine, part) (next bs inbox (ground (arith, w.size, fine)) some_bytes all)
        ]
    go (closed, inbox) (e, inl z) next = absurd (
        omega (
          arith,
          z,
          w.large,
          w.sized,
          w.room,
          recv_len_small t.buf.total_len t.buf.has_proc_len w.sized
              (omega (arith, w.large, w.room)),
        ))
    go (closed, inbox) (e, inr (gone, down)) next =
        absurd (omega (arith, ap (λ i. length (pending i)) gone, w.room))
    go (failed, inbox) (e, gone) next =
        absurd (omega (arith, ap (λ i. length (pending i)) gone, w.room))

-- The length that a frame's head announces, wherever the head is stored first.
announced :
    (m : Memory) (position count : ℕ)
    → count < 2 ^ 31
    → get_u32 (store m 0 (take 16 (frame_head position count))) 12 ≡ count + 8
unfolding get_u32 store frame_head files_event.Wire.head_bytes files_event.Memory.u32_bytes
announced m position count low = omega arith

long_frame :
    (s : FileSend.Task)
    → 1048568 < s.file_len - s.has_read_len
    → (1048568 < frame_len s) × (frame_len s ≤ 1048576)
unfolding frame_len
long_frame s long = (ground arith, ground arith)

-- A server that has more than 1048568 bytes of its file left makes a frame. A client at the start of a packet
-- gets the head of this frame in one piece, and more than 1 MiB of what follows is on the connection, in pieces
-- of any size. Then its read events write behind its buffer, at the latest in as many events as the buffer has
-- bytes.
pub frame_overruns :
    (sender : FileSend.Task) (position n : ℕ) (t : Task) (m : Memory) (net : Net)
    (inbox : List Segment)
    → 1048568 < sender.file_len - sender.has_read_len
    → t.buf.block ≡ some m
    → t.buf.mem_len ≡ recv_mem_len
    → t.buf.proc_cmmd ≡ true
    → t.buf.has_proc_len ≡ 0
    → recv 16 net ≡ (got (take 16 (frame_head position (frame_len sender))), inbox)
    → recv_mem_len < 16 + length (pending inbox)
    → recv_mem_len ≤ n
    → read_events n t net ≡ fault
unfolding read_events read_buffer head_received head_end frame_head files_event.Wire.head_bytes
    files_event.Memory.u32_bytes
frame_overruns sender position zero t m net inbox long block size head_now begins here more enough =
    absurd (omega arith)
frame_overruns sender position (suc n) t m net inbox long block size head_now begins here more
      enough =
    let count = frame_len sender in
    let (above, below) = long_frame sender long in
    let filled : Memory = store m 0 (take 16 (frame_head position count)) in
    let says : get_u32 filled 12 ≡ count + 8 = announced m position count (omega arith) in
    let some_data : ltb 0 (get_u32 filled 12) ≡ true = ground arith in
    let t' : Task = record t {
      buf = record (t.buf) {
        has_proc_len = 0;
        total_len = get_u32 filled 12;
        proc_cmmd = false;
        block = some filled;
      };
    } in
    let asked : recv_len 16 0 ≡ 16 = recv_len_small 16 0 (omega arith) (omega arith) in
    let net' : Net = record net { inbox = inbox } in
    let room : leb (0 + length (take 16 (frame_head position count))) t.buf.mem_len ≡ true =
      ground (arith, size) in
    let headed : read_buffer t net ≡ read_buffer t' net' =
      rw (head_now, begins, asked, here, block, room, some_data) refl in
    ap (λ r. r >>= (λ (ret, t', net'). read_events n t' net')) headed
    ∙ overruns (suc n) t' net'
        (record {
          bytes = filled;
          block = refl;
          size = size;
          data_now = refl;
          large = omega arith;
          sized = omega arith;
          room = omega arith;
        })
        more (omega arith)
