-- ===== src/FileRecv/Head.antt =====
-- `readBuffer` while the head of a packet is under way, and one read event as a whole.
use files_event.Prelude.{
  ℕ, ◌+◌, ◌≤◌, ◌<◌, ◌≡◌, ◌≢◌, refl, ap, sym, ◌∙◌, ◌⊎◌, inl, inr, List, [], ◌++◌, append_assoc,
  arith, length, ◌==◌, leb, ltb, true, false, some, ℤ, pos, Run, returns, fault, blocked,
  Bool-cases, length-append,
}
use files_event.Memory.{
  Memory, store, load, get_u32, get_u32-as_memory, length-load, load-store_append,
}
use files_event.Posix.{
  Net, Segment, Received, got, closed, failed, recv, pending, Takes, recv-Takes,
}
use files_event.Transport.{recv_len}
use files_event.Transport.Sending.{recv_len_small, recv_len_pos, recv_len_zero}
use files_event.FileRecv.{
  Task, recv_mem_len, recv_pack_data, body_received, head_end, head_received, read_buffer,
}
use files_event.FileRecv.Stream.{
  Feed, awaiting, grown, collected, feed_all, feed_all-append, head_fed, grown_short, grown_long,
  collected_part, collected_signal,
}
use files_event.FileRecv.Tracking.{saved, Stands, in_head, signalled, in_data, Tracks}
use files_event.FileRecv.Reassembly.{IsEnded, Follows, nonzero, recv_pack_data-Follows}

-- What follows a part of the stream that has been read already.
after :
    (x y : Feed) (net : Net) (bs : List ℕ) (inbox : List Segment) (r : Run (ℤ × Task × Net))
    → pending net.inbox ≡ bs ++ pending inbox
    → feed_all x bs ≡ y
    → ¬ IsEnded y
    → 0 < length bs
    → Follows y (record net { inbox = inbox }) r
    → Follows x net r
after x y net bs inbox (returns (ret, t', net')) e f ne some_bytes (cs, e', k, q, _) = (
  bs ++ cs,
  e ∙ ap (λ r. bs ++ r) e' ∙ sym (append_assoc bs cs (pending net'.inbox)),
  rw (feed_all-append x bs cs, f) k,
  quits q,
  inl (omega (arith, length-append bs cs)),
)
  where
    quits :
        (ret ≢ pos 0) ⊎ (net.peer_open ≡ false) ⊎ IsEnded y
        → (ret ≢ pos 0) ⊎ (net.peer_open ≡ false) ⊎ IsEnded x
    quits (inl a) = inl a
    quits (inr (inl a)) = inr (inl a)
    quits (inr (inr a)) = absurd (ne a)
after x y net bs inbox fault e f ne some_bytes (cs, rest, e', k) = (
  bs ++ cs,
  rest,
  e ∙ ap (λ r. bs ++ r) e' ∙ sym (append_assoc bs cs rest),
  rw (feed_all-append x bs cs, f) k,
)
after x y net bs inbox blocked e f ne some_bytes k = tt

-- One `recv` for the head of a packet.
module _ (m : Memory) (f : List ℕ) (t : Task) (net : Net) (block : t.buf.block ≡ some m)
    (size : t.buf.mem_len ≡ recv_mem_len) (file : t.file ≡ some f)
    (head_now : t.buf.proc_cmmd ≡ true) (under : t.buf.has_proc_len < 16) where
  abbrev start : Feed
  start = awaiting (load m 0 t.buf.has_proc_len) (saved f t)

  here : Tracks t start
  here = record {
    bytes = m;
    content = f;
    block = block;
    size = size;
    file = file;
    stands = in_head head_now under;
  }

  module _ (bs : List ℕ) (some_bytes : 0 < length bs)
      (fits : t.buf.has_proc_len + length bs ≤ 16) where
    abbrev filled : Memory
    filled = store m t.buf.has_proc_len bs

    fed : feed_all start bs ≡ grown (load filled 0 (t.buf.has_proc_len + length bs)) (saved f t)
    fed =
        head_fed (load m 0 t.buf.has_proc_len) (saved f t) bs some_bytes
          (omega (arith, length-load m 0 t.buf.has_proc_len))
        ∙ ap (λ q. grown q (saved f t)) (sym (load-store_append m t.buf.has_proc_len bs))

    fed_part :
        (t.buf.has_proc_len + length bs == 16) ≡ false
        → feed_all start bs ≡ awaiting (load filled 0 (t.buf.has_proc_len + length bs)) (saved f t)
    fed_part part =
        fed
        ∙ grown_short (load filled 0 (t.buf.has_proc_len + length bs)) (saved f t)
            (ground (arith, length-load filled 0 (t.buf.has_proc_len + length bs)))

    fed_whole :
        (t.buf.has_proc_len + length bs == 16) ≡ true
        → feed_all start bs ≡ collected (load filled 0 16) (saved f t)
    fed_whole whole =
        fed
        ∙ ap (λ k. grown (load filled 0 k) (saved f t)) {x = t.buf.has_proc_len + length bs}
            {y = 16} (ground arith)
        ∙ grown_long (load filled 0 16) (saved f t) (omega (arith, length-load filled 0 16))

    part_Tracks :
        (t.buf.has_proc_len + length bs == 16) ≡ false
        → Tracks
            (record t {
              buf = record (t.buf) {
                has_proc_len = t.buf.has_proc_len + length bs;
                block = some filled;
              };
            })
            (feed_all start bs)
    part_Tracks part = rw (fed_part part) (record {
      bytes = filled;
      content = f;
      block = refl;
      size = size;
      file = file;
      stands = in_head head_now (ground arith);
    })

    -- The task behind a whole head.
    abbrev headed : Task
    headed = record t {
      buf = record (t.buf) { has_proc_len = t.buf.has_proc_len + length bs; block = some filled };
    }

    whole-Follows :
        (inbox : List Segment)
        → pending net.inbox ≡ bs ++ pending inbox
        → (t.buf.has_proc_len + length bs == 16) ≡ true
        → Follows start net
            (head_end filled (pos (length bs)) headed (record net { inbox = inbox }))
    unfolding head_end
    whole-Follows inbox e whole = elim (Bool-cases (ltb 0 (get_u32 filled 12))) [
      | inr signal ↦ rw signal (
        bs,
        e,
        inl (
            rw
              (fed_whole whole
                ∙ collected_signal (load filled 0 16) (saved f t)
                    (omega (arith, length-load filled 0 16))
                    (get_u32-as_memory filled 16 12 (omega arith) ∙ ground arith))
              (record {
                bytes = filled;
                content = f;
                block = refl;
                size = size;
                file = file;
                stands = signalled refl (ground arith) refl;
              })),
        inl (nonzero bs some_bytes),
        inl some_bytes,
      )
      | inl payload ↦ rw payload (
          after start (awaiting (load filled 0 16) (saved f t)) net bs inbox _ e
            (fed_whole whole
              ∙ collected_part (load filled 0 16) (saved f t)
                  (omega (arith, length-load filled 0 16))
                  (ground (arith, get_u32-as_memory filled 16 12 (omega arith)))
                  (λ z. ground (
                    arith,
                    z,
                    length-load filled 0 16,
                    get_u32-as_memory filled 16 12 (omega arith),
                  )))
            (λ z. z) some_bytes
            (recv_pack_data-Follows filled f _ _ refl size file refl refl (ground arith)
              (omega arith)))
    ]

  head_got :
      (bs : List ℕ) (inbox : List Segment)
      → Takes (recv_len 16 t.buf.has_proc_len) net (got bs, inbox)
      → Follows start net (head_received t net (got bs, inbox))
  unfolding head_received
  head_got bs inbox (e, some_bytes, most) =
      let fits : t.buf.has_proc_len + length bs ≤ 16 =
        omega (arith, recv_len_small 16 t.buf.has_proc_len) in
      let room : leb (t.buf.has_proc_len + length bs) t.buf.mem_len ≡ true =
        ground (arith, fits, size) in
      rw (block, room)
        elim (Bool-cases (t.buf.has_proc_len + length bs == 16)) [
          | inl whole ↦ rw whole (whole-Follows bs some_bytes fits inbox e whole)
          | inr part ↦ rw part (
            bs,
            e,
            inl (part_Tracks bs some_bytes fits part),
            inl (nonzero bs some_bytes),
            inl some_bytes,
          )
        ]

  pub head-Follows :
      (r : Received × List Segment)
      → Takes (recv_len 16 t.buf.has_proc_len) net r
      → Follows start net (head_received t net r)
  unfolding head_received feed_all
  head-Follows (got bs, inbox) k = head_got bs inbox k
  head-Follows (closed, inbox) (e, inl z) =
      absurd
        (omega (arith, z, recv_len_pos 16 t.buf.has_proc_len under (omega arith) (omega arith)))
  head-Follows (closed, inbox) (e, inr (gone, down)) =
      ([], e, inl here, inr (inl down), inr (inl (ap pending gone)))
  head-Follows (failed, inbox) (e, gone) =
      ([], e, inl here, inl (λ z. cc), inr (inl (ap pending gone)))

-- Behind a packet without data `recv` is asked for no byte, and returns 0.
pub recv_pack_data_signalled :
    (t : Task) (net : Net)
    → t.buf.total_len ≡ 0
    → t.buf.has_proc_len ≡ 0
    → recv_pack_data t net ≡ returns (pos 0, t, net)
unfolding recv_pack_data
recv_pack_data_signalled t net z e =
    ap (λ n. body_received t net (recv n net)) {y = 0}
      (recv_len_zero t.buf.total_len t.buf.has_proc_len z e)

Stands-Follows :
    (m : Memory) (f : List ℕ) (t : Task) (x : Feed) (net : Net)
    → t.buf.block ≡ some m
    → t.buf.mem_len ≡ recv_mem_len
    → t.file ≡ some f
    → Stands m f t x
    → Follows x net (read_buffer t net)
unfolding read_buffer feed_all
Stands-Follows m f t x net block size file (in_head h lt) = simp h (
    head-Follows m f t net block size file h lt (recv (recv_len 16 t.buf.has_proc_len) net)
      (recv-Takes (recv_len 16 t.buf.has_proc_len) net))
Stands-Follows m f t x net block size file (signalled d z e) =
    simp (d, recv_pack_data_signalled t net z e)
      (
        [],
        refl,
        inl (record {
          bytes = m;
          content = f;
          block = block;
          size = size;
          file = file;
          stands = signalled d z e;
        }),
        inr (inr tt),
        inr (inr tt),
      )
Stands-Follows m f t x net block size file (in_data d a lt w) =
    simp d (recv_pack_data-Follows m f t net block size file d a lt w)

-- Each read event takes bytes off the connection, and leaves the task where the packets of the
-- stream put it behind those bytes, however the stream is cut into pieces and wherever a packet
-- begins or ends in them. Foreign memory is touched only if the bytes read are malformed. The
-- event returns 0 only if the peer has closed or a packet without data was the last one, and reads
-- nothing only if nothing is there or in that last case.
pub read_buffer-Follows :
    (t : Task) (x : Feed) (net : Net) → Tracks t x → Follows x net (read_buffer t net)
read_buffer-Follows t x net k =
    Stands-Follows k.bytes k.content t x net k.block k.size k.file k.stands
