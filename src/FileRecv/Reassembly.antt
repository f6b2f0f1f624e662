-- ===== src/FileRecv/Reassembly.antt =====
-- `readBuffer` of TaskFileRecv.cpp against the stream that it reads.
use files_event.Prelude.{
  ℕ, ◌+◌, ◌-◌, ◌^◌, ◌≤◌, ◌<◌, ◌≡◌, ◌≢◌, refl, ap, sym, ◌∙◌, ◌⊎◌, inl, inr, List, [], ◌∷◌, ◌++◌,
  append_assoc, arith, length, ◌==◌, leb, leb→le, true, false, some, ℤ, pos, Run, returns, fault,
  blocked, Bool-cases, length-append, take, drop, length-take, take-append-drop,
}
use native.Mathlib.Decide.{dec_lt}
use files_event.Memory.{
  Memory, store, load, as_memory, get_u32, get_u32-as_memory, length-load, load-store_append,
  get_u32-store_below, get_u32-lt,
}
use files_event.Posix.{
  Net, Segment, Received, got, closed, failed, recv, pending, Takes, recv-Takes,
}
use files_event.Transport.{recv_len}
use files_event.Transport.Sending.{recv_len_small, recv_len_pos}
use files_event.FileRecv.{Task, recv_mem_len, body_received, recv_pack_data}
use files_event.FileRecv.Stream.{
  Feed, awaiting, ended, malformed, act, collected, feed_all, body_fed, collected_whole,
  collected_over, collected_part,
}
use files_event.FileRecv.Tracking.{saved, in_data, Tracks, Acts, packet-Acts}

abbrev pub IsEnded : Feed → Type 0
IsEnded (awaiting p s) = ⊥
IsEnded (ended s) = Unit {0}
IsEnded malformed = ⊥

-- The call has read `bs` off the connection, and the task is where the stream is behind `bs`, unless
-- those bytes are malformed. It returns 0 only if the peer has closed the connection, or if the
-- last packet was a signal; and `bs` is empty only if nothing was there, or in that last case.
abbrev pub Follows : Feed → Net → Run (ℤ × Task × Net) → Type 0
Follows x net (returns (ret, t', net')) =
    (bs : List ℕ) × (pending net.inbox ≡ bs ++ pending net'.inbox)
    × (Tracks t' (feed_all x bs) ⊎ (feed_all x bs ≡ malformed))
    × ((ret ≢ pos 0) ⊎ (net.peer_open ≡ false) ⊎ IsEnded x)
    × ((0 < length bs) ⊎ (pending net.inbox ≡ []) ⊎ IsEnded x)
Follows x net fault =
    (bs rest : List ℕ) × (pending net.inbox ≡ bs ++ rest) × (feed_all x bs ≡ malformed)
Follows x net blocked = Unit {0}

-- A packet that is whole once `bs` has been read.
pub acted :
    (x y : Feed) (net : Net) (bs : List ℕ) (inbox : List Segment) (ret : ℤ)
    (r : Run (ℤ × Task × Net))
    → pending net.inbox ≡ bs ++ pending inbox
    → feed_all x bs ≡ y
    → ret ≢ pos 0
    → 0 < length bs
    → Acts ret (record net { inbox = inbox }) y r
    → Follows x net r
acted x y net bs inbox ret (returns (ret', t', net')) e f ne some_bytes (er, ei, eo, inl k) = (
  bs,
  e ∙ ap (λ i. bs ++ pending i) (sym ei),
  inl (rw f k),
  inl (λ z. ne (sym er ∙ z)),
  inl some_bytes,
)
acted x y net bs inbox ret (returns (ret', t', net')) e f ne some_bytes (er, ei, eo, inr k) = (
  bs,
  e ∙ ap (λ i. bs ++ pending i) (sym ei),
  inr (f ∙ k),
  inl (λ z. ne (sym er ∙ z)),
  inl some_bytes,
)
acted x y net bs inbox ret fault e f ne some_bytes k = (bs, pending inbox, e, f ∙ k)
acted x y net bs inbox ret blocked e f ne some_bytes k = tt

pub nonzero : (bs : List ℕ) → 0 < length bs → pos (length bs) ≢ pos 0
nonzero [] h = absurd (omega arith)
nonzero (b ∷ bs) h = λ e. cc

-- One `recv` for the data of a packet.
module _ (m : Memory) (f : List ℕ) (t : Task) (net : Net) (block : t.buf.block ≡ some m)
    (size : t.buf.mem_len ≡ recv_mem_len) (file : t.file ≡ some f)
    (data_now : t.buf.proc_cmmd ≡ false) (announced : t.buf.total_len ≡ get_u32 m 12)
    (under : t.buf.has_proc_len < t.buf.total_len)
    (within : 16 + t.buf.has_proc_len ≤ recv_mem_len) where
  abbrev start : Feed
  start = awaiting (load m 0 (16 + t.buf.has_proc_len)) (saved f t)

  field : get_u32 (as_memory (load m 0 (16 + t.buf.has_proc_len))) 12 ≡ t.buf.total_len
  field = get_u32-as_memory m (16 + t.buf.has_proc_len) 12 (omega arith) ∙ sym announced

  -- The bytes of one `recv` do not reach past the packet's end.
  stays_within :
      (bs : List ℕ)
      → length bs ≤ recv_len t.buf.total_len t.buf.has_proc_len
      → 16 + t.buf.has_proc_len + length bs ≤ recv_mem_len
      → t.buf.has_proc_len + length bs ≤ t.buf.total_len
  stays_within bs most room = elim (dec_lt t.buf.total_len (2 ^ 31)) [
    | yes small ↦ omega (arith, recv_len_small t.buf.total_len t.buf.has_proc_len small)
    | no large ↦ omega arith
  ]

  too_long :
      (bs : List ℕ)
      → length bs ≤ recv_len t.buf.total_len t.buf.has_proc_len
      → recv_mem_len < 16 + t.buf.has_proc_len + length bs
      → recv_mem_len < 16 + t.buf.total_len
  too_long bs most over = elim (dec_lt t.buf.total_len (2 ^ 31)) [
    | yes small ↦ omega (arith, recv_len_small t.buf.total_len t.buf.has_proc_len small)
    | no large ↦ omega arith
  ]

  fed :
      (bs : List ℕ)
      → 0 < length bs
      → t.buf.has_proc_len + length bs ≤ t.buf.total_len
      → feed_all start bs ≡ collected (load m 0 (16 + t.buf.has_proc_len) ++ bs) (saved f t)
  fed bs some_bytes short =
      body_fed (load m 0 (16 + t.buf.has_proc_len)) (saved f t) bs some_bytes
        (omega (arith, length-load m 0 (16 + t.buf.has_proc_len))) (omega (arith, field))
        (omega (arith, field, length-load m 0 (16 + t.buf.has_proc_len)))

  -- The bytes that would not fit break the stream's packet.
  overruns :
      (bs : List ℕ) (inbox : List Segment)
      → Takes (recv_len t.buf.total_len t.buf.has_proc_len) net (got bs, inbox)
      → recv_mem_len < 16 + t.buf.has_proc_len + length bs
      → Follows start net fault
  overruns bs inbox (e, some_bytes, most) over =
      let k : ℕ = recv_mem_len + 1 - (16 + t.buf.has_proc_len) in
      let longer : recv_mem_len < 16 + t.buf.total_len = too_long bs most over in
      let count : length (take k bs) ≡ k = omega (arith, length-take k bs) in
      (
        take k bs,
        drop k bs ++ pending inbox,
        e
            ∙ ap (λ r. r ++ pending inbox) (sym (take-append-drop k bs))
            ∙ append_assoc (take k bs) (drop k bs) (pending inbox),
        fed (take k bs) (omega arith) (omega arith)
            ∙ collected_over (load m 0 (16 + t.buf.has_proc_len) ++ take k bs) (saved f t) (
                omega (
                  arith,
                  length-append (load m 0 (16 + t.buf.has_proc_len)) (take k bs),
                  length-load m 0 (16 + t.buf.has_proc_len),
                )),
      )

  -- The buffer behind one `recv` whose bytes fit.
  module _ (bs : List ℕ) (some_bytes : 0 < length bs)
      (fits : 16 + t.buf.has_proc_len + length bs ≤ recv_mem_len)
      (short : t.buf.has_proc_len + length bs ≤ t.buf.total_len) where
    abbrev filled : Memory
    filled = store m (16 + t.buf.has_proc_len) bs

    abbrev n : ℕ
    n = 16 + t.buf.has_proc_len + length bs

    kept_field : get_u32 filled 12 ≡ get_u32 m 12
    kept_field = get_u32-store_below m (16 + t.buf.has_proc_len) bs 12 (omega arith)

    seen : get_u32 (as_memory (load filled 0 n)) 12 ≡ t.buf.total_len
    seen = get_u32-as_memory filled n 12 (omega arith) ∙ kept_field ∙ sym announced

    now : feed_all start bs ≡ collected (load filled 0 n) (saved f t)
    now =
        fed bs some_bytes short
        ∙ ap (λ q. collected q (saved f t)) (sym (load-store_append m (16 + t.buf.has_proc_len) bs))

    now_whole :
        (t.buf.has_proc_len + length bs == t.buf.total_len) ≡ true
        → feed_all start bs ≡ act (load filled 0 n) (saved f t)
    now_whole whole =
        now
        ∙ collected_whole (load filled 0 n) (saved f t) (omega (arith, length-load filled 0 n))
            (omega (arith, seen)) (ground (arith, seen, length-load filled 0 n))

    now_part :
        (t.buf.has_proc_len + length bs == t.buf.total_len) ≡ false
        → feed_all start bs
          ≡ awaiting (load filled 0 (16 + (t.buf.has_proc_len + length bs))) (saved f t)
    now_part part =
        now
        ∙ collected_part (load filled 0 n) (saved f t) (omega (arith, length-load filled 0 n))
            (omega (arith, seen)) (λ e. ground (arith, e, part, seen, length-load filled 0 n))
        ∙ ap (λ k. awaiting (load filled 0 k) (saved f t)) {x = n}
            {y = 16 + (t.buf.has_proc_len + length bs)} (omega arith)

    part_Tracks :
        (t.buf.has_proc_len + length bs == t.buf.total_len) ≡ false
        → Tracks
            (record t {
              buf = record (t.buf) {
                has_proc_len = t.buf.has_proc_len + length bs;
                block = some filled;
              };
            })
            (feed_all start bs)
    part_Tracks part = rw (now_part part) (record {
      bytes = filled;
      content = f;
      block = refl;
      size = size;
      file = file;
      stands = in_data data_now (announced ∙ sym kept_field) (ground arith) (omega arith);
    })

  body_got :
      (bs : List ℕ) (inbox : List Segment)
      → Takes (recv_len t.buf.total_len t.buf.has_proc_len) net (got bs, inbox)
      → Follows start net (body_received t net (got bs, inbox))
  unfolding body_received
  body_got bs inbox (e, some_bytes, most) =
      rw block elim (Bool-cases (leb (16 + t.buf.has_proc_len + length bs) t.buf.mem_len)) [
        | inr over ↦ rw over (overruns bs inbox (e, some_bytes, most) (ground arith))
        | inl room ↦
            let fits : 16 + t.buf.has_proc_len + length bs ≤ recv_mem_len =
              omega (arith, leb→le _ _ room, size) in
            let short = stays_within bs most fits in
            rw room elim (Bool-cases (t.buf.has_proc_len + length bs == t.buf.total_len)) [
              | inl whole ↦ rw whole (
                  acted start _ net bs inbox (pos (length bs)) _ e
                    (now_whole bs some_bytes fits short whole) (nonzero bs some_bytes) some_bytes
                    (packet-Acts (store m (16 + t.buf.has_proc_len) bs) f _ _
                      (16 + t.buf.has_proc_len + length bs) (pos (length bs)) refl size file fits
                      (omega arith)))
              | inr part ↦ rw part (
                bs,
                e,
                inl (part_Tracks bs some_bytes fits short part),
                inl (nonzero bs some_bytes),
                inl some_bytes,
              )
            ]
      ]

  here : Tracks t start
  here = record {
    bytes = m;
    content = f;
    block = block;
    size = size;
    file = file;
    stands = in_data data_now announced under within;
  }

  body-Follows :
      (r : Received × List Segment)
      → Takes (recv_len t.buf.total_len t.buf.has_proc_len) net r
      → Follows start net (body_received t net r)
  unfolding body_received feed_all
  body-Follows (got bs, inbox) k = body_got bs inbox k
  body-Follows (closed, inbox) (e, inl z) = absurd (
      omega (
        arith,
        z,
        recv_len_pos t.buf.total_len t.buf.has_proc_len under (omega arith)
            (omega (arith, announced, get_u32-lt m 12)),
      ))
  body-Follows (closed, inbox) (e, inr (gone, down)) =
      ([], e, inl here, inr (inl down), inr (inl (ap pending gone)))
  body-Follows (failed, inbox) (e, gone) =
      ([], e, inl here, inl (λ z. cc), inr (inl (ap pending gone)))

  pub recv_pack_data-Follows : Follows start net (recv_pack_data t net)
  unfolding recv_pack_data
  recv_pack_data-Follows =
      body-Follows (recv (recv_len t.buf.total_len t.buf.has_proc_len) net)
        (recv-Takes (recv_len t.buf.total_len t.buf.has_proc_len) net)
