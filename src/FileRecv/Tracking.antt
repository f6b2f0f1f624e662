-- ===== src/FileRecv/Tracking.antt =====
-- How a `TaskFileRecv` stands for a position in the server's stream, and what a whole packet does.
use files_event.Prelude.{
  ℕ, ◌+◌, ◌≤◌, ◌<◌, ◌≡◌, refl, ◌⊎◌, inl, inr, List, [], ◌++◌, arith, length, ◌==◌, leb, true, false,
  some, ℤ, Run, returns, fault, blocked, ◌>>=◌, Bool-cases, leb→le,
}
use files_event.Memory.{
  Memory, load, load_ext, get_or-load_zero, as_memory, get_u32, get_u32-as_memory, length-load,
}
use files_event.Posix.{Net}
use files_event.Wire.{code_of, files, loginret, control_play}
use files_event.Buffers.{reset}
use files_event.Transport.{size_of_int, add_int}
use files_event.FileRecv.{
  Task, recv_mem_len, packet_end, files_packet, loginret_packet, send_cmd, start_request,
}
use files_event.Transport.Sending.{size_of_int_small}
use files_event.FileRecv.Stream.{Saved, Feed, awaiting, ended, malformed, act, frame, announce}
use files_event.FileRecv.Commands.{Commands, packet_of, send_cmd-Commands}

abbrev pub saved : List ℕ → Task → Saved
saved f t = record { content = f; expected = t.total_len; count = t.recv_data_len }

-- Where the task stands in its buffer `m`: within a head, behind a packet without data, or within
-- the data of a packet.
pub data Stands (m : Memory) (f : List ℕ) (t : Task) : Feed → Type 0 where
  in_head :
      t.buf.proc_cmmd ≡ true
      → t.buf.has_proc_len < 16
      → Stands m f t (awaiting (load m 0 t.buf.has_proc_len) (saved f t))
  signalled :
      t.buf.proc_cmmd ≡ false
      → t.buf.total_len ≡ 0
      → t.buf.has_proc_len ≡ 0
      → Stands m f t (ended (saved f t))
  in_data :
      t.buf.proc_cmmd ≡ false
      → t.buf.total_len ≡ get_u32 m 12
      → t.buf.has_proc_len < t.buf.total_len
      → 16 + t.buf.has_proc_len ≤ recv_mem_len
      → Stands m f t (awaiting (load m 0 (16 + t.buf.has_proc_len)) (saved f t))

pub record Tracks (t : Task) (x : Feed) : Type 0 where
  pub bytes : Memory
  pub content : List ℕ
  pub block : t.buf.block ≡ some bytes
  pub size : t.buf.mem_len ≡ recv_mem_len
  pub file : t.file ≡ some content
  pub stands : Stands bytes content t x

-- A packet has been acted on: nothing more was read, and the task is where the stream says.
abbrev pub Acts : ℤ → Net → Feed → Run (ℤ × Task × Net) → Type 0
Acts ret net x (returns (ret', t', net')) =
    (ret' ≡ ret)
    × (net'.inbox ≡ net.inbox)
    × (net'.peer_open ≡ net.peer_open)
    × (Tracks t' x ⊎ (x ≡ malformed))
Acts ret net x fault = x ≡ malformed
Acts ret net x blocked = Unit {0}

-- The packet `p` that the buffer holds.
module _ (m : Memory) (f : List ℕ) (t : Task) (net : Net) (n : ℕ) (ret : ℤ)
    (block : t.buf.block ≡ some m) (size : t.buf.mem_len ≡ recv_mem_len) (file : t.file ≡ some f)
    (fits : n ≤ recv_mem_len) where
  abbrev p : List ℕ
  p = load m 0 n

  -- The bytes within the packet can be read off the list.
  load-packet : (off k : ℕ) → off + k ≤ n → load (as_memory p) off k ≡ load m off k
  load-packet off k h =
      load_ext (as_memory p) m off k (λ i a b. get_or-load_zero m n i (omega arith))

  restarted :
      (t' : Task) (x : Feed) (f' : List ℕ)
      → t'.buf.block ≡ some m
      → t'.buf.mem_len ≡ recv_mem_len
      → t'.file ≡ some f'
      → x ≡ awaiting [] (saved f' t')
      → Tracks (record t' { buf = reset t'.buf }) x
  unfolding reset load
  restarted t' x f' b z e w = record {
    bytes = m;
    content = f';
    block = b;
    size = z;
    file = e;
    stands = rw w (in_head refl (omega arith));
  }

  pub frame-Acts :
      Acts ret net (frame p (saved f t)) (
        files_packet m t net >>= λ (t', net').
        returns (ret, record t' { buf = reset t'.buf }, net'))
  unfolding files_packet frame
  frame-Acts = elim (Bool-cases (leb (24 + get_u32 (as_memory p) 20) (length p))) [
    | inr short ↦
        rw (short, file)
          elim (Bool-cases (leb (24 + size_of_int (get_u32 m 20)) t.buf.mem_len)) [
            | inl e ↦ rw e (refl, refl, refl, inr refl)
            | inr e ↦ rw e refl
          ]
    | inl long ↦
        let inside : 24 + get_u32 (as_memory p) 20 ≤ n =
          omega (arith, leb→le _ _ long, length-load m 0 n) in
        let field : get_u32 (as_memory p) 20 ≡ get_u32 m 20 =
          get_u32-as_memory m n 20 (omega arith) in
        let small : size_of_int (get_u32 m 20) ≡ get_u32 m 20 =
          size_of_int_small (get_u32 m 20) (omega arith) in
        let room : leb (24 + get_u32 m 20) t.buf.mem_len ≡ true =
          ground (arith, inside, field, size) in
        rw (long, file, small, room, field)
          (
            refl,
            refl,
            refl,
            inl (
                restarted
                  (record t {
                    file = some (f ++ load m 24 (get_u32 m 20));
                    recv_data_len = add_int t.recv_data_len (get_u32 m 20);
                  })
                  _ (f ++ load m 24 (get_u32 m 20)) block size refl
                  (rw (load-packet 24 (get_u32 m 20) (omega arith)))),
          )
  ]

  -- The announced length, and "start" in reply.
  start-Acts :
      (r : Run (ℤ × Net)) (total : ℕ) (x : Feed)
      → Commands (packet_of (code_of control_play) 0 (start_request total)) net r
      → (x ≡ awaiting [] (record { content = f; expected = total; count = t.recv_data_len }))
        ⊎ (x ≡ malformed)
      → Acts ret net x (
          r >>= (λ (_, net'). returns (record t { total_len = total }, net')) >>= λ (t', net').
          returns (ret, record t' { buf = reset t'.buf }, net'))
  start-Acts (returns (r, net')) total x (i, o, _) (inl e) =
      (refl, i, o, inl (restarted (record t { total_len = total }) x f block size file e))
  start-Acts (returns (r, net')) total x (i, o, _) (inr e) = (refl, i, o, inr e)
  start-Acts fault total x c e = absurd c
  start-Acts blocked total x c e = tt

  announce_cases :
      (announce p (saved f t)
        ≡ awaiting [] (record { content = f; expected = get_u32 m 28; count = t.recv_data_len }))
      ⊎ (announce p (saved f t) ≡ malformed)
  unfolding announce
  announce_cases = elim (Bool-cases (leb 32 (length p))) [
    | inr short ↦ inr (rw short)
    | inl long ↦
        inl
          (rw (long, get_u32-as_memory m n 28 (omega (arith, leb→le _ _ long, length-load m 0 n))))
  ]

  announce-Acts : Acts ret net (announce p (saved f t)) (
      loginret_packet m t net >>= λ (t', net').
      returns (ret, record t' { buf = reset t'.buf }, net'))
  unfolding loginret_packet
  announce-Acts =
      start-Acts (send_cmd (code_of control_play) 0 (start_request (get_u32 m 28)) net)
        (get_u32 m 28) _
        (send_cmd-Commands (code_of control_play) 0 (start_request (get_u32 m 28)) net)
        announce_cases

  -- A whole packet does to the task what it means in the stream.
  pub packet-Acts : 8 ≤ n → Acts ret net (act p (saved f t)) (packet_end m ret t net)
  unfolding packet_end act
  packet-Acts h =
      rw (get_u32-as_memory m n 4 (omega arith)) elim (Bool-cases (get_u32 m 4 == code_of files)) [
        | inl e ↦ rw e frame-Acts
        | inr e ↦ rw e elim (Bool-cases (get_u32 m 4 == code_of loginret)) [
          | inl e' ↦ rw e' announce-Acts
          | inr e' ↦ rw e' (refl, refl, refl, inl (restarted t _ f block size file refl))
        ]
      ]
