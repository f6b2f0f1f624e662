-- ===== src/FileSend/Starting/Arrival.antt =====
-- The client's command to start, as it arrives in pieces at the sending task (TaskFileSend.cpp).
use files_event.Prelude.{
  ℕ, ◌+◌, ◌-◌, ◌≤◌, ◌<◌, ◌≡◌, ◌≢◌, refl, ap, sym, subst, ◌∙◌, arith, List, [], ◌∷◌, ◌++◌,
  append_assoc, append-nil, length, length-append, length-eq-zero, take, drop, leb, ◌==◌,
  if◌then◌else◌, Bool, Bool-cases, ◌⊎◌, inl, inr, pos, ℤ, true, false, Run, returns,
}
use files_event.Memory.{
  Memory, store, load, length-load, load-add, load-store_append, get_u32, get_u32-as_memory,
  as_memory,
}
use files_event.Posix.{
  Net, Segment, Received, got, closed, failed, recv, pending, Takes, recv-Takes,
}
use files_event.Wire.{code_of, control_play, head_bytes, net_flag}
use files_event.Buffers.{CmdBuffer, reset_cmd}
use files_event.Transport.{recv_len, decimal}
use files_event.Transport.Sending.{recv_len_small}
use files_event.Transport.Waiting.{length-decimal-le}
use files_event.FileRecv.{start_request}
use files_event.FileRecv.Commands.{packet_of}
use files_event.FileSend.{Task}
use files_event.FileSend.Reading.{
  read_buffer, head_received, head_end, recv_pack_data, body_received, command_end, control,
  text_of, pack_head_len,
}
use files_event.FileSend.Starting.{control-start}
use files_event.Transfer.Packets.{head_field_alone, head_fields, length-packet}

-- Only what is received differs.
abbrev pub SameButInput : Task → Task → Type 0
SameButInput t t' = t' ≡ record t { recv = t'.recv }

module _ (total : ℕ) where
  -- The data of the command, and the packet.
  abbrev body : List ℕ
  body = start_request total

  abbrev pub start_packet : List ℕ
  start_packet = packet_of (code_of control_play) 0 (start_request total)

  body_bounds : (0 < length body) × (length body ≤ 100)
  body_bounds = (
    omega (arith, length-append (decimal total) (34 ∷ 32 ∷ 47 ∷ 62 ∷ 0 ∷ [])),
    omega (
      arith,
      length-append (decimal total) (34 ∷ 32 ∷ 47 ∷ 62 ∷ 0 ∷ []),
      length-decimal-le total,
    ),
  )

  length-whole : length start_packet ≡ 16 + length body
  length-whole = length-packet _ body

  pub length-start_packet-le : length start_packet ≤ 116
  length-start_packet-le = omega (arith, length-whole, body_bounds)

  -- What was read of the command stands at the start of the buffer.
  abbrev Place : Task → ℕ → Type 0
  Place t k =
      ((t.recv.proc_cmmd ≡ true) × (t.recv.has_proc_len ≡ k) × (k < 16))
      ⊎ ((t.recv.proc_cmmd ≡ false)
          × (t.recv.total_len ≡ length (start_request total))
          × (k ≡ 16 + t.recv.has_proc_len)
          × (t.recv.has_proc_len < length (start_request total)))

  -- The task has read `so_far` bytes of the command, and the rest is in the socket.
  pub record Waits (t : Task) (ss : List Segment) : Type 0 where
    pub so_far : ℕ
    pub taken :
        load t.recv.cmmd 0 so_far ++ pending ss
        ≡ packet_of (code_of control_play) 0 (start_request total)
    pub stands : Place t so_far

  abbrev Result : Type 0
  Result = ℤ × Task × Net × Bool

  -- A read event reads more of the command, or it has all of it and asks for the write event.
  abbrev pub Turn : Task → Net → Run (ℤ × Task × Net × Bool) → Type 0
  Turn t net r =
      ((ret : ℤ) × (t' : Task) × (ss : List Segment) × (r
          ≡ returns (ret, t', record net { inbox = ss }, false))
        × Waits t' ss
        × SameButInput t t'
        × (length (pending ss) < length (pending net.inbox)))
      ⊎ ((ret : ℤ) × (ss : List Segment) × (r
            ≡ returns (ret, record t { recv = reset_cmd }, record net { inbox = ss }, true))
          × (pending ss ≡ []))

  is_same : {a b : ℕ} → (a == b) ≡ true → a ≡ b
  is_same e = ground arith

  is_other : {a b : ℕ} → (a == b) ≡ false → a ≢ b
  is_other e = ground arith

  -- The whole packet in the buffer is a command to start.
  commanded :
      (m : Memory) (t : Task)
      → load m 0 (16 + length body) ≡ start_packet
      → (get_u32 m 4 ≡ code_of control_play) × (control m t ≡ returns (t, true))
  unfolding head_bytes files_event.Memory.u32_bytes load
  commanded m t e =
      let l : ℕ = length body in
      let same : load m 16 l ≡ body = ap (drop 16) (sym (load-add m 0 16 l) ∙ e) in
      let split : 1484 ≡ l + (1484 - l) = omega (arith, body_bounds) in
      let text : text_of m ≡ body ++ load m (16 + l) (1484 - l) =
        ap (load m 16) split
        ∙ load-add m 16 l (1484 - l)
        ∙ ap (λ xs. xs ++ load m (16 + l) (1484 - l)) same in
      (
        sym (get_u32-as_memory m (16 + l) 4 (omega arith))
            ∙ ap (λ x. get_u32 (as_memory x) 4) e
            ∙ (head_fields
                (record { flag = net_flag; cmd = code_of control_play; index = 0; length = l }) body
                (omega arith) (omega (arith, body_bounds))).0,
        control-start m t total (load m (16 + l) (1484 - l)) text,
      )

  command_end-starts :
      (m : Memory) (ret : ℤ) (t : Task) (net : Net)
      → load m 0 (16 + length body) ≡ start_packet
      → command_end m ret t net ≡ returns (ret, record t { recv = reset_cmd }, net, true)
  unfolding command_end
  command_end-starts m ret t net e =
      let (cmd, c) = commanded m t e in
      let is_play : (get_u32 m 4 == code_of control_play) ≡ true = ground (arith, cmd) in
      rw (is_play, c) refl

  -- The bytes that were read and those in the socket are the packet.
  whole_length :
      (m : Memory) (k : ℕ) (ss : List Segment)
      → load m 0 k ++ pending ss ≡ start_packet
      → k + length (pending ss) ≡ 16 + length body
  whole_length m k ss e =
      omega (
        arith,
        ap length e,
        length-append (load m 0 k) (pending ss),
        length-load m 0 k,
        length-whole,
      )

  grown :
      (m : Memory) (k : ℕ) (bs : List ℕ) (net : Net) (ss : List Segment)
      → load m 0 k ++ pending net.inbox ≡ start_packet
      → pending net.inbox ≡ bs ++ pending ss
      → load (store m k bs) 0 (k + length bs) ++ pending ss ≡ start_packet
  grown m k bs net ss taken p =
      ap (λ x. x ++ pending ss) (load-store_append m k bs)
      ∙ append_assoc (load m 0 k) bs (pending ss)
      ∙ ap (λ x. load m 0 k ++ x) (sym p)
      ∙ taken

  body-Turn :
      (t : Task) (net : Net)
      → t.recv.proc_cmmd ≡ false
      → load t.recv.cmmd 0 (16 + t.recv.has_proc_len) ++ pending net.inbox ≡ start_packet
      → t.recv.total_len ≡ length body
      → t.recv.has_proc_len < length body
      → Turn t net (recv_pack_data t net)
  unfolding recv_pack_data body_received
  body-Turn t net away taken told under =
      go (recv (recv_len t.recv.total_len t.recv.has_proc_len) net)
        (recv-Takes (recv_len t.recv.total_len t.recv.has_proc_len) net)
    where
      has : ℕ
      has = t.recv.has_proc_len

      left : recv_len t.recv.total_len t.recv.has_proc_len ≡ length body - has
      left = rw told (recv_len_small (length body) has (omega (arith, body_bounds)) (omega arith))

      some_left : 0 < length (pending net.inbox)
      some_left = omega (arith, whole_length t.recv.cmmd (16 + has) net.inbox taken)

      go :
          (r : Received × List Segment)
          → Takes (recv_len t.recv.total_len t.recv.has_proc_len) net r
          → Turn t net (body_received t net r)
      go (closed, ss) (p, inl e) = absurd (omega (arith, left))
      go (closed, ss) (p, inr (e, up)) =
          absurd (omega (arith, some_left, ap (λ x. length (pending x)) e))
      go (failed, ss) (p, e) = absurd (omega (arith, some_left, ap (λ x. length (pending x)) e))
      go (got bs, ss) (p, q, h) =
          let m : Memory = store t.recv.cmmd (16 + has) bs in
          let room : leb (16 + has + length bs) 1500 ≡ true = ground (arith, left, body_bounds) in
          let loaded : load m 0 (16 + has + length bs) ++ pending ss ≡ start_packet =
            grown t.recv.cmmd (16 + has) bs net ss taken p in
          elim (Bool-cases (has + length bs == t.recv.total_len)) [
            | inl all_in ↦
                let now : 16 + has + length bs ≡ 16 + length body =
                  omega (arith, is_same all_in, told) in
                let none_left : pending ss ≡ [] =
                  length-eq-zero (pending ss)
                    (omega (arith, whole_length m (16 + has + length bs) ss loaded)) in
                let whole : load m 0 (16 + length body) ≡ start_packet =
                  ap (load m 0) (sym now)
                  ∙ sym (append-nil _)
                  ∙ ap (λ x. load m 0 (16 + has + length bs) ++ x) (sym none_left)
                  ∙ loaded in
                rw (room, all_in)
                  (inr (
                    pos (length bs),
                    ss,
                    command_end-starts m (pos (length bs)) _ _ whole,
                    none_left,
                  ))
            | inr more ↦
                rw (room, more)
                  (inl (
                    pos (length bs),
                    record t {
                      recv = record (t.recv) { cmmd = m; has_proc_len = has + length bs };
                    },
                    ss,
                    refl,
                    record {
                      so_far = 16 + has + length bs;
                      taken = loaded;
                      stands =
                          inr (away, told, omega arith, omega (arith, left, told, is_other more));
                    },
                    refl,
                    omega (arith, ap length p, length-append bs (pending ss)),
                  ))
          ]

  -- The length that a whole head tells.
  told_len :
      (m : Memory) (rest : List ℕ) → load m 0 16 ++ rest ≡ start_packet → get_u32 m 12 ≡ length body
  unfolding load head_bytes files_event.Memory.u32_bytes
  told_len m rest e =
      sym (get_u32-as_memory m 16 12 (omega arith))
      ∙ ap (λ x. get_u32 (as_memory x) 12) (ap (take 16) e)
      ∙ head_field_alone
          (record { flag = net_flag; cmd = code_of control_play; index = 0; length = length body })
          (omega (arith, body_bounds))

  earlier :
      (t : Task) (net : Net) (ss : List Segment) (r : Run Result) (b : CmdBuffer)
      → length (pending ss) ≤ length (pending net.inbox)
      → Turn (record t { recv = b }) (record net { inbox = ss }) r
      → Turn t net r
  earlier t net ss r b h (inl (ret, t', ss', e, waits, same, less)) =
      inl (ret, t', ss', e, waits, same, omega arith)
  earlier t net ss r b h (inr started) = inr started

  head-Turn :
      (t : Task) (net : Net)
      → t.recv.proc_cmmd ≡ true
      → load t.recv.cmmd 0 t.recv.has_proc_len ++ pending net.inbox ≡ start_packet
      → t.recv.has_proc_len < 16
      → Turn t net (head_received t net (recv (recv_len pack_head_len t.recv.has_proc_len) net))
  unfolding head_received head_end
  head-Turn t net first taken under =
      go (recv (recv_len pack_head_len t.recv.has_proc_len) net)
        (recv-Takes (recv_len pack_head_len t.recv.has_proc_len) net)
    where
      has : ℕ
      has = t.recv.has_proc_len

      left : recv_len pack_head_len t.recv.has_proc_len ≡ 16 - has
      left = recv_len_small 16 has (omega arith) (omega arith)

      some_left : 0 < length (pending net.inbox)
      some_left = omega (arith, whole_length t.recv.cmmd has net.inbox taken)

      go :
          (r : Received × List Segment)
          → Takes (recv_len pack_head_len t.recv.has_proc_len) net r
          → Turn t net (head_received t net r)
      go (closed, ss) (p, inl e) = absurd (omega (arith, left))
      go (closed, ss) (p, inr (e, up)) =
          absurd (omega (arith, some_left, ap (λ x. length (pending x)) e))
      go (failed, ss) (p, e) = absurd (omega (arith, some_left, ap (λ x. length (pending x)) e))
      go (got bs, ss) (p, q, h) =
          let m : Memory = store t.recv.cmmd has bs in
          let room : leb (has + length bs) 1500 ≡ true = ground (arith, left) in
          let loaded : load m 0 (has + length bs) ++ pending ss ≡ start_packet =
            grown t.recv.cmmd has bs net ss taken p in
          elim (Bool-cases (has + length bs == pack_head_len)) [
            | inl all_in ↦
                let now : has + length bs ≡ 16 = omega (arith, is_same all_in) in
                let head_in : load m 0 16 ++ pending ss ≡ start_packet =
                  ap (λ k. load m 0 k ++ pending ss) (sym now) ∙ loaded in
                let b : CmdBuffer = record (t.recv) {
                  cmmd = m;
                  total_len = get_u32 m 12;
                  proc_cmmd = false;
                  has_proc_len = 0;
                } in
                rw (room, all_in)
                  (earlier t net ss
                    (recv_pack_data (record t { recv = b }) (record net { inbox = ss })) b
                    (omega (arith, ap length p, length-append bs (pending ss)))
                    (body-Turn (record t { recv = b }) (record net { inbox = ss }) refl head_in
                      (told_len m (pending ss) head_in) body_bounds.0))
            | inr more ↦
                rw (room, more)
                  (inl (
                    pos (length bs),
                    record t {
                      recv = record (t.recv) { cmmd = m; has_proc_len = has + length bs };
                    },
                    ss,
                    refl,
                    record {
                      so_far = has + length bs;
                      taken = loaded;
                      stands = inl (first, refl, omega (arith, left, is_other more));
                    },
                    refl,
                    omega (arith, ap length p, length-append bs (pending ss)),
                  ))
          ]

  -- One read event, in the head or behind it.
  pub read_buffer-Turn : (t : Task) (net : Net) → Waits t net.inbox → Turn t net (read_buffer t net)
  unfolding read_buffer
  read_buffer-Turn t net v = go v.stands
    where
      reads : Bool → Run Result
      reads b =
          if b
          then head_received t net (recv (recv_len pack_head_len t.recv.has_proc_len) net)
          else recv_pack_data t net

      go : Place t v.so_far → Turn t net (reads t.recv.proc_cmmd)
      go (inl (first, k, under)) =
          subst (λ b. Turn t net (reads b)) (sym first)
            (head-Turn t net first (ap (λ i. load t.recv.cmmd 0 i ++ pending net.inbox) k ∙ v.taken)
              (omega arith))
      go (inr (away, told, k, under)) =
          subst (λ b. Turn t net (reads b)) (sym away)
            (body-Turn t net away
              (ap (λ i. load t.recv.cmmd 0 i ++ pending net.inbox) (sym k) ∙ v.taken) told under)

  pub Waits-some_left : (t : Task) (ss : List Segment) → Waits t ss → 0 < length (pending ss)
  Waits-some_left t ss v = go v.stands
    where
      go : Place t v.so_far → 0 < length (pending ss)
      go (inl (first, k, under)) = omega (arith, whole_length t.recv.cmmd v.so_far ss v.taken)
      go (inr (away, told, k, under)) = omega (arith, whole_length t.recv.cmmd v.so_far ss v.taken)

  -- At the start of the command nothing was read of it.
  pub fresh-Waits :
      (t : Task) (ss : List Segment)
      → t.recv.proc_cmmd ≡ true
      → t.recv.has_proc_len ≡ 0
      → pending ss ≡ start_packet
      → Waits t ss
  unfolding load
  fresh-Waits t ss first none_yet here = record {
    so_far = 0;
    taken = here;
    stands = inl (first, none_yet, omega arith);
  }
