-- ===== src/Session/Arrival/Turns.antt =====
-- One read event of a session that waits for a request (Session.cpp), in the head and behind it.
use files_event.Prelude.{
  ℕ, ◌+◌, ◌-◌, ◌≤◌, ◌<◌, ◌≡◌, ◌≢◌, refl, ap, sym, ◌∙◌, arith, List, [], ◌++◌, append_assoc,
  append-nil, length, length-append, length-eq-zero, take, leb, ◌==◌, Bool-cases, inl, inr, pos, ℤ,
  true, false, some, Run,
}
use files_event.Memory.{
  Memory, store, load, length-load, load-add, load-store_append, store_after, get_u32,
  get_u32-as_memory, as_memory,
}
use files_event.Posix.{
  Net, Segment, Received, got, closed, failed, recv, pending, Takes, recv-Takes,
}
use files_event.Wire.{code_of, login, head_bytes, net_flag}
use files_event.Transport.{recv_len}
use files_event.Transport.Sending.{Willing, recv_len_small}
use files_event.FileRecv.{get_request}
use files_event.FileRecv.Commands.{packet_of}
use files_event.Session.{Session, no_task, head_len}
use files_event.Session.Requests.{Files, body_received, recv_pack_data, head_received}
use files_event.Transfer.Packets.{head_field_alone}
use files_event.Session.Asking.{length-request, Nameable}
use files_event.Session.Arrival.{Turn, length-whole, served}

module _ (files : Files) (junk : Memory) (junk_len : ℕ) (path content : List ℕ) (n : Nameable path)
    (there : files.exists path ≡ true) (opened : files.opens path ≡ some content) where
  is_same : {a b : ℕ} → (a == b) ≡ true → a ≡ b
  is_same e = ground arith

  is_other : {a b : ℕ} → (a == b) ≡ false → a ≢ b
  is_other e = ground arith

  pub body-Turn :
      (s : Session) (net : Net)
      → s.task ≡ no_task
      → s.head_now ≡ false
      → load s.buff 0 (16 + s.has_recv_len) ++ pending net.inbox
        ≡ packet_of (code_of login) 0 (get_request path)
      → s.buff (16 + length (get_request path)) ≡ 0
      → s.total_len ≡ length (get_request path)
      → s.has_recv_len < length (get_request path)
      → Willing net.answers 1048
      → Turn files junk junk_len path content net (recv_pack_data files junk junk_len s net)
  unfolding recv_pack_data body_received
  body-Turn s net idle away taken z total under w =
      go (recv (recv_len s.total_len s.has_recv_len) net)
        (recv-Takes (recv_len s.total_len s.has_recv_len) net)
    where
      l : ℕ
      l = length (get_request path)

      has : ℕ
      has = s.has_recv_len

      left : recv_len s.total_len s.has_recv_len ≡ l - has
      left =
          rw total (recv_len_small l has (omega (arith, length-request path, n.room)) (omega arith))

      some_left : 0 < length (pending net.inbox)
      some_left = omega (
        arith,
        ap length taken,
        length-append (load s.buff 0 (16 + has)) (pending net.inbox),
        length-load s.buff 0 (16 + has),
        length-whole files junk junk_len path content,
      )

      go :
          (r : Received × List Segment)
          → Takes (recv_len s.total_len s.has_recv_len) net r
          → Turn files junk junk_len path content net (body_received files junk junk_len s net r)
      go (closed, ss) (p, inl e) = absurd (omega (arith, left))
      go (closed, ss) (p, inr (e, up)) =
          absurd (omega (arith, some_left, ap (λ x. length (pending x)) e))
      go (failed, ss) (p, e) = absurd (omega (arith, some_left, ap (λ x. length (pending x)) e))
      go (got bs, ss) (p, q, h) =
          let m : Memory = store s.buff (16 + has) bs in
          let room : leb (16 + has + length bs) 1500 ≡ true =
            ground (arith, left, length-request path, n.room) in
          let loaded : load m 0 (16 + has + length bs) ++ pending ss
              ≡ packet_of (code_of login) 0 (get_request path) =
            ap (λ x. x ++ pending ss) (load-store_append s.buff (16 + has) bs)
            ∙ append_assoc (load s.buff 0 (16 + has)) bs (pending ss)
            ∙ ap (λ x. load s.buff 0 (16 + has) ++ x) (sym p)
            ∙ taken in
          let zero_behind : m (16 + l) ≡ 0 =
            store_after s.buff (16 + has) bs (16 + l) (omega (arith, left)) ∙ z in
          elim (Bool-cases (has + length bs == s.total_len)) [
            | inl all_in ↦
                let now : 16 + has + length bs ≡ 16 + l = omega (arith, is_same all_in, total) in
                let none_left : pending ss ≡ [] = length-eq-zero (pending ss) (
                  omega (
                    arith,
                    ap length loaded,
                    length-append (load m 0 (16 + has + length bs)) (pending ss),
                    length-load m 0 (16 + has + length bs),
                    length-whole files junk junk_len path content,
                  )) in
                rw (room, all_in)
                  (inr (
                    served files junk junk_len path content n there opened m (pos (length bs))
                      (record s { buff = m; has_recv_len = has + length bs }) net ss
                      (ap (load m 0) (sym now)
                        ∙ sym (append-nil _)
                        ∙ ap (λ x. load m 0 (16 + has + length bs) ++ x) (sym none_left)
                        ∙ loaded)
                      zero_behind none_left w))
            | inr more ↦
                rw (room, more)
                  (inl (
                    pos (length bs),
                    record s { buff = m; has_recv_len = has + length bs },
                    ss,
                    refl,
                    record {
                      idle = idle;
                      so_far = 16 + has + length bs;
                      taken = loaded;
                      ended = zero_behind;
                      stands =
                          inr (away, total, omega arith, omega (arith, left, total, is_other more));
                    },
                    omega (arith, ap length p, length-append bs (pending ss)),
                  ))
          ]

  earlier :
      (net : Net) (ss : List Segment) (r : Run (ℤ × Session × Net))
      → length (pending ss) ≤ length (pending net.inbox)
      → Turn files junk junk_len path content (record net { inbox = ss }) r
      → Turn files junk junk_len path content net r
  earlier net ss r h (inl (ret, s', ss', e, waits, less)) =
      inl (ret, s', ss', e, waits, omega arith)
  earlier net ss r h (inr given) = inr given

  -- The length that a whole head tells.
  told_len :
      (m : Memory) (rest : List ℕ)
      → load m 0 16 ++ rest ≡ packet_of (code_of login) 0 (get_request path)
      → get_u32 m 12 ≡ length (get_request path)
  unfolding load head_bytes files_event.Memory.u32_bytes
  told_len m rest e =
      sym (get_u32-as_memory m 16 12 (omega arith))
      ∙ ap (λ x. get_u32 (as_memory x) 12) (ap (take 16) e)
      ∙ head_field_alone
          (record {
            flag = net_flag;
            cmd = code_of login;
            index = 0;
            length = length (get_request path);
          })
          (omega (arith, length-request path, n.room))

  pub head-Turn :
      (s : Session) (net : Net)
      → s.task ≡ no_task
      → s.head_now ≡ true
      → load s.buff 0 s.has_recv_len ++ pending net.inbox
        ≡ packet_of (code_of login) 0 (get_request path)
      → s.buff (16 + length (get_request path)) ≡ 0
      → s.has_recv_len < 16
      → Willing net.answers 1048
      → Turn files junk junk_len path content net
          (head_received files junk junk_len s net (recv (recv_len head_len s.has_recv_len) net))
  unfolding head_received
  head-Turn s net idle first taken z under w =
      go (recv (recv_len head_len s.has_recv_len) net)
        (recv-Takes (recv_len head_len s.has_recv_len) net)
    where
      l : ℕ
      l = length (get_request path)

      has : ℕ
      has = s.has_recv_len

      left : recv_len head_len s.has_recv_len ≡ 16 - has
      left = recv_len_small 16 has (omega arith) (omega arith)

      some_left : 0 < length (pending net.inbox)
      some_left = omega (
        arith,
        ap length taken,
        length-append (load s.buff 0 has) (pending net.inbox),
        length-load s.buff 0 has,
        length-whole files junk junk_len path content,
      )

      go :
          (r : Received × List Segment)
          → Takes (recv_len head_len s.has_recv_len) net r
          → Turn files junk junk_len path content net (head_received files junk junk_len s net r)
      go (closed, ss) (p, inl e) = absurd (omega (arith, left))
      go (closed, ss) (p, inr (e, up)) =
          absurd (omega (arith, some_left, ap (λ x. length (pending x)) e))
      go (failed, ss) (p, e) = absurd (omega (arith, some_left, ap (λ x. length (pending x)) e))
      go (got bs, ss) (p, q, h) =
          let m : Memory = store s.buff has bs in
          let room : leb (has + length bs) 1500 ≡ true = ground (arith, left) in
          let loaded : load m 0 (has + length bs) ++ pending ss
              ≡ packet_of (code_of login) 0 (get_request path) =
            ap (λ x. x ++ pending ss) (load-store_append s.buff has bs)
            ∙ append_assoc (load s.buff 0 has) bs (pending ss)
            ∙ ap (λ x. load s.buff 0 has ++ x) (sym p)
            ∙ taken in
          let zero_behind : m (16 + l) ≡ 0 =
            store_after s.buff has bs (16 + l) (omega (arith, left)) ∙ z in
          elim (Bool-cases (has + length bs == head_len)) [
            | inl all_in ↦
                let now : has + length bs ≡ 16 = omega (arith, is_same all_in) in
                let head_in : load m 0 16 ++ pending ss
                    ≡ packet_of (code_of login) 0 (get_request path) =
                  ap (λ k. load m 0 k ++ pending ss) (sym now) ∙ loaded in
                rw (room, all_in)
                  (earlier net ss _ (omega (arith, ap length p, length-append bs (pending ss))) (
                    body-Turn
                      (record s {
                        buff = m;
                        total_len = get_u32 m 12;
                        has_recv_len = 0;
                        head_now = false;
                      })
                      (record net { inbox = ss }) idle refl head_in zero_behind
                      (told_len m (pending ss) head_in) (omega (arith, length-request path)) w))
            | inr more ↦
                rw (room, more)
                  (inl (
                    pos (length bs),
                    record s { buff = m; has_recv_len = has + length bs },
                    ss,
                    refl,
                    record {
                      idle = idle;
                      so_far = has + length bs;
                      taken = loaded;
                      ended = zero_behind;
                      stands = inl (first, refl, omega (arith, left, is_other more));
                    },
                    omega (arith, ap length p, length-append bs (pending ss)),
                  ))
          ]
