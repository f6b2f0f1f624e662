-- ===== src/Session/Receiving.antt =====
-- `recvEx` of Session.cpp: reads until the whole length is there.
use files_event.Prelude.{
  ℕ, zero, suc, ◌+◌, ◌-◌, ◌≤◌, ◌<◌, ◌≡◌, refl, ap, sym, ◌∙◌, subst, arith, List, [], ◌++◌,
  append_assoc, append-nil, length, length-append, ltb, if◌then◌else◌, Bool-cases, inl, inr, ◌⊎◌,
  true, false, ℤ, pos, negsuc,
}
use files_event.Posix.{
  Net, Segment, Received, got, closed, failed, recv, pending, Takes, recv-Takes,
}

-- One round: what `recv` answered, and the rounds after it.
abbrev pub collect :
    ℕ
    → List ℕ
    → Net
    → (List ℕ → Net → ℤ × List ℕ × Net)
    → Received × List Segment
    → ℤ × List ℕ × Net
collect len so_far net again (got bs, inbox) =
    if ltb (length (so_far ++ bs)) len
    then again (so_far ++ bs) (record net { inbox = inbox })
    else (pos (length (so_far ++ bs)), so_far ++ bs, record net { inbox = inbox })
collect len so_far net again (closed, inbox) = (pos 0, so_far, record net { inbox = inbox })
collect len so_far net again (failed, inbox) = (negsuc 0, so_far, record net { inbox = inbox })

-- The loop, of at most `fuel` rounds, behind the bytes `so_far`.
unfoldable pub recv_ex_loop : ℕ → ℕ → List ℕ → Net → ℤ × List ℕ × Net
recv_ex_loop zero len so_far net = (pos (length so_far), so_far, net)
recv_ex_loop (suc fuel) len so_far net =
    collect len so_far net (recv_ex_loop fuel len) (recv (len - length so_far) net)

-- `recvEx`: the result, and what it has put at `pData`. Each round but the last reads a byte at least.
unfoldable pub recv_ex : ℕ → Net → ℤ × List ℕ × Net
unfolding recv_ex_loop
recv_ex len net = recv_ex_loop (suc len) len [] net

-- All of the length was read; or the stream was used up before, and the result does not tell how much was read.
abbrev pub Collects : ℕ → List ℕ → ℤ × List ℕ × Net → Type 0
Collects len stream (ret, bytes, net) =
    (stream ≡ bytes ++ pending net.inbox)
    × (((ret ≡ pos len) × (length bytes ≡ len))
        ⊎ (((ret ≡ pos 0) ⊎ (ret ≡ negsuc 0)) × (length stream < len) × (bytes ≡ stream)))

used_up :
    (len : ℕ) (so_far : List ℕ) (inbox : List Segment)
    → inbox ≡ []
    → length so_far < len
    → (length (so_far ++ pending inbox) < len) × (so_far ≡ so_far ++ pending inbox)
used_up len so_far inbox e h =
    let same : so_far ++ pending inbox ≡ so_far =
      ap (λ x. so_far ++ pending x) e ∙ append-nil so_far in
    (omega (arith, ap length same), sym same)

collect-Collects :
    (len : ℕ) (so_far : List ℕ) (net : Net) (again : List ℕ → Net → ℤ × List ℕ × Net)
    (r : Received × List Segment)
    → length so_far < len
    → Takes (len - length so_far) net r
    → ((bs : List ℕ) (net' : Net)
        → length so_far < length bs
        → length bs < len
        → Collects len (bs ++ pending net'.inbox) (again bs net'))
    → Collects len (so_far ++ pending net.inbox) (collect len so_far net again r)
collect-Collects len so_far net again (got bs, ss) h (p, q, r) more =
    let all : so_far ++ pending net.inbox ≡ (so_far ++ bs) ++ pending ss =
      ap (λ x. so_far ++ x) p ∙ sym (append_assoc so_far bs (pending ss)) in
    let size : length (so_far ++ bs) ≡ length so_far + length bs = length-append so_far bs in
    elim (Bool-cases (ltb (length (so_far ++ bs)) len)) [
      | inl under ↦ rw under (
          subst (λ x. Collects len x (again (so_far ++ bs) (record net { inbox = ss }))) (sym all)
            (more (so_far ++ bs) (record net { inbox = ss }) (omega arith) (below under)))
      | inr done ↦
          let full : length (so_far ++ bs) ≡ len = omega (arith, not_below done) in
          rw done (all, inl (ap pos full, full))
    ]
  where
    below : {a b : ℕ} → ltb a b ≡ true → a < b
    below e = ground arith

    not_below : {a b : ℕ} → ltb a b ≡ false → b ≤ a
    not_below e = ground arith
collect-Collects len so_far net again (closed, ss) h (p, inl e) more = absurd (omega arith)
collect-Collects len so_far net again (closed, ss) h (p, inr (e, up)) more = (
  ap (λ x. so_far ++ x) p,
  let (short, all) = used_up len so_far net.inbox e h in inr (inl refl, short, all),
)
collect-Collects len so_far net again (failed, ss) h (p, e) more = (
  ap (λ x. so_far ++ x) p,
  let (short, all) = used_up len so_far net.inbox e h in inr (inr refl, short, all),
)

loop-Collects :
    (fuel len : ℕ) (so_far : List ℕ) (net : Net)
    → length so_far < len
    → len ≤ length so_far + fuel
    → Collects len (so_far ++ pending net.inbox) (recv_ex_loop fuel len so_far net)
unfolding recv_ex_loop
loop-Collects zero len so_far net h k = absurd (omega arith)
loop-Collects (suc fuel) len so_far net h k =
    collect-Collects len so_far net (recv_ex_loop fuel len) (recv (len - length so_far) net) h
      (recv-Takes (len - length so_far) net)
      (λ bs net' more less. loop-Collects fuel len bs net' less (omega arith))

-- `recvEx` of a length that is not 0 ends, however the stream is cut into pieces: it returns the length with
-- exactly the next bytes of the stream, if so many have arrived; otherwise it returns 0 or -1, and has taken
-- all that has arrived off the connection.
pub recv_ex-Collects :
    (len : ℕ) (net : Net) → 0 < len → Collects len (pending net.inbox) (recv_ex len net)
unfolding recv_ex
recv_ex-Collects len net h = loop-Collects (suc len) len [] net h (omega arith)
