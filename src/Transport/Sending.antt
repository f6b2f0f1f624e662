-- ===== src/Transport/Sending.antt =====
-- What `sendEx` puts on the wire.
use files_event.Prelude.{
  ℕ, ◌-◌, ◌^◌, ◌≤◌, ◌<◌, ◌≡◌, refl, sym, ap, ◌∙◌, ◌⊎◌, inl, inr, List, [], ◌∷◌, ◌++◌, append_assoc,
  append-nil, arith, length, take, drop, take-append-drop, length-drop, drop_all, subst, ◌≢◌, ◌>>=◌,
  ℤ, pos, negsuc, Run, returns, fault, blocked,
}
use files_event.Posix.{Answer, accept, again, broken, Net}
use files_event.Transport.{while_left, send_loop, send_ex, size_of_int, recv_len}

-- All of the data has gone out and its length is returned, or -1 is and a prefix has gone out.
abbrev pub Sent : ℕ → List ℕ → List ℕ → Run (ℤ × List Answer × List ℕ) → Type 0
Sent len left wire (returns (ret, later, wire')) =
    ((ret ≡ pos len) × (wire' ≡ wire ++ left))
    ⊎ ((ret ≡ negsuc 0) × (unsent : List ℕ) × (wire' ++ unsent ≡ wire ++ left))
Sent len left wire fault = ⊥
Sent len left wire blocked = Unit {0}

Sent-more :
    (len : ℕ) (left rest sent wire : List ℕ) (r : Run (ℤ × List Answer × List ℕ))
    → sent ++ rest ≡ left
    → Sent len rest (wire ++ sent) r
    → Sent len left wire r
Sent-more len left rest sent wire (returns (ret, later, wire')) e (inl (p, q)) =
    inl (p, q ∙ append_assoc wire sent rest ∙ ap (◌++◌ wire) e)
Sent-more len left rest sent wire (returns (ret, later, wire')) e (inr (p, u, q)) =
    inr (p, u, q ∙ append_assoc wire sent rest ∙ ap (◌++◌ wire) e)
Sent-more len left rest sent wire fault e h = h
Sent-more len left rest sent wire blocked e h = tt

-- The two ways out of a round.
round-Sent :
    (len : ℕ) (left rest sent wire : List ℕ) (later : List Answer)
    (round : List ℕ → Run (ℤ × List Answer × List ℕ))
    → sent ++ rest ≡ left
    → ((more : List ℕ) → Sent len more (wire ++ sent) (round more))
    → Sent len left wire (while_left (returns (pos len, later, wire ++ sent)) rest round)
round-Sent len left [] sent wire later round e h =
    inl (refl, ap (◌++◌ wire) (sym (append-nil sent) ∙ e))
round-Sent len left (b ∷ bs) sent wire later round e h =
    Sent-more len left (b ∷ bs) sent wire (round (b ∷ bs)) e (h (b ∷ bs))

pub send_loop-Sent :
    (len : ℕ) (later : List Answer) (left wire : List ℕ)
    → Sent len left wire (send_loop len later left wire)
unfolding send_loop
send_loop-Sent len [] left wire = tt
send_loop-Sent len (broken ∷ later) left wire = inr (refl, left, refl)
send_loop-Sent len (again ∷ later) [] wire = inl (refl, sym (append-nil wire))
send_loop-Sent len (again ∷ later) (b ∷ bs) wire = send_loop-Sent len later (b ∷ bs) wire
send_loop-Sent len (accept k ∷ later) left wire =
    round-Sent len left (drop k left) (take k left) wire later
      (λ rest. send_loop len later rest (wire ++ take k left)) (take-append-drop k left)
      (λ more. send_loop-Sent len later more (wire ++ take k left))

-- The kernel takes `n` bytes before it reports an error.
abbrev pub Willing : List Answer → ℕ → Type 0
Willing [] n = ⊥
Willing (broken ∷ later) n = ⊥
Willing (again ∷ later) n = Willing later n
Willing (accept k ∷ later) n = (n ≤ k) ⊎ Willing later (n - k)

abbrev Completes : ℕ → List ℕ → Run (ℤ × List Answer × List ℕ) → Type 0
Completes len all r = (later : List Answer) × (r ≡ returns (pos len, later, all))

round-Completes :
    (len : ℕ) (left rest sent wire : List ℕ) (later : List Answer)
    (round : List ℕ → Run (ℤ × List Answer × List ℕ))
    → sent ++ rest ≡ left
    → (rest ≢ [] → Completes len (wire ++ left) (round rest))
    → Completes len (wire ++ left) (while_left (returns (pos len, later, wire ++ sent)) rest round)
round-Completes len left [] sent wire later round e h =
    (later, ap (λ w. returns (pos len, later, wire ++ w)) (sym (append-nil sent) ∙ e))
round-Completes len left (b ∷ bs) sent wire later round e h = h (λ p. cc)

Willing-left :
    (k : ℕ) (left : List ℕ) (later : List Answer)
    → (length left ≤ k) ⊎ Willing later (length left - k)
    → drop k left ≢ []
    → Willing later (length (drop k left))
Willing-left k left later (inl h) ne = absurd (ne (drop_all k left h))
Willing-left k left later (inr w) ne = rw (length-drop k left) w

pub send_loop-Completes :
    (len : ℕ) (answers : List Answer) (left wire : List ℕ)
    → Willing answers (length left)
    → Completes len (wire ++ left) (send_loop len answers left wire)
unfolding send_loop
send_loop-Completes len [] left wire w = absurd w
send_loop-Completes len (broken ∷ later) left wire w = absurd w
send_loop-Completes len (again ∷ later) [] wire w =
    (later, ap (λ v. returns (pos len, later, v)) (sym (append-nil wire)))
send_loop-Completes len (again ∷ later) (b ∷ bs) wire w =
    send_loop-Completes len later (b ∷ bs) wire w
send_loop-Completes len (accept k ∷ later) left wire w =
    round-Completes len left (drop k left) (take k left) wire later
      (λ rest. send_loop len later rest (wire ++ take k left)) (take-append-drop k left)
      λ ne.
        subst (λ all. Completes len all (send_loop len later (drop k left) (wire ++ take k left)))
          (append_assoc wire (take k left) (drop k left) ∙ ap (◌++◌ wire) (take-append-drop k left))
          (send_loop-Completes len later (drop k left) (wire ++ take k left)
            (Willing-left k left later w ne))

-- `sendEx` over a connection: what has gone out when it returns.
abbrev pub SentOver : List ℕ → Net → Run (ℤ × Net) → Type 0
SentOver bytes net (returns (ret, net')) =
    (net'.inbox ≡ net.inbox)
    × (net'.peer_open ≡ net.peer_open)
    × (((ret ≡ pos (length bytes)) × (net'.wire ≡ net.wire ++ bytes))
        ⊎ ((ret ≡ negsuc 0) × (unsent : List ℕ) × (net'.wire ++ unsent ≡ net.wire ++ bytes)))
SentOver bytes net fault = ⊥
SentOver bytes net blocked = Unit {0}

over_net :
    (bytes : List ℕ) (net : Net) (r : Run (ℤ × List Answer × List ℕ))
    → Sent (length bytes) bytes net.wire r
    → SentOver bytes net
        (r >>= λ (ret, answers, wire). returns (ret, record net { answers = answers; wire = wire }))
over_net bytes net (returns (ret, answers, wire)) h = (refl, refl, h)
over_net bytes net fault h = h
over_net bytes net blocked h = tt

-- `sendEx` returns the length of its data with all of it sent, in order and once, or -1 with a
-- prefix of it sent; it reads nothing from the connection and never touches foreign memory.
pub send_ex-SentOver : (bytes : List ℕ) (net : Net) → SentOver bytes net (send_ex bytes net)
unfolding send_ex
send_ex-SentOver bytes net =
    over_net bytes net (send_loop (length bytes) net.answers bytes net.wire)
      (send_loop-Sent (length bytes) net.answers bytes net.wire)

-- If the kernel takes as many bytes as there are before it reports an error, then `sendEx` ends,
-- however the bytes are split and however often it is told to try again: it returns the length, and
-- exactly the data is appended to the wire.
pub send_ex-completes :
    (bytes : List ℕ) (net : Net)
    → Willing net.answers (length bytes)
    → (later : List Answer) × (send_ex bytes net
        ≡ returns (pos (length bytes), record net { answers = later; wire = net.wire ++ bytes }))
unfolding send_ex
send_ex-completes bytes net w =
    let (later, e) = send_loop-Completes (length bytes) net.answers bytes net.wire w in
    (later, rw e)

pub size_of_int_small : (v : ℕ) → v < 2 ^ 31 → size_of_int v ≡ v
unfolding size_of_int
size_of_int_small v h = ground arith

-- What is left of a length, as long as the count stays below it.
pub recv_len_small :
    (total has : ℕ) → total < 2 ^ 31 → has ≤ total → recv_len total has ≡ total - has
unfolding recv_len
recv_len_small total has h k = ground (arith, size_of_int_small total h)

-- A call that waits for something asks for at least one byte.
pub recv_len_pos :
    (total has : ℕ) → has < total → has < 2 ^ 31 → total < 2 ^ 32 → 0 < recv_len total has
unfolding recv_len size_of_int
recv_len_pos total has h k l = ground arith

pub recv_len_zero : (total has : ℕ) → total ≡ 0 → has ≡ 0 → recv_len total has ≡ 0
unfolding recv_len size_of_int
recv_len_zero total has h k = ground arith
