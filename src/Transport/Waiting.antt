-- ===== src/Transport/Waiting.antt =====
-- When `sendEx` is not kept waiting for ever.
use files_event.Prelude.{
  ℕ, zero, suc, ◌+◌, ◌-◌, ◌/◌, ◌%◌, ◌^◌, ◌≤◌, ◌<◌, ◌≡◌, inl, inr, List, [], ◌∷◌, ◌++◌, arith,
  length, take, drop, drop_all, length-drop, length-append, leb, if◌then◌else◌, ℤ, pos, Run,
  returns, fault, blocked, ◌>>=◌, Bool-cases, leb→le,
}
use files_event.Posix.{Answer, accept, again, broken, Net}
use files_event.Transport.{while_left, send_loop, send_ex, decimal, decimal_fuel}

-- How many of the answers end a call that sends 1500 bytes or fewer: an error, or the kernel
-- taking that many at once.
abbrev pub chances : List Answer → ℕ
chances [] = 0
chances (broken ∷ later) = 1 + chances later
chances (again ∷ later) = chances later
chances (accept k ∷ later) = (if leb 1500 k then 1 else 0) + chances later

-- The call returns, and has used up at most `n` chances.
abbrev pub Spends : ℕ → List Answer → Run (ℤ × List Answer × List ℕ) → Type 0
Spends n answers (returns (ret, later, wire)) = chances answers ≤ chances later + n
Spends n answers fault = ⊥
Spends n answers blocked = ⊥

while_left-Spends :
    (answers later : List Answer) (len : ℕ) (rest wire : List ℕ)
    (round : List ℕ → Run (ℤ × List Answer × List ℕ))
    → chances answers ≤ chances later + 1
    → ((rest ≡ [] → ⊥) → Spends 1 answers (round rest))
    → Spends 1 answers (while_left (returns (pos len, later, wire)) rest round)
while_left-Spends answers later len [] wire round h more = h
while_left-Spends answers later len (b ∷ bs) wire round h more = more (λ e. cc)

Spends-of_le :
    (a b : List Answer) (r : Run (ℤ × List Answer × List ℕ))
    → chances a ≤ chances b
    → Spends 1 b r
    → Spends 1 a r
Spends-of_le a b (returns (ret, later, wire)) h s = omega arith
Spends-of_le a b fault h s = s
Spends-of_le a b blocked h s = s

send_loop-Spends :
    (len : ℕ) (answers : List Answer) (left wire : List ℕ)
    → length left ≤ 1500
    → 0 < chances answers
    → Spends 1 answers (send_loop len answers left wire)
unfolding send_loop
send_loop-Spends len [] left wire h c = absurd (omega arith)
send_loop-Spends len (broken ∷ later) left wire h c = omega arith
send_loop-Spends len (again ∷ later) [] wire h c = omega arith
send_loop-Spends len (again ∷ later) (b ∷ bs) wire h c =
    send_loop-Spends len later (b ∷ bs) wire h c
send_loop-Spends len (accept k ∷ later) left wire h c = elim (Bool-cases (leb 1500 k)) [
  | inl all_taken ↦
      while_left-Spends (accept k ∷ later) later len (drop k left) (wire ++ take k left) _
        (ground arith) (λ ne. absurd (ne (drop_all k left (omega (arith, leb→le _ _ all_taken)))))
  | inr some_taken ↦ Spends-of_le (accept k ∷ later) later _ (ground arith) (
      while_left-Spends later later len (drop k left) (wire ++ take k left)
        (λ rest. send_loop len later rest (wire ++ take k left)) (omega arith)
        (λ _.
          send_loop-Spends len later (drop k left) (wire ++ take k left)
            (omega (arith, length-drop k left)) (ground arith)))
]

abbrev pub SpendsNet : ℕ → Net → Run (ℤ × Net) → Type 0
SpendsNet n net (returns (ret, net')) = chances net.answers ≤ chances net'.answers + n
SpendsNet n net fault = ⊥
SpendsNet n net blocked = ⊥

over_net :
    (net : Net) (r : Run (ℤ × List Answer × List ℕ))
    → Spends 1 net.answers r
    → SpendsNet 1 net
        (r >>= λ (ret, answers, wire). returns (ret, record net { answers = answers; wire = wire }))
over_net net (returns (ret, later, wire)) h = h
over_net net fault h = h
over_net net blocked h = h

-- With a chance left a call that sends 1500 bytes or fewer returns, and uses up at most one.
pub send_ex-Spends :
    (bytes : List ℕ) (net : Net)
    → length bytes ≤ 1500
    → 0 < chances net.answers
    → SpendsNet 1 net (send_ex bytes net)
unfolding send_ex
send_ex-Spends bytes net h c =
    over_net net (send_loop (length bytes) net.answers bytes net.wire)
      (send_loop-Spends (length bytes) net.answers bytes net.wire h c)

length-decimal_fuel : (f n : ℕ) → length (decimal_fuel f n) ≤ f
unfolding decimal_fuel
length-decimal_fuel zero n = omega arith
length-decimal_fuel (suc f) n = ground (
  arith,
  length-decimal_fuel f (n / 10),
  length-append (decimal_fuel f (n / 10)) ((48 + n % 10) ∷ []),
)

-- `%d` writes at most eleven characters.
pub length-decimal-le : (v : ℕ) → length (decimal v) ≤ 11
unfolding decimal
length-decimal-le v = ground (arith, length-decimal_fuel 10 v, length-decimal_fuel 10 (2 ^ 32 - v))
