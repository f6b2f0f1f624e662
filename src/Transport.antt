-- ===== src/Transport.antt =====
-- What the two tasks share: `sendEx` (TaskFileSend.cpp, TaskFileRecv.cpp; the two are the same), the
-- `int` arithmetic of the receive loops, and `%d`.
pub mod Sending
pub mod Waiting
use files_event.Prelude.{
  ℕ, zero, suc, ◌+◌, ◌-◌, ◌*◌, ◌/◌, ◌%◌, ◌^◌, ◌≤◌, ◌<◌, List, [], ◌∷◌, ◌++◌, ltb, leb, ◌==◌,
  if◌then◌else◌, Bool, true, false, length, take, drop, ℤ, pos, negsuc, Run, returns, fault,
  blocked, ◌>>=◌,
}
use files_event.Posix.{Segment, Answer, accept, again, broken, Net}

-- The conversion of an `int`, kept as its 32-bit pattern, to `size_t`.
unfoldable pub size_of_int : ℕ → ℕ
size_of_int v = if ltb v (2 ^ 31) then v else v + (2 ^ 64 - 2 ^ 32)

-- `totalLen - hasProcLen`, handed to `recv` as its `size_t` argument.
unfoldable pub recv_len : ℕ → ℕ → ℕ
unfolding size_of_int
recv_len total has = (size_of_int total + 2 ^ 64 - has) % 2 ^ 64

-- `int += int`, on the 32-bit patterns.
abbrev pub add_int : ℕ → ℕ → ℕ
add_int a b = (a + b) % 2 ^ 32

-- `leftLen` is the length of `left`, `len` that of the whole data. EAGAIN sleeps and tries again
-- (`continue` in the do-while still tests `leftLen > 0`); any other error ends the call with -1.
-- `while(leftLen>0)`: another round for what is left, if there is any.
abbrev pub while_left {ℓ} : {A : Type ℓ} → A → List ℕ → (List ℕ → A) → A
while_left done [] round = done
while_left done (b ∷ bs) round = round (b ∷ bs)

unfoldable pub send_loop : ℕ → List Answer → List ℕ → List ℕ → Run (ℤ × List Answer × List ℕ)
send_loop len [] left wire = blocked
send_loop len (broken ∷ later) left wire = returns (negsuc 0, later, wire)
send_loop len (again ∷ later) left wire =
    while_left (returns (pos len, later, wire)) left (λ rest. send_loop len later rest wire)
send_loop len (accept k ∷ later) left wire =
    while_left (returns (pos len, later, wire ++ take k left)) (drop k left)
      (λ rest. send_loop len later rest (wire ++ take k left))

unfoldable pub send_ex : List ℕ → Net → Run (ℤ × Net)
unfolding send_loop
send_ex bytes net = do
  (ret, answers, wire) ← send_loop (length bytes) net.answers bytes net.wire
  returns (ret, record net { answers = answers; wire = wire })

-- The digits of `%d` for a number below 10 ^ fuel.
unfoldable pub decimal_fuel : ℕ → ℕ → List ℕ
decimal_fuel zero n = []
decimal_fuel (suc f) n =
    let rest = decimal_fuel f (n / 10) in
    if ltb n 10 then (48 + n) ∷ [] else rest ++ (48 + n % 10) ∷ []

-- `%d` of an `int`, kept as its 32-bit pattern: ten digits are enough.
unfoldable pub decimal : ℕ → List ℕ
unfolding decimal_fuel
decimal v = if ltb v (2 ^ 31) then decimal_fuel 10 v else b'-' ∷ decimal_fuel 10 (2 ^ 32 - v)
