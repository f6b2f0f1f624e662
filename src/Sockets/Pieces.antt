-- ===== src/Sockets/Pieces.antt =====
-- `tcpSendData` of IOUtils.cpp, which sends in pieces of at most MAX_MTU bytes.
use files_event.Prelude.{
  ℕ, zero, suc, ◌+◌, ◌≤◌, ◌<◌, ◌≡◌, refl, ap, ap₂, sym, ◌∙◌, arith, List, [], ◌∷◌, ◌++◌,
  append_assoc, append-nil, take-append-drop, take-length-append, drop-length-append, length,
  length-append, length-take, length-drop, length-eq-zero, take, drop, take_all, ltb, leb,
  if◌then◌else◌, true, false, Bool-cases, inl, inr, ℤ, pos, negsuc, ◌+ℤ◌, Run, returns, blocked,
  ◌>>=◌,
}
use files_event.Posix.{Answer, accept, again, broken, Net}

-- MAX_MTU.
abbrev pub max_mtu : ℕ
max_mtu = 1400

-- What `send` of a piece returns, and what it takes of it.
abbrev pub sent : Answer → List ℕ → ℤ × List ℕ
sent (accept k) piece = (pos (length (take k piece)), take k piece)
sent again piece = (negsuc 0, [])
sent broken piece = (negsuc 0, [])

-- `while(sendLen>0)`, with `left` the last `sendLen` bytes: each piece is sent once, whatever `send` takes
-- of it.
unfoldable pub send_pieces : ℕ → List ℕ → List Answer → ℤ → List ℕ → Run (ℤ × List Answer × List ℕ)
send_pieces zero left answers ret wire = returns (ret, answers, wire)
send_pieces (suc fuel) left [] ret wire =
    if ltb 0 (length left) then blocked else returns (ret, [], wire)
send_pieces (suc fuel) left (a ∷ later) ret wire =
    let (r, bytes) = sent a (take max_mtu left) in
    let rest = send_pieces fuel (drop max_mtu left) later (ret +ℤ r) (wire ++ bytes) in
    if ltb 0 (length left) then rest else returns (ret, a ∷ later, wire)

-- Up to MAX_MTU bytes are sent at once, none as well.
abbrev send_once : List ℕ → List Answer → List ℕ → Run (ℤ × List Answer × List ℕ)
send_once bytes [] wire = blocked
send_once bytes (a ∷ later) wire =
    let (r, taken) = sent a bytes in returns (pos 0 +ℤ r, later, wire ++ taken)

-- `tcpSendData`: each piece is a byte at least, so that there are no more pieces than bytes.
unfoldable pub tcp_send_data : List ℕ → Net → Run (ℤ × Net)
unfolding send_pieces
tcp_send_data bytes net = do
  (ret, later, wire) ←
      (if leb (length bytes) max_mtu
        then send_once bytes net.answers net.wire
        else send_pieces (length bytes) bytes net.answers (pos 0) net.wire)
  returns (ret, record net { answers = later; wire = wire })

-- The kernel takes a whole piece in each of the next `n` answers.
abbrev pub TakesPieces : ℕ → List Answer → Type 0
TakesPieces zero answers = Unit {0}
TakesPieces (suc n) (accept k ∷ later) = (max_mtu ≤ k) × TakesPieces n later
TakesPieces (suc n) _ = ⊥

add_pos : (a b : ℕ) → pos a +ℤ pos b ≡ pos (a + b)
add_pos a b = ground arith

abbrev Done : (left : List ℕ) (done : ℕ) (wire : List ℕ) → Run (ℤ × List Answer × List ℕ) → Type 0
Done left done wire r =
    (later : List Answer) × (r ≡ returns (pos (done + length left), later, wire ++ left))

none_left :
    (left : List ℕ) (done : ℕ) (wire : List ℕ) (later : List Answer)
    → length left ≡ 0
    → Done left done wire (returns (pos done, later, wire))
none_left left done wire later e = (
  later,
  rw (length-eq-zero left e) (
      ap (λ (x : List ℕ). returns (pos done, later, x)) (sym (append-nil wire))
      ∙ ap (λ (n : ℕ). returns (pos n, later, wire ++ [])) (omega arith)),
)

positive : {n : ℕ} → ltb 0 n ≡ true → 0 < n
positive e = ground arith

nothing : {n : ℕ} → ltb 0 n ≡ false → n ≡ 0
nothing e = ground arith

stuck : (n : ℕ) → 0 < n → TakesPieces n [] → ⊥
stuck zero h w = omega arith
stuck (suc n) h w = w

-- All of `left` goes out, if the kernel takes every piece whole.
pieces-Done :
    (fuel n : ℕ) (left : List ℕ) (answers : List Answer) (done : ℕ) (wire : List ℕ)
    → length left ≤ fuel
    → length left ≤ n
    → TakesPieces n answers
    → Done left done wire (send_pieces fuel left answers (pos done) wire)
unfolding send_pieces
pieces-Done zero n left answers done wire h k w = none_left left done wire answers (omega arith)
pieces-Done (suc fuel) n left [] done wire h k w = elim (Bool-cases (ltb 0 (length left))) [
  | inl some_left ↦ absurd (stuck n (omega (arith, positive some_left)) w)
  | inr all_out ↦ rw all_out (none_left left done wire [] (omega (arith, nothing all_out)))
]
pieces-Done (suc fuel) zero left (a ∷ later) done wire h k w =
    let all_out : ltb 0 (length left) ≡ false = ground arith in
    rw all_out (none_left left done wire (a ∷ later) (omega arith))
pieces-Done (suc fuel) (suc n) left (again ∷ later) done wire h k w = absurd w
pieces-Done (suc fuel) (suc n) left (broken ∷ later) done wire h k w = absurd w
pieces-Done (suc fuel) (suc n) left (accept m ∷ later) done wire h k (roomy, ws) =
    elim (Bool-cases (ltb 0 (length left))) [
      | inr all_out ↦ rw all_out (none_left left done wire (accept m ∷ later) (nothing all_out))
      | inl some_left ↦
          let piece : List ℕ = take max_mtu left in
          let whole : take m piece ≡ piece =
            take_all m piece (omega (arith, length-take max_mtu left)) in
          let (l, e) =
            pieces-Done fuel n (drop max_mtu left) later (done + length piece) (wire ++ piece)
              (omega (arith, length-drop max_mtu left, positive some_left))
              (omega (arith, length-drop max_mtu left, positive some_left)) ws in
          (
            l,
            rw (some_left, whole, add_pos done (length piece))
                (e
                  ∙ ap₂ (λ (x : ℕ) (y : List ℕ). returns (pos x, l, y))
                      (omega (arith, length-take max_mtu left, length-drop max_mtu left))
                      (append_assoc wire piece (drop max_mtu left)
                        ∙ ap (λ r. wire ++ r) (take-append-drop max_mtu left))),
          )
    ]

first-piece :
    (fuel : ℕ) (piece rest : List ℕ) (k : ℕ) (later : List Answer) (wire : List ℕ)
    → length piece ≡ max_mtu
    → length rest ≤ fuel
    → TakesPieces (length rest) later
    → (left : List Answer) × (send_pieces (suc fuel) (piece ++ rest) (accept k ∷ later) (pos 0) wire
        ≡ returns (pos (length (take k piece ++ rest)), left, wire ++ (take k piece ++ rest)))
unfolding send_pieces
first-piece fuel piece rest k later wire size h w =
    let some_left : ltb 0 (length (piece ++ rest)) ≡ true =
      ground (arith, size, length-append piece rest) in
    let first : take max_mtu (piece ++ rest) ≡ piece =
      ap (λ n. take n (piece ++ rest)) (sym size) ∙ take-length-append piece rest in
    let behind : drop max_mtu (piece ++ rest) ≡ rest =
      ap (λ n. drop n (piece ++ rest)) (sym size) ∙ drop-length-append piece rest in
    let (left, e) =
      pieces-Done fuel (length rest) rest later (0 + length (take k piece)) (wire ++ take k piece) h
        (omega arith) w in
    (
      left,
      rw (some_left, first, behind, add_pos 0 (length (take k piece)))
          (e
            ∙ ap₂ (λ (x : ℕ) (y : List ℕ). returns (pos x, left, y))
                (omega (arith, length-append (take k piece) rest))
                (append_assoc wire (take k piece) rest)),
    )

-- More than MAX_MTU bytes, of which `send` takes `k` of the first piece at most and each later piece whole:
-- what it does not take of the first piece is not sent again, and all that is behind that piece follows.
-- The result is the number of bytes that were taken. If `k` is MAX_MTU or more, all bytes are sent.
pub tcp_send_data_lem :
    (piece rest : List ℕ) (k : ℕ) (later : List Answer) (net : Net)
    → length piece ≡ max_mtu
    → 0 < length rest
    → net.answers ≡ accept k ∷ later
    → TakesPieces (length rest) later
    → (left : List Answer) × (tcp_send_data (piece ++ rest) net
        ≡ returns (
          pos (length (take k piece ++ rest)),
          record net { answers = left; wire = net.wire ++ (take k piece ++ rest) },
        ))
unfolding tcp_send_data send_pieces
tcp_send_data_lem piece rest k later net size some_rest e w =
    let all : length (piece ++ rest) ≡ suc (1399 + length rest) =
      omega (arith, size, length-append piece rest) in
    let long : leb (length (piece ++ rest)) max_mtu ≡ false = ground (arith, all) in
    let (left, out) =
      first-piece (1399 + length rest) piece rest k later net.wire size (omega arith) w in
    let pieces : send_pieces (length (piece ++ rest)) (piece ++ rest) net.answers (pos 0) net.wire
        ≡ returns (pos (length (take k piece ++ rest)), left, net.wire ++ (take k piece ++ rest)) =
      ap₂ (λ (f : ℕ) (more : List Answer). send_pieces f (piece ++ rest) more (pos 0) net.wire) all
        e
      ∙ out in
    (left, rw (long, pieces) refl)
