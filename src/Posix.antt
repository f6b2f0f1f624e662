-- ===== src/Posix.antt =====
-- The socket calls that the program makes, as POSIX documents them for a non-blocking TCP socket.
-- What the peer sends arrives in pieces of the environment's choice (`inbox`), and the environment
-- answers each `send` as it likes (`answers`). `wire` holds the bytes that the program has sent.
use files_event.Prelude.{
  ◌≤◌, ◌<◌, ◌≡◌, refl, arith, ◌⊎◌, inl, inr, ap, sym, ◌∙◌, append_assoc, take-append-drop,
  length-take, ℕ, zero, suc, List, [], ◌∷◌, ◌++◌, Bool, true, false, length, take, drop, ℤ, pos,
  negsuc,
}

-- A piece of the stream: it is never empty.
pub data Segment : Type 0 where
  seg : ℕ → List ℕ → Segment

pub data Answer : Type 0 where
  accept : ℕ → Answer
  again : Answer
  broken : Answer

pub record Net : Type 0 where
  pub inbox : List Segment
  pub peer_open : Bool
  pub answers : List Answer
  pub wire : List ℕ

abbrev pub segment_bytes : Segment → List ℕ
segment_bytes (seg b bs) = b ∷ bs

-- Everything that has arrived and was not read yet.
abbrev pub pending : List Segment → List ℕ
pending [] = []
pending (s ∷ ss) = segment_bytes s ++ pending ss

-- `recv` returns the bytes it wrote, 0 (the peer has closed, or no byte was asked for), or -1.
pub data Received : Type 0 where
  got : List ℕ → Received
  closed : Received
  failed : Received

abbrev pub push_back : List ℕ → List Segment → List Segment
push_back [] ss = ss
push_back (b ∷ bs) ss = seg b bs ∷ ss

-- What a call that asks for `n + 1` bytes returns, and what stays in the socket.
abbrev pub recv_some : ℕ → List Segment → Bool → Received × List Segment
recv_some n [] true = (failed, [])
recv_some n [] false = (closed, [])
recv_some n (seg b bs ∷ ss) up = (got (b ∷ take n bs), push_back (drop n bs) ss)

abbrev pub recv : ℕ → Net → Received × List Segment
recv zero net = (closed, net.inbox)
recv (suc n) net = recv_some n net.inbox net.peer_open

-- The `int` that the caller sees.
abbrev pub received : Received → ℤ
received (got bs) = pos (length bs)
received closed = pos 0
received failed = negsuc 0

-- What a caller may rely on: the bytes returned are the next ones of the stream, at least one and no
-- more than were asked for, and a call that returns none leaves the stream as it is.
abbrev pub Takes : ℕ → Net → Received × List Segment → Type 0
Takes n net (got bs, ss) =
    (pending net.inbox ≡ bs ++ pending ss) × (0 < length bs) × (length bs ≤ n)
Takes n net (closed, ss) =
    (pending net.inbox ≡ pending ss) × ((n ≡ 0) ⊎ ((net.inbox ≡ []) × (net.peer_open ≡ false)))
Takes n net (failed, ss) = (pending net.inbox ≡ pending ss) × (net.inbox ≡ [])

pending-push_back : (bs : List ℕ) (ss : List Segment) → pending (push_back bs ss) ≡ bs ++ pending ss
pending-push_back [] ss = refl
pending-push_back (b ∷ bs) ss = refl

recv_some-Takes :
    (n : ℕ) (net : Net) (inbox : List Segment) (up : Bool)
    → net.inbox ≡ inbox
    → net.peer_open ≡ up
    → Takes (suc n) net (recv_some n inbox up)
recv_some-Takes n net [] true e p = (rw e, e)
recv_some-Takes n net [] false e p = (rw e, inr (e, p))
recv_some-Takes n net (seg b bs ∷ ss) up e p = (
  rw e (
      ap (λ r. b ∷ r)
        (sym (
          ap (λ r. take n bs ++ r) (pending-push_back (drop n bs) ss)
          ∙ sym (append_assoc (take n bs) (drop n bs) (pending ss))
          ∙ ap (λ r. r ++ pending ss) (take-append-drop n bs)))),
  omega arith,
  omega (arith, length-take n bs),
)

pub recv-Takes : (n : ℕ) (net : Net) → Takes n net (recv n net)
recv-Takes zero net = (refl, inl refl)
recv-Takes (suc n) net = recv_some-Takes n net net.inbox net.peer_open refl refl
