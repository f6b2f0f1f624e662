-- ===== src/FileRecv/Events.antt =====
-- Read events of a `TaskFileRecv`, one after the other.
use files_event.Prelude.{
  ℕ, zero, suc, ◌<◌, ◌≡◌, ◌≢◌, refl, ap, sym, ◌∙◌, ◌⊎◌, inl, inr, List, [], ◌∷◌, ◌++◌, append_assoc,
  arith, length, ℤ, Run, returns, fault, blocked, ◌>>=◌, length-append,
}
use files_event.Posix.{Net, pending}
use files_event.FileRecv.{Task, read_buffer}
use files_event.FileRecv.Stream.{
  Feed, awaiting, ended, malformed, feed_all, feed_all-append, feed_all-malformed,
}
use files_event.FileRecv.Tracking.{Tracks}
use files_event.FileRecv.Reassembly.{IsEnded, Follows}
use files_event.FileRecv.Head.{read_buffer-Follows}

-- `n` read events, one after the other.
unfoldable pub read_events : ℕ → Task → Net → Run (Task × Net)
read_events zero t net = returns (t, net)
read_events (suc n) t net = do (ret, t', net') ← read_buffer t net; read_events n t' net'

-- The events have read `bs`, the task is where the stream is behind them, and if `n` bytes or fewer
-- were there then all of them have been read, or the last packet looked at was a signal.
abbrev pub Reads : ℕ → Feed → Net → Run (Task × Net) → Type 0
Reads n x net (returns (t', net')) =
    (bs : List ℕ) × (pending net.inbox ≡ bs ++ pending net'.inbox)
    × Tracks t' (feed_all x bs)
    × ((n < length (pending net.inbox)) ⊎ (pending net'.inbox ≡ []) ⊎ IsEnded (feed_all x bs))
Reads n x net fault = ⊥
Reads n x net blocked = Unit {0}

none_left {ℓ} : {X : Type ℓ} (l : List ℕ) → (0 < length l) ⊎ (l ≡ []) ⊎ X
none_left [] = inr (inl refl)
none_left (b ∷ bs) = inl (omega arith)

feed_all-IsEnded : (x : Feed) (bs : List ℕ) → IsEnded x → IsEnded (feed_all x bs)
unfolding feed_all
feed_all-IsEnded x [] h = h
feed_all-IsEnded (awaiting p s) (b ∷ bs) h = absurd h
feed_all-IsEnded (ended s) (b ∷ bs) h = feed_all-IsEnded (ended s) bs tt
feed_all-IsEnded malformed (b ∷ bs) h = absurd h

-- A stream that is not malformed has no malformed beginning.
beginning :
    (x : Feed) (bs rest : List ℕ) → feed_all x (bs ++ rest) ≢ malformed → feed_all x bs ≢ malformed
beginning x bs rest h e =
    h (feed_all-append x bs rest ∙ ap (λ y. feed_all y rest) e ∙ feed_all-malformed rest)

Reads-more :
    (n : ℕ) (x : Feed) (net net' : Net) (bs : List ℕ) (r : Run (Task × Net))
    → pending net.inbox ≡ bs ++ pending net'.inbox
    → (0 < length bs) ⊎ (pending net.inbox ≡ []) ⊎ IsEnded x
    → Reads n (feed_all x bs) net' r
    → Reads (suc n) x net r
Reads-more n x net net' bs (returns (t, net'')) e some_bytes (cs, e', k, q) = (
  bs ++ cs,
  e ∙ ap (λ r. bs ++ r) e' ∙ sym (append_assoc bs cs (pending net''.inbox)),
  rw (feed_all-append x bs cs) k,
  rw (feed_all-append x bs cs) (all_read some_bytes q),
)
  where
    all_read :
        (0 < length bs) ⊎ (pending net.inbox ≡ []) ⊎ IsEnded x
        → (n < length (pending net'.inbox))
          ⊎ (pending net''.inbox ≡ [])
          ⊎ IsEnded (feed_all (feed_all x bs) cs)
        → (suc n < length (pending net.inbox))
          ⊎ (pending net''.inbox ≡ [])
          ⊎ IsEnded (feed_all (feed_all x bs) cs)
    all_read a (inr b) = inr b
    all_read (inl a) (inl b) =
        inl (omega (arith, ap length e, length-append bs (pending net'.inbox)))
    all_read (inr (inl a)) (inl b) =
        absurd (omega (arith, ap length e, ap length a, length-append bs (pending net'.inbox)))
    all_read (inr (inr a)) (inl b) =
        inr (inr (feed_all-IsEnded (feed_all x bs) cs (feed_all-IsEnded x bs a)))
Reads-more n x net net' bs fault e some_bytes h = h
Reads-more n x net net' bs blocked e some_bytes h = tt

abbrev then_events : ℕ → ℤ × Task × Net → Run (Task × Net)
then_events n (ret, t', net') = read_events n t' net'

next_event :
    (n : ℕ) (x : Feed) (net : Net) (r : Run (ℤ × Task × Net))
    → feed_all x (pending net.inbox) ≢ malformed
    → Follows x net r
    → ((t' : Task) (y : Feed) (net' : Net)
        → Tracks t' y
        → feed_all y (pending net'.inbox) ≢ malformed
        → Reads n y net' (read_events n t' net'))
    → Reads (suc n) x net (r >>= then_events n)
next_event n x net (returns (ret, t', net')) ok (bs, e, inl k, q, p) ih =
    Reads-more n x net net' bs (read_events n t' net') e p (
      ih t' (feed_all x bs) net' k
        (λ z. ok (ap (feed_all x) e ∙ feed_all-append x bs (pending net'.inbox) ∙ z)))
next_event n x net (returns (ret, t', net')) ok (bs, e, inr k, q, p) ih =
    absurd (beginning x bs (pending net'.inbox) (λ z. ok (ap (feed_all x) e ∙ z)) k)
next_event n x net fault ok (bs, rest, e, k) ih =
    absurd (beginning x bs rest (λ z. ok (ap (feed_all x) e ∙ z)) k)
next_event n x net blocked ok h ih = tt

-- If what has arrived is not malformed, then the read events follow it to its end: no event touches
-- foreign memory, and as many events as bytes have arrived read all of them, unless a packet
-- without data comes first. (An event may still wait for the kernel to take a command.)
pub read_events-Reads :
    (n : ℕ) (t : Task) (x : Feed) (net : Net)
    → Tracks t x
    → feed_all x (pending net.inbox) ≢ malformed
    → Reads n x net (read_events n t net)
unfolding read_events feed_all
read_events-Reads zero t x net k ok = ([], refl, k, none_left (pending net.inbox))
read_events-Reads (suc n) t x net k ok =
    next_event n x net (read_buffer t net) ok (read_buffer-Follows t x net k)
      (λ t' y net' k' ok'. read_events-Reads n t' y net' k' ok')
