-- ===== src/FileRecv/Stream.antt =====
-- What the server's byte stream means to a client, byte by byte: the packets are the head and the
-- `dwLength` bytes behind it, one after the other, and it does not matter how they arrive.
use files_event.Prelude.{
  ℕ, ◌+◌, ◌≤◌, ◌<◌, ◌≡◌, refl, List, [], ◌∷◌, ◌++◌, ltb, leb, ◌==◌, if◌then◌else◌, true, false,
  length, arith, ap, ◌∙◌, sym, append_assoc, length-append, get_or-append_left, ◌≢◌,
}
use native.Mathlib.Decide.{dec_le}
use files_event.Memory.{as_memory, get_u32, load}
use files_event.Wire.{code_of, files, loginret, sizeof_net_cmd}
use files_event.Transport.{add_int}
use files_event.FileRecv.{recv_mem_len}

-- What the packets so far have told: the bytes of the file, its announced length, and the count.
pub record Saved : Type 0 where
  pub content : List ℕ
  pub expected : ℕ
  pub count : ℕ

-- `awaiting` holds the bytes of the packet that is under way. A packet without data is the last one
-- that is looked at. `malformed` is a packet that is too long for the client's buffer, or whose
-- fields point past its own end.
pub data Feed : Type 0 where
  awaiting : List ℕ → Saved → Feed
  ended : Saved → Feed
  malformed : Feed

unfoldable pub frame : List ℕ → Saved → Feed
frame p s =
    if leb (24 + get_u32 (as_memory p) 20) (length p)
    then awaiting [] (record {
      content = s.content ++ load (as_memory p) 24 (get_u32 (as_memory p) 20);
      expected = s.expected;
      count = add_int s.count (get_u32 (as_memory p) 20);
    })
    else malformed

unfoldable pub announce : List ℕ → Saved → Feed
announce p s =
    if leb 32 (length p)
    then awaiting [] (record s { expected = get_u32 (as_memory p) 28 })
    else malformed

-- A whole packet `p`.
unfoldable pub act : List ℕ → Saved → Feed
unfolding frame announce
act p s =
    if get_u32 (as_memory p) 4 == code_of files
    then frame p s
    else if get_u32 (as_memory p) 4 == code_of loginret
    then announce p s
    else awaiting [] s

-- At least a head has come.
unfoldable pub collected : List ℕ → Saved → Feed
unfolding act
collected p s =
    if ltb recv_mem_len (length p)
    then malformed
    else if get_u32 (as_memory p) 12 == 0
    then ended s
    else if length p == sizeof_net_cmd + get_u32 (as_memory p) 12
    then act p s
    else awaiting p s

unfoldable pub grown : List ℕ → Saved → Feed
unfolding collected
grown p s = if ltb (length p) sizeof_net_cmd then awaiting p s else collected p s

unfoldable pub feed : Feed → ℕ → Feed
unfolding grown
feed (awaiting p s) b = grown (p ++ (b ∷ [])) s
feed (ended s) b = ended s
feed malformed b = malformed

unfoldable pub feed_all : Feed → List ℕ → Feed
unfolding feed
feed_all f [] = f
feed_all f (b ∷ bs) = feed_all (feed f b) bs

-- The stream may be cut anywhere.
pub feed_all-append :
    (f : Feed) (bs cs : List ℕ) → feed_all f (bs ++ cs) ≡ feed_all (feed_all f bs) cs
unfolding feed_all
feed_all-append f [] cs = refl
feed_all-append f (b ∷ bs) cs = feed_all-append (feed f b) bs cs

pub feed_all-malformed : (bs : List ℕ) → feed_all malformed bs ≡ malformed
unfolding feed_all
feed_all-malformed [] = refl
feed_all-malformed (b ∷ bs) = feed_all-malformed bs

snoc_append : (p : List ℕ) (b : ℕ) (bs : List ℕ) → (p ++ (b ∷ [])) ++ bs ≡ p ++ (b ∷ bs)
snoc_append p b bs = append_assoc p (b ∷ []) bs

length-snoc : (p : List ℕ) (b : ℕ) → length (p ++ (b ∷ [])) ≡ length p + 1
length-snoc p b = length-append p (b ∷ [])

-- More bytes leave a field that has come as it is.
pub get_u32-append :
    (p bs : List ℕ) (off : ℕ)
    → off + 4 ≤ length p
    → get_u32 (as_memory (p ++ bs)) off ≡ get_u32 (as_memory p) off
unfolding get_u32
get_u32-append p bs off h = cc (
  get_or-append_left p bs off 0 (omega arith),
  get_or-append_left p bs (off + 1) 0 (omega arith),
  get_or-append_left p bs (off + 2) 0 (omega arith),
  get_or-append_left p bs (off + 3) 0 (omega arith),
)

pub grown_short : (p : List ℕ) (s : Saved) → length p < sizeof_net_cmd → grown p s ≡ awaiting p s
unfolding grown
grown_short p s h = ground arith

pub grown_long : (p : List ℕ) (s : Saved) → sizeof_net_cmd ≤ length p → grown p s ≡ collected p s
unfolding grown
grown_long p s h = ground arith

not_ltb : (a b : ℕ) → b ≤ a → ltb a b ≡ false
not_ltb a b h = ground arith

not_zero : (a : ℕ) → 0 < a → (a == 0) ≡ false
not_zero a h = ground arith

same : (a b : ℕ) → a ≡ b → (a == b) ≡ true
same a b h = ground arith

pub collected_over : (p : List ℕ) (s : Saved) → recv_mem_len < length p → collected p s ≡ malformed
unfolding collected
collected_over p s h = ground arith

pub collected_part :
    (p : List ℕ) (s : Saved)
    → length p ≤ recv_mem_len
    → 0 < get_u32 (as_memory p) 12
    → length p ≢ sizeof_net_cmd + get_u32 (as_memory p) 12
    → collected p s ≡ awaiting p s
unfolding collected
collected_part p s h pos_ ne = ground arith

-- Bytes that do not reach past the head are collected together.
feed_all-head :
    (p : List ℕ) (s : Saved) (b : ℕ) (bs : List ℕ)
    → length p + length (b ∷ bs) ≤ sizeof_net_cmd
    → feed_all (awaiting p s) (b ∷ bs) ≡ grown (p ++ (b ∷ bs)) s
unfolding feed_all
feed_all-head p s b [] h = refl
feed_all-head p s b (c ∷ cs) h =
    rw (grown_short (p ++ (b ∷ [])) s (omega (arith, length-snoc p b))) (
      feed_all-head (p ++ (b ∷ [])) s c cs (omega (arith, length-snoc p b))
      ∙ ap (λ q. grown q s) (snoc_append p b (c ∷ cs)))

-- So are bytes that do not reach past the packet's end.
feed_all-body :
    (p : List ℕ) (s : Saved) (b : ℕ) (bs : List ℕ)
    → sizeof_net_cmd ≤ length p
    → 0 < get_u32 (as_memory p) 12
    → length p + length (b ∷ bs) ≤ sizeof_net_cmd + get_u32 (as_memory p) 12
    → feed_all (awaiting p s) (b ∷ bs) ≡ collected (p ++ (b ∷ bs)) s
unfolding feed_all
feed_all-body p s b [] h pos_ fits = grown_long (p ++ (b ∷ [])) s (omega (arith, length-snoc p b))
feed_all-body p s b (c ∷ cs) h pos_ fits =
    rw (grown_long (p ++ (b ∷ [])) s (omega (arith, length-snoc p b)))
      elim (dec_le (length (p ++ (b ∷ []))) recv_mem_len) [
        | no over ↦
            rw (collected_over (p ++ (b ∷ [])) s (omega arith), feed_all-malformed cs)
              (sym (
                collected_over (p ++ (b ∷ c ∷ cs)) s
                  (omega (arith, length-append p (b ∷ c ∷ cs), length-snoc p b))))
        | yes under ↦
            rw
              (collected_part (p ++ (b ∷ [])) s under (omega (arith, field))
                (λ e. absurd (omega (arith, field, e, length-snoc p b))))
              (feed_all-body (p ++ (b ∷ [])) s c cs (omega (arith, length-snoc p b))
                  (omega (arith, field)) (omega (arith, field, length-snoc p b))
                ∙ ap (λ q. collected q s) (snoc_append p b (c ∷ cs)))
      ]
  where
    field : get_u32 (as_memory (p ++ (b ∷ []))) 12 ≡ get_u32 (as_memory p) 12
    field = get_u32-append p (b ∷ []) 12 (omega arith)

pub collected_whole :
    (p : List ℕ) (s : Saved)
    → length p ≤ recv_mem_len
    → 0 < get_u32 (as_memory p) 12
    → length p ≡ sizeof_net_cmd + get_u32 (as_memory p) 12
    → collected p s ≡ act p s
unfolding collected
collected_whole p s h pos_ e = rw (not_ltb _ _ h, not_zero _ pos_, same _ _ e)

pub head_fed :
    (p : List ℕ) (s : Saved) (bs : List ℕ)
    → 0 < length bs
    → length p + length bs ≤ sizeof_net_cmd
    → feed_all (awaiting p s) bs ≡ grown (p ++ bs) s
head_fed p s [] h fits = absurd (omega arith)
head_fed p s (b ∷ bs) h fits = feed_all-head p s b bs fits

pub body_fed :
    (p : List ℕ) (s : Saved) (bs : List ℕ)
    → 0 < length bs
    → sizeof_net_cmd ≤ length p
    → 0 < get_u32 (as_memory p) 12
    → length p + length bs ≤ sizeof_net_cmd + get_u32 (as_memory p) 12
    → feed_all (awaiting p s) bs ≡ collected (p ++ bs) s
body_fed p s [] h head pos_ fits = absurd (omega arith)
body_fed p s (b ∷ bs) h head pos_ fits = feed_all-body p s b bs head pos_ fits

pub collected_signal :
    (p : List ℕ) (s : Saved)
    → length p ≤ recv_mem_len
    → get_u32 (as_memory p) 12 ≡ 0
    → collected p s ≡ ended s
unfolding collected
collected_signal p s h e = rw (not_ltb _ _ h, same _ _ e)
