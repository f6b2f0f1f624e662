-- ===== src/Memory.antt =====
-- Byte buffers. A buffer's bytes are a function of the offset, its capacity is a number beside it;
-- a byte is a number below 256. What a read finds past the bytes that were written is whatever the
-- function holds there.
use files_event.Prelude.{
  ℕ, zero, suc, ◌+◌, ◌-◌, ◌*◌, ◌/◌, ◌%◌, ◌^◌, ◌≤◌, ◌<◌, ◌≡◌, refl, ap, ap₂, ◌∙◌, List, [], ◌∷◌,
  ◌++◌, arith, ltb, leb, if◌then◌else◌, Run, returns, fault, length, get_or, get_or_default,
}

abbrev pub Memory : Type 0
Memory = ℕ → ℕ

-- `memset(p, 0, n)`, also what `calloc` returns.
abbrev pub zeroed : Memory
zeroed _ = 0

-- `memcpy(p + off, bytes, length bytes)` into memory that is large enough.
unfoldable pub store : Memory → ℕ → List ℕ → Memory
store m off bs i = if ltb i off then m i else get_or bs (i - off) (m i)

-- The same, with the capacity of `p` checked: a write past the end is a fault.
abbrev pub store_in : ℕ → Memory → ℕ → List ℕ → Run Memory
store_in cap m off bs = if leb (off + length bs) cap then returns (store m off bs) else fault

-- The `n` bytes from `p + off` on.
unfoldable pub load : Memory → ℕ → ℕ → List ℕ
load m off zero = []
load m off (suc n) = m off ∷ load m (off + 1) n

abbrev pub load_in : ℕ → Memory → ℕ → ℕ → Run (List ℕ)
load_in cap m off n = if leb (off + n) cap then returns (load m off n) else fault

-- An `unsigned int` in the little-endian order of the platforms that the program is built for. Of
-- each cell it takes the eight bits that a `char` has.
unfoldable pub u32_bytes : ℕ → List ℕ
u32_bytes v = v % 256 ∷ (v / 256) % 256 ∷ (v / 65536) % 256 ∷ (v / 16777216) % 256 ∷ []

unfoldable pub get_u32 : Memory → ℕ → ℕ
get_u32 m off =
    m off % 256
    + 256 * (m (off + 1) % 256)
    + 65536 * (m (off + 2) % 256)
    + 16777216 * (m (off + 3) % 256)

pub get_u32-lt : (m : Memory) (off : ℕ) → get_u32 m off < 2 ^ 32
unfolding get_u32
get_u32-lt m off = omega arith

-- The bytes of a list, read as a buffer.
abbrev pub as_memory : List ℕ → Memory
as_memory bs i = get_or bs i 0

pub length-load : (m : Memory) (off n : ℕ) → length (load m off n) ≡ n
unfolding load
length-load m off zero = refl
length-load m off (suc n) = ap suc (length-load m (off + 1) n)

pub load-add : (m : Memory) (off a b : ℕ) → load m off (a + b) ≡ load m off a ++ load m (off + a) b
unfolding load
load-add m off zero b = ap₂ (λ (x y : ℕ). load m x y) (omega arith) (omega arith)
load-add m off (suc a) b =
    ap (load m off) {x = suc a + b} {y = suc (a + b)} (omega arith)
    ∙ ap (λ r. m off ∷ r)
        (load-add m (off + 1) a b
          ∙ ap (λ k. load m (off + 1) a ++ load m k b) {x = off + 1 + a} {y = off + suc a}
              (omega arith))

pub load_ext :
    (m m' : Memory) (off n : ℕ)
    → ((i : ℕ) → off ≤ i → i < off + n → m i ≡ m' i)
    → load m off n ≡ load m' off n
unfolding load
load_ext m m' off zero h = refl
load_ext m m' off (suc n) h =
    ap₂ ◌∷◌ (h off (omega arith) (omega arith))
      (load_ext m m' (off + 1) n (λ i p q. h i (omega arith) (omega arith)))

pub load_of_get :
    (m : Memory) (off : ℕ) (bs : List ℕ)
    → ((i : ℕ) → i < length bs → m (off + i) ≡ get_or bs i 0)
    → load m off (length bs) ≡ bs
unfolding load
load_of_get m off [] h = refl
load_of_get m off (b ∷ bs) h =
    ap₂ ◌∷◌ (ap m {x = off} {y = off + 0} (omega arith) ∙ h 0 (omega arith)) (
      load_of_get m (off + 1) bs
        (λ i p. ap m {x = off + 1 + i} {y = off + suc i} (omega arith) ∙ h (suc i) (omega arith)))

pub store_before : (m : Memory) (off : ℕ) (bs : List ℕ) (i : ℕ) → i < off → store m off bs i ≡ m i
unfolding store
store_before m off bs i h = ground arith

pub store_at :
    (m : Memory) (off : ℕ) (bs : List ℕ) (k : ℕ)
    → k < length bs
    → store m off bs (off + k) ≡ get_or bs k 0
unfolding store
store_at m off bs k h = ground (
  arith,
  ap (λ j. get_or bs j (m (off + k))) {x = off + k - off} {y = k} (omega arith),
  get_or_default bs k (m (off + k)) 0 h,
)

get_or_beyond : (bs : List ℕ) (i d : ℕ) → length bs ≤ i → get_or bs i d ≡ d
get_or_beyond [] i d h = refl
get_or_beyond (b ∷ bs) zero d h = absurd (omega arith)
get_or_beyond (b ∷ bs) (suc i) d h = get_or_beyond bs i d (omega arith)

pub store_after :
    (m : Memory) (off : ℕ) (bs : List ℕ) (i : ℕ) → off + length bs ≤ i → store m off bs i ≡ m i
unfolding store
store_after m off bs i h = ground (arith, get_or_beyond bs (i - off) (m i) (omega arith))

-- What was stored is read back.
pub load-store : (m : Memory) (off : ℕ) (bs : List ℕ) → load (store m off bs) off (length bs) ≡ bs
load-store m off bs = load_of_get (store m off bs) off bs (λ i h. store_at m off bs i h)

-- A store leaves what lies below it.
pub load-store_below :
    (m : Memory) (off : ℕ) (bs : List ℕ) (a n : ℕ)
    → a + n ≤ off
    → load (store m off bs) a n ≡ load m a n
load-store_below m off bs a n h =
    load_ext (store m off bs) m a n (λ i p q. store_before m off bs i (omega arith))

-- Bytes that arrive behind the `n` bytes already there extend them.
pub load-store_append :
    (m : Memory) (n : ℕ) (bs : List ℕ) → load (store m n bs) 0 (n + length bs) ≡ load m 0 n ++ bs
load-store_append m n bs =
    load-add (store m n bs) 0 n (length bs)
    ∙ ap₂ ◌++◌ (load-store_below m n bs 0 n (omega arith)) (
        ap (λ k. load (store m n bs) k (length bs)) {x = 0 + n} {y = n} (omega arith)
        ∙ load-store m n bs)

pub get_or-load : (m : Memory) (off n i : ℕ) → i < n → get_or (load m off n) i 0 ≡ m (off + i)
unfolding load
get_or-load m off zero i h = absurd (omega arith)
get_or-load m off (suc n) zero h = ap m {x = off} {y = off + 0} (omega arith)
get_or-load m off (suc n) (suc i) h =
    get_or-load m (off + 1) n i (omega arith)
    ∙ ap m {x = off + 1 + i} {y = off + suc i} (omega arith)

pub get_or-load_zero : (m : Memory) (n i : ℕ) → i < n → get_or (load m 0 n) i 0 ≡ m i
get_or-load_zero m n i h = get_or-load m 0 n i h ∙ ap m {x = 0 + i} {y = i} (omega arith)

-- A field that lies within the bytes read can be read off the list of those bytes.
pub get_u32-as_memory :
    (m : Memory) (n off : ℕ) → off + 4 ≤ n → get_u32 (as_memory (load m 0 n)) off ≡ get_u32 m off
unfolding get_u32
get_u32-as_memory m n off h = cc (
  get_or-load m 0 n off (omega arith) ∙ ap m {x = 0 + off} {y = off} (omega arith),
  get_or-load m 0 n (off + 1) (omega arith) ∙ ap m {x = 0 + (off + 1)} {y = off + 1} (omega arith),
  get_or-load m 0 n (off + 2) (omega arith) ∙ ap m {x = 0 + (off + 2)} {y = off + 2} (omega arith),
  get_or-load m 0 n (off + 3) (omega arith) ∙ ap m {x = 0 + (off + 3)} {y = off + 3} (omega arith),
)

-- An `unsigned int` that was stored is read back.
pub get_u32-store :
    (m : Memory) (off v : ℕ) → v < 2 ^ 32 → get_u32 (store m off (u32_bytes v)) off ≡ v
unfolding get_u32 u32_bytes
get_u32-store m off v h = omega (
  arith,
  store_at m off (u32_bytes v) 0 (omega arith),
  store_at m off (u32_bytes v) 1 (omega arith),
  store_at m off (u32_bytes v) 2 (omega arith),
  store_at m off (u32_bytes v) 3 (omega arith),
  ap (store m off (u32_bytes v)) {x = off + 0} {y = off} (omega arith),
)

-- A field below a store is left as it is.
pub get_u32-store_below :
    (m : Memory) (a : ℕ) (bs : List ℕ) (off : ℕ)
    → off + 4 ≤ a
    → get_u32 (store m a bs) off ≡ get_u32 m off
unfolding get_u32
get_u32-store_below m a bs off h = cc (
  store_before m a bs off (omega arith),
  store_before m a bs (off + 1) (omega arith),
  store_before m a bs (off + 2) (omega arith),
  store_before m a bs (off + 3) (omega arith),
)
