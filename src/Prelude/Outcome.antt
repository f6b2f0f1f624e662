-- ===== src/Prelude/Outcome.antt =====
-- How a call of the program ends: it returns, it touches memory that it does not own (or a null
-- pointer), or it still waits for the kernel when the answers that the kernel gave are used up.
use mathlib.Core.Path.{◌≡◌, refl, subst}
use mathlib.Core.Logic.{◌≢◌, ◌⊎◌, inl, inr}
use mathlib.Core.Bool.{Bool, true, false}
use files_event.Prelude.Tests.{if◌then◌else◌}
use mathlib.Core.Option.{Option, none, some}

pub data Run {ℓ} (A : Type ℓ) : Type ℓ where
  returns : A → Run A
  fault : Run A
  blocked : Run A

infixl 5 ◌>>=◌ ◌>>◌
abbrev pub ◌>>=◌ {ℓ κ} : {A : Type ℓ} {B : Type κ} → Run A → (A → Run B) → Run B
returns a >>= f = f a
fault >>= f = fault
blocked >>= f = blocked

abbrev pub ◌>>◌ {ℓ} : {B : Type ℓ} → Run (Unit {0}) → Run B → Run B
m >> k = m >>= λ _. k

-- A read through a pointer that may be null.
abbrev pub deref {ℓ} : {A : Type ℓ} → Option A → Run A
deref none = fault
deref (some a) = returns a

-- What must hold for the access that follows to be in bounds.
abbrev pub in_bounds : Bool → Run (Unit {0})
in_bounds true = returns tt
in_bounds false = fault

pub >>=-eq-returns {ℓ κ} :
    {A : Type ℓ} {B : Type κ} (m : Run A) (f : A → Run B) {b : B}
    → (m >>= f) ≡ returns b
    → (a : A) × (m ≡ returns a) × (f a ≡ returns b)
>>=-eq-returns (returns a) f h = (a, refl, h)
>>=-eq-returns fault f h = cc
>>=-eq-returns blocked f h = cc

-- What holds of the result, if there is one.
abbrev pub Ensures {ℓ κ} : {A : Type ℓ} → (A → Type κ) → Run A → Type κ
Ensures P (returns a) = P a
Ensures P fault = Unit
Ensures P blocked = Unit

pub Ensures->>= {ℓ κ ι} :
    {A : Type ℓ} {B : Type κ} (P : B → Type ι) (m : Run A) (f : A → Run B)
    → ((a : A) → m ≡ returns a → Ensures P (f a))
    → Ensures P (m >>= f)
Ensures->>= P (returns a) f h = h a refl
Ensures->>= P fault f h = tt
Ensures->>= P blocked f h = tt

-- It holds of each result that is returned.
pub Ensures-returns {ℓ κ} :
    {A : Type ℓ} (P : A → Type κ) (m : Run A) {a : A} → Ensures P m → m ≡ returns a → P a
Ensures-returns P m h e = subst (λ r. Ensures P r) (e) h

pub Ensures-bind {ℓ κ ι υ} :
    {A : Type ℓ} {B : Type κ} (Q : A → Type υ) (P : B → Type ι) (m : Run A) (f : A → Run B)
    → Ensures Q m
    → ((a : A) → Q a → Ensures P (f a))
    → Ensures P (m >>= f)
Ensures-bind Q P (returns a) f q h = h a q
Ensures-bind Q P fault f q h = tt
Ensures-bind Q P blocked f q h = tt

pub Ensures-if {ℓ κ} :
    {A : Type ℓ} (P : A → Type κ) (b : Bool) (m n : Run A)
    → Ensures P m
    → Ensures P n
    → Ensures P (if b then m else n)
Ensures-if P true m n p q = p
Ensures-if P false m n p q = q

pub Ensures-when {ℓ κ} :
    {A : Type ℓ} (P : A → Type κ) (b : Bool) (m n : Run A)
    → b ≡ true
    → Ensures P m
    → Ensures P (if b then m else n)
Ensures-when P true m n e p = p
Ensures-when P false m n e p = cc

pub Ensures-deref {ℓ κ ι} :
    {A : Type ℓ} {B : Type κ} (P : B → Type ι) (o : Option A) (a : A) (f : A → Run B)
    → o ≡ some a
    → Ensures P (f a)
    → Ensures P (deref o >>= f)
Ensures-deref P none a f e h = cc
Ensures-deref P (some b) a f e h = let same : a ≡ b = cc in subst (λ c. Ensures P (f c)) same h

pub Ensures-split {ℓ κ} :
    {A : Type ℓ} (P : A → Type κ) (b : Bool) (m n : Run A)
    → (b ≡ true → Ensures P m)
    → (b ≡ false → Ensures P n)
    → Ensures P (if b then m else n)
Ensures-split P true m n p q = p refl
Ensures-split P false m n p q = q refl

-- It holds of the result, and no foreign memory is touched.
abbrev pub Secures {ℓ} : {A : Type ℓ} → (A → Type 0) → Run A → Type 0
Secures P (returns a) = P a
Secures P fault = ⊥
Secures P blocked = Unit

pub Secures-bind {ℓ κ} :
    {A : Type ℓ} {B : Type κ} (Q : A → Type 0) (P : B → Type 0) (m : Run A) (f : A → Run B)
    → Secures Q m
    → ((a : A) → Q a → Secures P (f a))
    → Secures P (m >>= f)
Secures-bind Q P (returns a) f q h = h a q
Secures-bind Q P fault f q h = absurd q
Secures-bind Q P blocked f q h = tt

pub Secures-ne-fault {ℓ} : {A : Type ℓ} (P : A → Type 0) (r : Run A) → Secures P r → r ≢ fault
Secures-ne-fault P (returns a) h e = cc
Secures-ne-fault P fault h e = absurd h
Secures-ne-fault P blocked h e = cc

pub Secures-Ensures {ℓ} : {A : Type ℓ} (P : A → Type 0) (r : Run A) → Secures P r → Ensures P r
Secures-Ensures P (returns a) h = h
Secures-Ensures P fault h = tt
Secures-Ensures P blocked h = tt

pub fault->>= {ℓ κ} :
    {A : Type ℓ} {B : Type κ} (m : Run A) (f : A → Run B)
    → Ensures (λ a. f a ≢ fault) m
    → (m >>= f) ≡ fault
    → m ≡ fault
fault->>= (returns a) f h e = absurd (h e)
fault->>= fault f h e = refl
fault->>= blocked f h e = cc

pub Ensures-all {ℓ κ} : {A : Type ℓ} (P : A → Type κ) (m : Run A) → ((a : A) → P a) → Ensures P m
Ensures-all P (returns a) h = h a
Ensures-all P fault h = tt
Ensures-all P blocked h = tt

pub fault-deref {ℓ κ} :
    {A : Type ℓ} {B : Type κ} (o : Option A) (a : A) (f : A → Run B)
    → o ≡ some a
    → (deref o >>= f) ≡ fault
    → f a ≡ fault
fault-deref none a f e h = cc
fault-deref (some b) a f e h = let same : b ≡ a = cc in subst (λ c. f c ≡ fault) same h

pub fault-if {ℓ} :
    {A : Type ℓ} (b : Bool) (m : Run A) (a : A)
    → (if b then m else returns a) ≡ fault
    → (b ≡ true) × (m ≡ fault)
fault-if true m a h = (refl, h)
fault-if false m a h = cc

-- Of two calls one after the other, one touches foreign memory.
pub fault-then {ℓ κ} :
    {A : Type ℓ} {B : Type κ} (m : Run A) (f : A → Run B)
    → (m >>= f) ≡ fault
    → (m ≡ fault) ⊎ ((a : A) × (m ≡ returns a) × (f a ≡ fault))
fault-then (returns a) f h = inr (a, refl, h)
fault-then fault f h = inl refl
fault-then blocked f h = cc
