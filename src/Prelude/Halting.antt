-- ===== src/Prelude/Halting.antt =====
-- kernel/include/debug.h: `Assert` and `Panic` print a message and halt the machine. Code that may
-- halt returns `none` in that case, and a chain of such code is a `do` block.
use mathlib.Core.Path.{◌≡◌, refl}
use mathlib.Core.Bool.{Bool, true, false}
use mathlib.Core.Option.{Option, none, some}

infixl 5 ◌>>=◌ ◌>>◌
abbrev pub ◌>>=◌ {ℓ κ} : {A : Type ℓ} {B : Type κ} → Option A → (A → Option B) → Option B
none >>= f = none
some a >>= f = f a

abbrev pub ◌>>◌ {ℓ} : {B : Type ℓ} → Option (Unit {0}) → Option B → Option B
m >> k = m >>= λ _. k

abbrev pub assert : Bool → Option (Unit {0})
assert true = some tt
assert false = none

-- Inversion of a bind that does not halt.
pub >>=-eq-some {ℓ κ} :
    {A : Type ℓ} {B : Type κ} (m : Option A) (f : A → Option B) {b : B}
    → (m >>= f) ≡ some b
    → (a : A) × (m ≡ some a) × (f a ≡ some b)
>>=-eq-some none f h = cc
>>=-eq-some (some a) f h = (a, refl, h)

-- Two runs of the same code end alike.
pub same_run {ℓ κ} :
    {A : Type ℓ} {B : Type κ} {m : Option (A × B)} {a a' : A} {b b' : B}
    → m ≡ some (a, b)
    → m ≡ some (a', b')
    → (a ≡ a') × (b ≡ b')
same_run {A = A} {B = B} {a = a} {a' = a'} {b = b} {b' = b'} e e' =
    (λ i. left (joined i), λ i. right (joined i))
  where
    joined : ◌≡◌ {A = Option (A × B)} (some (a, b)) (some (a', b'))
    joined = cc

    left : Option (A × B) → A
    left none = a
    left (some (x, y)) = x

    right : Option (A × B) → B
    right none = b
    right (some (x, y)) = y
