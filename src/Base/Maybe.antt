-- ===== src/Base/Maybe.antt =====
-- Chains of steps that may fail with one kind of error, as Option.
use mathlib.Core.Path.{◌≡◌, refl}
use mathlib.Core.Bool.{Bool, true, false}
use mathlib.Core.Option.{Option, none, some}

infixl 5 ◌>>=◌ ◌>>◌
abbrev pub ◌>>=◌ {ℓ κ} : {A : Type ℓ} {B : Type κ} → Option A → (A → Option B) → Option B
none >>= f = none
some a >>= f = f a

abbrev pub ◌>>◌ {ℓ} : {B : Type ℓ} → Option (Unit {0}) → Option B → Option B
m >> k = m >>= λ _. k

abbrev pub guard : Bool → Option (Unit {0})
guard true = some tt
guard false = none

-- Inversion of a step that went through.
pub >>=-eq-some {ℓ κ} :
    {A : Type ℓ} {B : Type κ} (m : Option A) (f : A → Option B) {b : B}
    → (m >>= f) ≡ some b
    → (a : A) × (m ≡ some a) × (f a ≡ some b)
>>=-eq-some none f h = absurd (cc)
>>=-eq-some (some a) f h = (a, refl, h)

pub guard-eq-some : (b : Bool) {u : Unit {0}} → guard b ≡ some u → b ≡ true
guard-eq-some true h = refl
guard-eq-some false h = absurd (cc)

pub some_same : {A : Type 0} (a b : A) → some a ≡ some b → a ≡ b
some_same a b e = cc

-- Two results of one call are the same.
pub some_pair :
    {A B : Type 0} (m : Option (A × B)) (a c : A) (b d : B)
    → m ≡ some (a, b)
    → m ≡ some (c, d)
    → (a ≡ c) × (b ≡ d)
some_pair m a c b d e f = ((cc), (cc))
