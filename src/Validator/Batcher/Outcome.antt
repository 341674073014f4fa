-- ===== src/Validator/Batcher/Outcome.antt =====
-- What a step of `_accept_locked` (validator/batcher.py) comes to: a value to go on with, an early
-- return with a reason, or an exception that leaves the method.
use subnet.Base.{Bool, true, false, Option, none, some, ◌≡◌, refl, ◌⊎◌, inl, inr}
use subnet.Protocol.Reason.{RejectReason}

pub data Outcome (A : Type 0) : Type 0 where
  ok : A → Outcome A
  reject : RejectReason → Outcome A
  raise : Outcome A

infixl 5 ◌>>=◌ ◌>>◌
abbrev pub ◌>>=◌ : {A B : Type 0} → Outcome A → (A → Outcome B) → Outcome B
ok a >>= f = f a
reject reason >>= f = reject reason
raise >>= f = raise

abbrev pub ◌>>◌ : {B : Type 0} → Outcome (Unit {0}) → Outcome B → Outcome B
m >> k = m >>= λ _. k

-- `if not test: return self._reject(reason)`
abbrev pub require : RejectReason → Bool → Outcome (Unit {0})
require reason true = ok tt
require reason false = reject reason

abbrev pub or_reject : {A : Type 0} → RejectReason → Option A → Outcome A
or_reject reason none = reject reason
or_reject reason (some a) = ok a

abbrev pub or_raise : {A : Type 0} → Option A → Outcome A
or_raise none = raise
or_raise (some a) = ok a

-- Inversions of a step that went through.
pub >>=-eq-ok :
    {A B : Type 0} (step : Outcome A) (next : A → Outcome B) {result : B}
    → (step >>= next) ≡ ok result
    → (value : A) × (step ≡ ok value) × (next value ≡ ok result)
>>=-eq-ok raise next went = absurd (cc)
>>=-eq-ok (reject reason) next went = absurd (cc)
>>=-eq-ok (ok value) next went = (value, refl, went)

pub require-eq-ok :
    (reason : RejectReason) (b : Bool) {u : Unit {0}} → require reason b ≡ ok u → b ≡ true
require-eq-ok reason true h = refl
require-eq-ok reason false h = absurd (cc)

pub or_reject-eq-ok :
    {A : Type 0} (reason : RejectReason) (o : Option A) {a : A}
    → or_reject reason o ≡ ok a
    → o ≡ some a
or_reject-eq-ok reason none h = absurd (cc)
or_reject-eq-ok reason (some a) h = cc

pub or_raise-eq-ok : {A : Type 0} (o : Option A) {a : A} → or_raise o ≡ ok a → o ≡ some a
or_raise-eq-ok none h = absurd (cc)
or_raise-eq-ok (some a) h = cc

pub Outcome-cases :
    {A : Type 0} (m : Outcome A)
    → ((a : A) × (m ≡ ok a)) ⊎ ((reason : RejectReason) × (m ≡ reject reason)) ⊎ (m ≡ raise)
Outcome-cases (ok a) = inl (a, refl)
Outcome-cases (reject r) = inr (inl (r, refl))
Outcome-cases raise = inr (inr refl)
