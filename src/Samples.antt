-- ===== src/Samples.antt =====
-- Concrete values for the parameters of the model: what the examples run on. None of it stands
-- for what the real libraries compute.
use subnet.Base.{
  ℕ, zero, suc, ◌+◌, ◌-◌, ◌*◌, ◌/◌, ◌^◌, ℤ, pos, negsuc, ◌+ℤ◌, ◌-ℤ◌, ◌*ℤ◌, neg_ℤ, abs_ℤ, ltb_ℤ,
  leb_ℤ, int_beq, false, none, some, List, [], ◌∷◌, if◌then◌else◌, leb, replicate, length, ◌≡◌,
  refl, ◌≤◌, ◌<◌, All, In, Distinct, arith, inl, inr, min,
}
use subnet.Base.Float.{Float}
use subnet.Protocol.Bytes.{Bytes}
use subnet.Protocol.Crypto.{Hashes, Rng}
use subnet.Protocol.Crypto.Indices.{IsRng}
use subnet.Validator.Selection.Order.{IsRanked}

-- Decimals in units of 10 ^ -8.
abbrev pub unit : ℕ
unit = 100000000

abbrev pub cut : ℤ → ℕ → ℤ
cut (pos a) n = pos (a / n)
cut (negsuc a) n = neg_ℤ (pos (suc a / n))

-- Newton's iteration for the square root.
unfoldable pub root : ℕ → ℕ → ℕ → ℕ
root zero n x = x
root (suc rounds) n x = root rounds n ((x + n / x) / 2)

abbrev pub halvings : ℕ → ℕ → ℕ
halvings zero n = 0
halvings (suc rounds) n = if leb n 1 then 0 else suc (halvings rounds (n / 2))

unfoldable pub sqrt : ℤ → ℤ
unfolding root
sqrt a = pos (root 40 (abs_ℤ a * unit) (unit + abs_ℤ a))

pub sqrt-pos : (a : ℤ) → (r : ℕ) × (sqrt a ≡ pos r)
unfolding sqrt
sqrt-pos a = (root 40 (abs_ℤ a * unit) (unit + abs_ℤ a), refl)

abbrev pub fixed : Float ℤ
fixed = record {
  of_int = λ z. z *ℤ pos unit;
  decimal = λ m k. pos (m * 10 ^ (8 - k));
  add = λ a b. a +ℤ b;
  sub = λ a b. a -ℤ b;
  mul = λ a b. cut (a *ℤ b) unit;
  div = λ a b. cut (a *ℤ pos unit) (abs_ℤ b);
  sqrt = sqrt;
  pow = λ a b. if int_beq b (pos (2 * unit)) then cut (a *ℤ a) unit else sqrt a;
  log2 = λ a. pos (halvings 64 (abs_ℤ a / unit) * unit);
  is_nan = λ _. false;
  is_inf = λ _. false;
  exp = λ a. if leb_ℤ a (pos (709 * unit)) then some (a +ℤ pos unit) else none;
  abs = λ a. pos (abs_ℤ a);
  inf = pos (10 ^ 30);
  lt = ltb_ℤ;
  le = leb_ℤ;
  eq = int_beq;
  trunc = λ a. cut a unit;
}

abbrev pub fixed_ranked : IsRanked fixed
fixed_ranked = record { rank = λ a. a; lt_rank = λ x y. refl; eq_rank = λ x y. refl }

-- A digest that depends on the length only.
abbrev pub sized : Bytes → Bytes
sized x = replicate 32 (length x)

abbrev pub hashes : Hashes
hashes = record { sha256 = sized; shake256 = λ x n. replicate n (length x) }

-- `from, from + 1, ...`, `k` numbers.
abbrev pub upto : ℕ → ℕ → List ℕ
upto from zero = []
upto from (suc k) = from ∷ upto (suc from) k

abbrev pub rng : Rng
rng = record { sample = λ m n k. upto 0 (min k n); shuffled = λ m n. upto 0 n }

length-upto : (from k : ℕ) → length (upto from k) ≡ k
length-upto from zero = refl
length-upto from (suc k) = omega (arith, length-upto (suc from) k)

upto_below : (from k bound : ℕ) → from + k ≤ bound → All (λ i. i < bound) (upto from k)
upto_below from zero bound h = tt
upto_below from (suc k) bound h =
    (omega (arith, h), upto_below (suc from) k bound (omega (arith, h)))

In-upto : (from k i : ℕ) → In i (upto from k) → from ≤ i
In-upto from zero i m = absurd m
In-upto from (suc k) i (inl same) = omega (arith, same)
In-upto from (suc k) i (inr later) = omega (arith, In-upto (suc from) k i later)

Distinct-upto : (from k : ℕ) → Distinct (upto from k)
Distinct-upto from zero = tt
Distinct-upto from (suc k) =
    ((λ m. absurd (omega (arith, In-upto (suc from) k from m))), Distinct-upto (suc from) k)

pub rng-IsRng : IsRng rng
rng-IsRng = record {
  length_sample = λ m n k h. omega (arith, h, length-upto 0 (min k n));
  sample_below = λ m n k. upto_below 0 (min k n) n (omega arith);
  sample_distinct = λ m n k. Distinct-upto 0 (min k n);
  length_shuffled = λ m n. length-upto 0 n;
  shuffled_below = λ m n. upto_below 0 n n (omega arith);
  shuffled_distinct = λ m n. Distinct-upto 0 n;
}
