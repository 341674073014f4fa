-- ===== src/Protocol/Grail/Sketch.antt =====
-- Bounds of the sketch, and what its check accepts.
use subnet.Base.{
  ℕ, suc, ◌+◌, ◌-◌, ◌*◌, ◌%◌, ◌≤◌, ◌<◌, ℤ, pos, negsuc, ◌+ℤ◌, ◌-ℤ◌, ◌*ℤ◌, neg_ℤ, abs_ℤ, true, List,
  [], ◌∷◌, nat_eq, ltb, leb, length, ◌≡◌, ◌⊎◌, ◌↔◌, inl, inr, arith, All, Bool-cases, some, String,
  take, length-take, All-take,
}
use subnet.Base.Float.{Float}
use subnet.Protocol.Constants.{prime_q}
use subnet.Base.Maybe.{◌>>=◌, >>=-eq-some, some_same}
use subnet.Base.Text.{codes}
use subnet.Protocol.Bytes.{Bytes, clean_hex, from_hex}
use subnet.Protocol.Crypto.{Hashes, frame, label_sketch, prf}
use subnet.Protocol.Grail.Defs.{
  proof_topk, generate_r_vec, coefficient, coefficients, dot, verify_sketch, log_magnitude_bucket,
  buckets,
}

-- -n ≤ a ≤ n
abbrev pub Within : ℕ → ℤ → Type 0
Within n a = abs_ℤ a ≤ n

-- Every coefficient of the projection lies in [-127, 127], from whatever two bytes.
pub coefficient-Within : (hi lo : ℕ) → hi < 256 → lo < 256 → Within 127 (coefficient hi lo)
unfolding coefficient ◌-ℤ◌
coefficient-Within hi lo p q = ground arith

pub coefficients-Within :
    (raw : Bytes) → All (λ b. b < 256) raw → All (Within 127) (coefficients raw)
unfolding coefficients
coefficients-Within [] h = tt
coefficients-Within (hi ∷ []) h = tt
coefficients-Within (hi ∷ lo ∷ raw) h =
    (coefficient-Within hi lo h.0 h.1.0, coefficients-Within raw h.1.1)

module _ {F : Type 0} (fl : Float F) where
  -- Every bucket lies in [-7, 7], also for infinite and undefined activations.
  pub log_magnitude_bucket-Within : (value : F) → Within 7 (log_magnitude_bucket fl value 8)
  unfolding log_magnitude_bucket ◌-ℤ◌ neg_ℤ
  log_magnitude_bucket-Within value = ground arith

  pub buckets-Within : (vs : List F) → All (Within 7) (buckets fl vs)
  unfolding buckets
  buckets-Within [] = tt
  buckets-Within (v ∷ vs) = (log_magnitude_bucket-Within v, buckets-Within vs)

product-le : (m n : ℕ) → m ≤ 7 → n ≤ 127 → m * n ≤ 889
product-le m n p q = grind arith

abs-+ℤ : (a b : ℤ) → abs_ℤ (a +ℤ b) ≤ abs_ℤ a + abs_ℤ b
unfolding ◌+ℤ◌
abs-+ℤ a b = ground arith

product-Within : (a b : ℤ) → Within 7 a → Within 127 b → Within 889 (a *ℤ b)
unfolding ◌*ℤ◌
product-Within (pos m) (pos n) p q = ground (arith, product-le m n)
product-Within (pos m) (negsuc n) p q = ground (arith, product-le m (suc n))
product-Within (negsuc m) (pos n) p q = ground (arith, product-le (suc m) n)
product-Within (negsuc m) (negsuc n) p q = ground (arith, product-le (suc m) (suc n))

dot-Within :
    (xs ys : List ℤ)
    → All (Within 7) xs
    → All (Within 127) ys
    → Within (889 * length ys) (dot xs ys)
unfolding dot
dot-Within [] ys a b = omega arith
dot-Within (x ∷ xs) [] a b = omega arith
dot-Within (x ∷ xs) (y ∷ ys) a b =
    omega (arith, abs-+ℤ (x *ℤ y) (dot xs ys), product-Within x y a.0 b.0, dot-Within xs ys a.1 b.1)

-- The coefficients that the window's randomness gives: at most sixteen, each in [-127, 127].
generate_r_vec-Within :
    (h : Hashes) (randomness : String) {r_vec : List ℤ}
    → ((x : Bytes) (n : ℕ) → All (λ b. b < 256) (h.shake256 x n))
    → generate_r_vec h randomness ≡ some r_vec
    → All (Within 127) r_vec × (length r_vec ≤ 16)
unfolding generate_r_vec prf
generate_r_vec-Within h randomness {r_vec} bytes made =
    let (seed, parsed, rest) =
      >>=-eq-some (from_hex (clean_hex (codes randomness)))
        (λ seed. prf h label_sketch (seed ∷ []) (2 * proof_topk) >>= λ raw.
          some (take proof_topk (coefficients raw)))
        made in
    let raw = h.shake256 (frame (label_sketch ∷ seed ∷ [])) 32 in
    let same : take 16 (coefficients raw) ≡ r_vec = some_same _ r_vec rest in
    rw (← same) (
      All-take (Within 127) 16 (coefficients raw) (coefficients-Within raw (bytes _ 32)),
      omega (arith, length-take 16 (coefficients raw)),
    )

-- For activations of any values, infinite and undefined ones included, and the coefficients of any
-- window's randomness, every partial sum of the sketch's inner product of buckets and coefficients
-- is at most 14224 in absolute value, so that it fits the 32-bit integers in which it is taken.
-- Of SHAKE-256 it is assumed that its output is bytes.
pub sketch_sums-Within :
    {F : Type 0} (fl : Float F) (values : List F) (h : Hashes) (randomness : String)
    {r_vec : List ℤ} (n : ℕ)
    → ((x : Bytes) (k : ℕ) → All (λ b. b < 256) (h.shake256 x k))
    → generate_r_vec h randomness ≡ some r_vec
    → Within 14224 (dot (take n (buckets fl values)) (take n r_vec))
sketch_sums-Within fl values h randomness {r_vec} n bytes made =
    let (each, size) = generate_r_vec-Within h randomness {r_vec = r_vec} bytes made in
    omega (
      arith,
      size,
      length-take n r_vec,
      dot-Within (take n (buckets fl values)) (take n r_vec)
          (All-take (Within 7) n (buckets fl values) (buckets-Within fl values))
          (All-take (Within 127) n r_vec each),
    )

-- The distance between two numbers.
gap : ℕ → ℕ → ℕ
gap v m = (v - m) + (m - v)

verify_sketch-gap :
    (v m tolerance : ℕ)
    → v < prime_q
    → m < prime_q
    → ((verify_sketch v (pos m) (pos tolerance)).0 ≡ true)
      ↔ ((gap v m ≤ tolerance) ⊎ (prime_q - gap v m ≤ tolerance))
unfolding verify_sketch ◌-ℤ◌ gap
verify_sketch-gap v m tolerance p q = (λ h. ground arith, λ h. ground arith)

-- For a sketch in range the check accepts exactly those within `tolerance` of the validator's
-- own, around the circle of residues modulo PRIME_Q.
pub verify_sketch_iff :
    (v m tolerance : ℕ)
    → v < prime_q
    → m < prime_q
    → tolerance < prime_q
    → ((verify_sketch v (pos m) (pos tolerance)).0 ≡ true)
      ↔ ((d : ℕ) × (d ≤ tolerance) × (((v + d) % prime_q ≡ m) ⊎ ((m + d) % prime_q ≡ v)))
unfolding gap
verify_sketch_iff v m tolerance p q t = (forth, back)
  where
    forth :
        (verify_sketch v (pos m) (pos tolerance)).0 ≡ true
        → (d : ℕ) × (d ≤ tolerance) × (((v + d) % prime_q ≡ m) ⊎ ((m + d) % prime_q ≡ v))
    forth h = elim ((verify_sketch-gap v m tolerance p q).0 h) [
      | inl near ↦ (
        gap v m,
        near,
        elim (Bool-cases (leb v m)) [
          | inl below ↦ inl (ground arith)
          | inr above ↦ inr (ground arith)
        ],
      )
      | inr around ↦ (
        prime_q - gap v m,
        around,
        elim (Bool-cases (leb v m)) [
          | inl below ↦ inr (ground arith)
          | inr above ↦ inl (ground arith)
        ],
      )
    ]

    back :
        ((d : ℕ) × (d ≤ tolerance) × (((v + d) % prime_q ≡ m) ⊎ ((m + d) % prime_q ≡ v)))
        → (verify_sketch v (pos m) (pos tolerance)).0 ≡ true
    back (d, le, inl e) =
        (verify_sketch-gap v m tolerance p q).1 (elim (Bool-cases (ltb (v + d) prime_q)) [
          | inl straight ↦ inl (ground arith)
          | inr wrapped ↦ inr (ground arith)
        ])
    back (d, le, inr e) =
        (verify_sketch-gap v m tolerance p q).1 (elim (Bool-cases (ltb (m + d) prime_q)) [
          | inl straight ↦ inl (ground arith)
          | inr wrapped ↦ inr (ground arith)
        ])

-- The check does not ask that the sketch be in range: a sketch of 2 * PRIME_Q or more is accepted
-- against every validator sketch, since the distance wraps to a negative number.
pub verify_sketch_forged :
    (v m tolerance : ℕ)
    → v < prime_q
    → 2 * prime_q ≤ m
    → (verify_sketch v (pos m) (pos tolerance)).0 ≡ true
unfolding verify_sketch ◌-ℤ◌
verify_sketch_forged v m tolerance p h = ground arith
