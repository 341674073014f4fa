-- ===== src/Validator/Selection/Order.antt =====
-- The order of validator/batch_selection.py is total and transitive where arrival times are.
use subnet.Base.{true, false, [], ◌∷◌, nat_eq, String, ℤ, ltb_ℤ, int_beq, ◌≡◌, ◌⊎◌, arith}
use subnet.Base.Float.{Float}
use subnet.Protocol.Bytes.{Bytes}
use subnet.Validator.Accepted.{ValidSubmission}
use subnet.Validator.Selection.{bytes_lt, tiebreak_key, order_lt, order_le}

bytes_total : (x y : Bytes) → (bytes_lt x y ≡ false) ⊎ (bytes_lt y x ≡ false)
unfolding bytes_lt
bytes_total [] [] = ground arith
bytes_total [] (y ∷ ys) = ground arith
bytes_total (x ∷ xs) [] = ground arith
bytes_total (x ∷ xs) (y ∷ ys) = ground (arith, bytes_total xs ys)

bytes_trans : (x y z : Bytes) → bytes_lt y x ≡ false → bytes_lt z y ≡ false → bytes_lt z x ≡ false
unfolding bytes_lt
bytes_trans [] [] [] p q = ground arith
bytes_trans [] [] (z ∷ zs) p q = ground arith
bytes_trans [] (y ∷ ys) [] p q = ground arith
bytes_trans [] (y ∷ ys) (z ∷ zs) p q = ground arith
bytes_trans (x ∷ xs) [] [] p q = ground arith
bytes_trans (x ∷ xs) [] (z ∷ zs) p q = ground arith
bytes_trans (x ∷ xs) (y ∷ ys) [] p q = ground arith
bytes_trans (x ∷ xs) (y ∷ ys) (z ∷ zs) p q = ground (arith, bytes_trans xs ys zs)

-- Floats that are not NaN compare as some ranks do. (Arrival times are clock readings.)
pub record IsRanked {F : Type 0} (fl : Float F) : Type 0 where
  pub rank : F → ℤ
  pub lt_rank : (x y : F) → fl.lt x y ≡ ltb_ℤ (rank x) (rank y)
  pub eq_rank : (x y : F) → fl.eq x y ≡ int_beq (rank x) (rank y)

module _ {F : Type 0} (fl : Float F) (sha256 : Bytes → Bytes) (encode : String → Bytes)
    (ranked : IsRanked fl) where
  open ranked use {rank, lt_rank, eq_rank}

  pub order_total :
      (s t : ValidSubmission F)
      → (order_le fl sha256 encode s t ≡ true) ⊎ (order_le fl sha256 encode t s ≡ true)
  unfolding order_lt
  order_total s t = ground (
    arith,
    lt_rank s.arrived_at t.arrived_at,
    lt_rank t.arrived_at s.arrived_at,
    eq_rank s.arrived_at t.arrived_at,
    eq_rank t.arrived_at s.arrived_at,
    bytes_total (tiebreak_key fl sha256 encode s) (tiebreak_key fl sha256 encode t),
  )

  pub order_trans :
      (s t u : ValidSubmission F)
      → order_le fl sha256 encode s t ≡ true
      → order_le fl sha256 encode t u ≡ true
      → order_le fl sha256 encode s u ≡ true
  unfolding order_lt
  order_trans s t u p q = ground (
    arith,
    lt_rank t.arrived_at s.arrived_at,
    lt_rank u.arrived_at t.arrived_at,
    lt_rank u.arrived_at s.arrived_at,
    eq_rank t.arrived_at s.arrived_at,
    eq_rank u.arrived_at t.arrived_at,
    eq_rank u.arrived_at s.arrived_at,
    bytes_trans (tiebreak_key fl sha256 encode s) (tiebreak_key fl sha256 encode t)
        (tiebreak_key fl sha256 encode u),
  )
