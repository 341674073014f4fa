-- ===== src/Protocol/Crypto/Indices.antt =====
-- The challenge indices of protocol/crypto.py: how many, in which range, in which order.
use subnet.Base.{
  ℕ, ◌+◌, ◌-◌, ◌≤◌, ◌<◌, ℤ, pos, true, some, List, [], ◌∷◌, nat_eq, String, leb, length, map, take,
  sorted, min, ◌≡◌, ◌⊎◌, inl, inr, ◌∙◌, arith, All, All-In, All-of_In, All-take, Distinct,
  Distinct-take, Distinct-map, IsSorted, sorted-IsSorted, sorted-Distinct, In-sorted, length-sorted,
  length-take, length-map, map-In, Bool-cases,
}
use subnet.Base.Float.{Float}
use subnet.Base.Text.{codes}
use subnet.Protocol.Bytes.{Bytes, clean_hex, from_hex}
use subnet.Protocol.Crypto.{
  Hashes, Rng, frame, label_open, hash_tokens, choose_indices, indices_from_root,
  indices_from_root_in_range,
}

-- The documented behaviour of `sample` and `shuffle`.
pub record IsRng (rng : Rng) : Type 0 where
  pub length_sample : (m : Bytes) (n k : ℕ) → k ≤ n → length (rng.sample m n k) ≡ k
  pub sample_below : (m : Bytes) (n k : ℕ) → All (λ i. i < n) (rng.sample m n k)
  pub sample_distinct : (m : Bytes) (n k : ℕ) → Distinct (rng.sample m n k)
  pub length_shuffled : (m : Bytes) (n : ℕ) → length (rng.shuffled m n) ≡ n
  pub shuffled_below : (m : Bytes) (n : ℕ) → All (λ i. i < n) (rng.shuffled m n)
  pub shuffled_distinct : (m : Bytes) (n : ℕ) → Distinct (rng.shuffled m n)

-- `k` different positions of [lo, hi), in ascending order.
pub record IsChallenge (k lo hi : ℕ) (idxs : List ℕ) : Type 0 where
  pub how_many : length idxs ≡ k
  pub in_range : All (λ i. (lo ≤ i) × (i < hi)) idxs
  pub ascending : IsSorted leb idxs
  pub different : Distinct idxs

leb_total : (x y : ℕ) → (leb x y ≡ true) ⊎ (leb y x ≡ true)
leb_total x y = ground arith

leb_trans : (x y z : ℕ) → leb x y ≡ true → leb y z ≡ true → leb x z ≡ true
leb_trans x y z h k = ground arith

sorted-IsChallenge :
    (k n : ℕ) (xs : List ℕ)
    → length xs ≡ k
    → All (λ i. i < n) xs
    → Distinct xs
    → IsChallenge k 0 n (sorted leb xs)
sorted-IsChallenge k n xs len below diff = record {
  how_many = length-sorted leb xs ∙ len;
  in_range =
      All-of_In (λ i. (0 ≤ i) × (i < n)) (sorted leb xs)
        (λ i m. (omega arith, All-In (λ j. j < n) xs below (In-sorted leb i xs m)));
  ascending = sorted-IsSorted leb leb_total leb_trans xs;
  different = sorted-Distinct leb xs diff;
}

All-map_add :
    (start x : ℕ) (xs : List ℕ)
    → All (λ y. leb x y ≡ true) xs
    → All (λ y. leb (start + x) y ≡ true) (map (λ i. start + i) xs)
All-map_add start x [] a = tt
All-map_add start x (y ∷ xs) a = (ground (arith, a.0), All-map_add start x xs a.1)

map_add-IsSorted :
    (start : ℕ) (xs : List ℕ) → IsSorted leb xs → IsSorted leb (map (λ i. start + i) xs)
map_add-IsSorted start [] s = tt
map_add-IsSorted start (x ∷ xs) s = (All-map_add start x xs s.0, map_add-IsSorted start xs s.1)

shift-IsChallenge :
    (k start end : ℕ) (xs : List ℕ)
    → start ≤ end
    → IsChallenge k 0 (end - start) xs
    → IsChallenge k start end (map (λ i. start + i) xs)
shift-IsChallenge k start end xs le c = record {
  how_many = length-map xs (λ i. start + i) ∙ c.how_many;
  in_range =
      All-of_In (λ i. (start ≤ i) × (i < end)) (map (λ i. start + i) xs)
        (λ i m.
          let (j, inside, e) = map-In (λ i. start + i) i xs m in
          let b = All-In (λ i. (0 ≤ i) × (i < end - start)) xs c.in_range inside in
          (omega arith, omega arith));
  ascending = map_add-IsSorted start xs c.ascending;
  different = Distinct-map (λ i. start + i) xs (λ a b e. omega arith) c.different;
}

module _ {F : Type 0} (fl : Float F) (h : Hashes) (rng : Rng) (good : IsRng rng) where
  choose_indices-IsChallenge :
      (material : Bytes) (n k : ℕ)
      → k ≤ n
      → IsChallenge k 0 n (choose_indices h fl rng material n k)
  unfolding choose_indices
  choose_indices-IsChallenge material n k le =
      elim (Bool-cases (fl.lt (fl.of_int (pos k)) (fl.mul (fl.of_int (pos n)) (fl.decimal 1 1)))) [
        | inl few ↦ rw few (
            sorted-IsChallenge k n (rng.sample material n k) (good.length_sample material n k le)
              (good.sample_below material n k) (good.sample_distinct material n k))
        | inr many ↦ rw many (
            sorted-IsChallenge k n (take k (rng.shuffled material n))
              (omega
                (arith, length-take k (rng.shuffled material n), good.length_shuffled material n))
              (All-take (λ i. i < n) k _ (good.shuffled_below material n))
              (Distinct-take k _ (good.shuffled_distinct material n)))
      ]

  pub indices_from_root_total :
      (tokens : List ℤ) (rand_hex : String) (n k : ℕ) {seed : Bytes}
      → 0 < length tokens
      → 0 < length (clean_hex (codes rand_hex))
      → from_hex (clean_hex (codes rand_hex)) ≡ some seed
      → 0 < k
      → k ≤ n
      → (idxs : List ℕ) × (indices_from_root h fl rng tokens rand_hex n k ≡ some idxs)
        × IsChallenge k 0 n idxs
  unfolding indices_from_root
  indices_from_root_total tokens rand_hex n k {seed} some_tokens some_hex parsed pk le =
      let material = h.shake256 (frame (label_open ∷ hash_tokens h tokens ∷ seed ∷ [])) 32 in
      (
        choose_indices h fl rng material n k,
        ground arith,
        choose_indices-IsChallenge material n k le,
      )

  -- For a non-empty range [start, end), a positive `k`, some tokens and a hex seed, the function
  -- returns min(k, end - start) different positions of the range, in ascending order.
  pub indices_from_root_in_range_total :
      (tokens : List ℤ) (rand_hex : String) (start end k : ℕ) {seed : Bytes}
      → 0 < length tokens
      → 0 < length (clean_hex (codes rand_hex))
      → from_hex (clean_hex (codes rand_hex)) ≡ some seed
      → 0 < k
      → start < end
      → (idxs : List ℕ) × (indices_from_root_in_range h fl rng tokens rand_hex start end k
          ≡ some idxs)
        × IsChallenge (min k (end - start)) start end idxs
  unfolding indices_from_root_in_range
  indices_from_root_in_range_total tokens rand_hex start end k {seed} t x parsed pk lt =
      let (rel, found, c) =
        indices_from_root_total tokens rand_hex (end - start) (min k (end - start)) {seed = seed} t
          x parsed (omega arith) (omega arith) in
      (
        map (λ i. start + i) rel,
        ground (arith, found),
        shift-IsChallenge (min k (end - start)) start end rel (omega arith) c,
      )
