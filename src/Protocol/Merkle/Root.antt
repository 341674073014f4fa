-- ===== src/Protocol/Merkle/Root.antt =====
-- The Merkle root of protocol/merkle.py: it is always produced, and it binds the rollouts.
use native.Mathlib.Decide.{ℕ_discrete}
use subnet.Base.{
  subst, ℕ, zero, suc, ◌+◌, ◌/◌, ◌≤◌, ◌<◌, some, List, [], ◌∷◌, ◌++◌, length, length-map, map, ◌≡◌,
  ◌≢◌, ◌⊎◌, inl, inr, refl, sym, ◌∙◌, ap, ap₂, arith, nat_eq, All, In, In-append_left,
  In-append_right,
}
use subnet.Protocol.Bytes.{Bytes}
use subnet.Protocol.Crypto.Framing.{append_split}
use subnet.Protocol.Request.{RolloutSubmission}
use subnet.Protocol.Merkle.{
  leaf_domain, node_domain, node, parents, root_from, payloads, compute_rollouts_merkle_root,
}

Bytes-discrete : Discrete Bytes
Bytes-discrete = hlevel ℕ_discrete

-- Two different texts, one of each list, with one digest.
abbrev pub Collision : (Bytes → Bytes) → List Bytes → List Bytes → Type 0
Collision sha256 xs ys =
    (x : Bytes) × (y : Bytes) × In x xs × In y ys × (x ≢ y) × (sha256 x ≡ sha256 y)

-- What a round of the loop hashes.
abbrev pub round_texts : List Bytes → List Bytes
round_texts [] = []
round_texts (left ∷ []) = (node_domain ++ (left ++ left)) ∷ []
round_texts (left ∷ right ∷ leaves) = (node_domain ++ (left ++ right)) ∷ round_texts leaves

-- hashlib's digests are 32 bytes long.
abbrev pub HasDigestSize : (Bytes → Bytes) → Type 0
HasDigestSize sha256 = (x : Bytes) → length (sha256 x) ≡ 32

module _ (sha256 : Bytes → Bytes) where
  length-parents : (xs : List Bytes) → length (parents sha256 xs) ≡ (length xs + 1) / 2
  unfolding parents
  length-parents [] = omega arith
  length-parents (l ∷ []) = omega arith
  length-parents (l ∷ r ∷ xs) = omega (arith, length-parents xs)

  -- Enough fuel: a list of at most `fuel + 1` leaves that is not empty has a root.
  pub root_from_total :
      (fuel : ℕ) (xs : List Bytes)
      → 0 < length xs
      → length xs ≤ fuel + 1
      → (root : Bytes) × (root_from sha256 fuel xs ≡ some root)
  unfolding root_from
  root_from_total fuel [] p q = absurd (omega arith)
  root_from_total fuel (x ∷ []) p q = (x, refl)
  root_from_total zero (l ∷ r ∷ xs) p q = absurd (omega arith)
  root_from_total (suc fuel) (l ∷ r ∷ xs) p q =
      root_from_total fuel (parents sha256 (l ∷ r ∷ xs))
        (omega (arith, length-parents (l ∷ r ∷ xs))) (omega (arith, length-parents (l ∷ r ∷ xs)))

  -- What the loop hashes over all its rounds.
  abbrev pub tree_texts : ℕ → List Bytes → List Bytes
  tree_texts fuel [] = []
  tree_texts fuel (leaf ∷ []) = []
  tree_texts zero (l ∷ r ∷ leaves) = []
  tree_texts (suc fuel) (l ∷ r ∷ leaves) =
      round_texts (l ∷ r ∷ leaves) ++ tree_texts fuel (parents sha256 (l ∷ r ∷ leaves))

  -- What the root of these payloads hashes: the leaves, then the nodes.
  abbrev pub hashed_texts : List Bytes → List Bytes
  hashed_texts ps =
      map (λ p. leaf_domain ++ p) ps
      ++ tree_texts (length ps) (map (λ p. sha256 (leaf_domain ++ p)) ps)

  widen :
      (xs ys vs ws : List Bytes)
      → ((z : Bytes) → In z xs → In z vs)
      → ((z : Bytes) → In z ys → In z ws)
      → Collision sha256 xs ys
      → Collision sha256 vs ws
  widen xs ys vs ws f g (x, y, i, j, other, e) = (x, y, f x i, g y j, other, e)

  -- Into the first of a list's two parts, and into the second.
  widen_left :
      (xs ys vs ws : List Bytes) → Collision sha256 xs ys → Collision sha256 (xs ++ vs) (ys ++ ws)
  widen_left xs ys vs ws c =
      widen xs ys _ _ (λ z i. In-append_left z xs vs i) (λ z i. In-append_left z ys ws i) c

  widen_right :
      (xs ys vs ws : List Bytes) → Collision sha256 vs ws → Collision sha256 (xs ++ vs) (ys ++ ws)
  widen_right xs ys vs ws c =
      widen vs ws _ _ (λ z i. In-append_right z xs vs i) (λ z i. In-append_right z ys ws i) c

  pub same_or_Collision :
      (x y : Bytes) → sha256 x ≡ sha256 y → (x ≡ y) ⊎ Collision sha256 (x ∷ []) (y ∷ [])
  same_or_Collision x y e = elim (Bytes-discrete x y) [
    | yes same ↦ inl same
    | no other ↦ inr (x, y, inl refl, inl refl, other, e)
  ]

  node_binds :
      (l r l' r' : Bytes)
      → length l ≡ 32
      → length l' ≡ 32
      → node sha256 l r ≡ node sha256 l' r'
      → ((l ≡ l') × (r ≡ r'))
        ⊎ Collision sha256 ((node_domain ++ (l ++ r)) ∷ []) ((node_domain ++ (l' ++ r')) ∷ [])
  node_binds l r l' r' p p' e =
      elim (same_or_Collision (node_domain ++ (l ++ r)) (node_domain ++ (l' ++ r')) e) [
        | inl same ↦
            inl (append_split l l' (p ∙ sym p') (append_split node_domain node_domain refl same).1)
        | inr c ↦ inr c
      ]

  parents_bind :
      (xs ys : List Bytes)
      → All (λ x. length x ≡ 32) xs
      → All (λ x. length x ≡ 32) ys
      → length xs ≡ length ys
      → parents sha256 xs ≡ parents sha256 ys
      → (xs ≡ ys) ⊎ Collision sha256 (round_texts xs) (round_texts ys)
  unfolding parents
  parents_bind [] [] a b len e = inl refl
  parents_bind [] (y ∷ ys) a b len e = absurd (omega arith)
  parents_bind (x ∷ xs) [] a b len e = absurd (omega arith)
  parents_bind (x ∷ []) (y ∷ []) a b len e = elim (node_binds x x y y a.0 b.0 (cc)) [
    | inl same ↦ inl (ap₂ ◌∷◌ same.0 refl)
    | inr c ↦ inr c
  ]
  parents_bind (x ∷ []) (y ∷ z ∷ ys) a b len e = absurd (omega arith)
  parents_bind (x ∷ w ∷ xs) (y ∷ []) a b len e = absurd (omega arith)
  parents_bind (x ∷ w ∷ xs) (y ∷ z ∷ ys) a b len e = elim (node_binds x w y z a.0 b.0 (cc)) [
    | inl same ↦ elim (parents_bind xs ys a.1.1 b.1.1 (omega arith) (cc)) [
      | inl rest ↦ inl (ap₂ ◌∷◌ same.0 (ap₂ ◌∷◌ same.1 rest))
      | inr c ↦
          inr (widen_right ((node_domain ++ (x ++ w)) ∷ []) ((node_domain ++ (y ++ z)) ∷ []) _ _ c)
    ]
    | inr c ↦ inr (
        widen_left ((node_domain ++ (x ++ w)) ∷ []) ((node_domain ++ (y ++ z)) ∷ [])
          (round_texts xs) (round_texts ys) c)
  ]

  module _ {F : Type 0} (json : ℕ → RolloutSubmission F → Bytes) where
    length-payloads :
        (i : ℕ) (rs : List (RolloutSubmission F)) → length (payloads json i rs) ≡ length rs
    unfolding payloads
    length-payloads i [] = refl
    length-payloads i (r ∷ rs) = ap suc (length-payloads (i + 1) rs)

    -- Every group that is not empty has a root.
    compute_rollouts_merkle_root_total :
        (rs : List (RolloutSubmission F))
        → 0 < length rs
        → (root : Bytes) × (compute_rollouts_merkle_root sha256 json rs ≡ some root)
    unfolding compute_rollouts_merkle_root
    compute_rollouts_merkle_root_total rs p =
        let n = length-payloads 0 rs in
        let m = length-map (payloads json 0 rs) (λ q. sha256 (leaf_domain ++ q)) in
        root_from_total (length rs) (map (λ q. sha256 (leaf_domain ++ q)) (payloads json 0 rs))
          (omega (arith, n, m)) (omega (arith, n, m))

  module _ (sized : HasDigestSize sha256) where
    parents_sized : (xs : List Bytes) → All (λ x. length x ≡ 32) (parents sha256 xs)
    unfolding parents
    parents_sized [] = tt
    parents_sized (l ∷ []) = (sized _, tt)
    parents_sized (l ∷ r ∷ xs) = (sized _, parents_sized xs)

    root_from_binds :
        (fuel : ℕ) (xs ys : List Bytes) {root : Bytes}
        → All (λ x. length x ≡ 32) xs
        → All (λ x. length x ≡ 32) ys
        → length xs ≡ length ys
        → root_from sha256 fuel xs ≡ some root
        → root_from sha256 fuel ys ≡ some root
        → (xs ≡ ys) ⊎ Collision sha256 (tree_texts fuel xs) (tree_texts fuel ys)
    unfolding root_from
    root_from_binds fuel [] [] a b len e f = inl refl
    root_from_binds fuel [] (y ∷ ys) a b len e f = absurd (omega arith)
    root_from_binds fuel (x ∷ xs) [] a b len e f = absurd (omega arith)
    root_from_binds fuel (x ∷ []) (y ∷ []) a b len e f = inl (ap₂ ◌∷◌ (cc) refl)
    root_from_binds fuel (x ∷ []) (y ∷ z ∷ ys) a b len e f = absurd (omega arith)
    root_from_binds fuel (x ∷ w ∷ xs) (y ∷ []) a b len e f = absurd (omega arith)
    root_from_binds zero (x ∷ w ∷ xs) (y ∷ z ∷ ys) a b len e f = absurd (cc)
    root_from_binds (suc fuel) (x ∷ w ∷ xs) (y ∷ z ∷ ys) a b len e f =
        elim (root_from_binds fuel (parents sha256 (x ∷ w ∷ xs)) (parents sha256 (y ∷ z ∷ ys))
          (parents_sized (x ∷ w ∷ xs)) (parents_sized (y ∷ z ∷ ys))
          (omega (arith, length-parents (x ∷ w ∷ xs), length-parents (y ∷ z ∷ ys))) e f) [
            | inl same ↦ elim (parents_bind (x ∷ w ∷ xs) (y ∷ z ∷ ys) a b len same) [
              | inl leaves ↦ inl leaves
              | inr c ↦ inr (widen_left (round_texts (x ∷ w ∷ xs)) (round_texts (y ∷ z ∷ ys)) _ _ c)
            ]
            | inr c ↦ inr (widen_right (round_texts (x ∷ w ∷ xs)) (round_texts (y ∷ z ∷ ys)) _ _ c)
          ]

    leaves_bind :
        (ps qs : List Bytes)
        → map (λ p. sha256 (leaf_domain ++ p)) ps ≡ map (λ p. sha256 (leaf_domain ++ p)) qs
        → (ps ≡ qs)
          ⊎ Collision sha256 (map (λ p. leaf_domain ++ p) ps) (map (λ p. leaf_domain ++ p) qs)
    leaves_bind [] [] e = inl refl
    leaves_bind [] (q ∷ qs) e = absurd (cc)
    leaves_bind (p ∷ ps) [] e = absurd (cc)
    leaves_bind (p ∷ ps) (q ∷ qs) e =
        elim (same_or_Collision (leaf_domain ++ p) (leaf_domain ++ q) (cc)) [
          | inl same ↦ elim (leaves_bind ps qs (cc)) [
            | inl rest ↦ inl (ap₂ ◌∷◌ (append_split leaf_domain leaf_domain refl same).1 rest)
            | inr c ↦ inr (widen_right ((leaf_domain ++ p) ∷ []) ((leaf_domain ++ q) ∷ []) _ _ c)
          ]
          | inr c ↦ inr (widen_left ((leaf_domain ++ p) ∷ []) ((leaf_domain ++ q) ∷ []) _ _ c)
        ]

    leaves_sized :
        (ps : List Bytes) → All (λ x. length x ≡ 32) (map (λ p. sha256 (leaf_domain ++ p)) ps)
    leaves_sized [] = tt
    leaves_sized (p ∷ ps) = (sized _, leaves_sized ps)

    module _ {F : Type 0} (json : ℕ → RolloutSubmission F → Bytes) where
      -- Two groups of equally many rollouts with the same root have the same canonical JSON at
      -- every index, or SHA-256 gives one digest for two different texts, one that is hashed for
      -- the leaves and nodes of the first group and one that is hashed for those of the second.
      pub merkle_root_binds :
          (rs ss : List (RolloutSubmission F)) {root : Bytes}
          → length rs ≡ length ss
          → compute_rollouts_merkle_root sha256 json rs ≡ some root
          → compute_rollouts_merkle_root sha256 json ss ≡ some root
          → (payloads json 0 rs ≡ payloads json 0 ss)
            ⊎ Collision sha256
                (hashed_texts (payloads json 0 rs))
                (hashed_texts (payloads json 0 ss))
      unfolding compute_rollouts_merkle_root
      merkle_root_binds rs ss {root} len e f =
          let ps = payloads json 0 rs in
          let qs = payloads json 0 ss in
          let m = length-map ps (λ q. sha256 (leaf_domain ++ q)) in
          let n = length-map qs (λ q. sha256 (leaf_domain ++ q)) in
          let i = length-payloads json 0 rs in
          let j = length-payloads json 0 ss in
          let same_size : length ps ≡ length qs = i ∙ len ∙ sym j in
          elim (root_from_binds (length ps) (map (λ q. sha256 (leaf_domain ++ q)) ps)
            (map (λ q. sha256 (leaf_domain ++ q)) qs) {root = root} (leaves_sized ps)
            (leaves_sized qs) (omega (arith, m, n, same_size)) (rw i e) (rw (i, len) f)) [
              | inl same ↦ elim (leaves_bind ps qs same) [
                | inl payload ↦ inl payload
                | inr c ↦ inr (
                    widen_left (map (λ p. leaf_domain ++ p) ps) (map (λ p. leaf_domain ++ p) qs) _ _
                      c)
              ]
              | inr c ↦ inr (
                  widen_right (map (λ p. leaf_domain ++ p) ps) (map (λ p. leaf_domain ++ p) qs) _ _
                    (subst
                      (λ k.
                        Collision sha256
                          (tree_texts (length ps) (map (λ q. sha256 (leaf_domain ++ q)) ps))
                          (tree_texts k (map (λ q. sha256 (leaf_domain ++ q)) qs)))
                      same_size c))
            ]
