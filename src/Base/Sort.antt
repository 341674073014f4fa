-- ===== src/Base/Sort.antt =====
-- Python's `sorted`: a stable insertion sort by a Boolean order.
use Prim.Native.Nat.{suc}
use mathlib.Core.Path.{◌≡◌, refl, ap, sym, ◌∙◌}
use mathlib.Core.Logic.{◌⊎◌, inl, inr}
use mathlib.Core.Bool.{Bool, true}
use mathlib.Core.List.{List, [], ◌∷◌}
use native.Mathlib.Omega.{arith}
use subnet.Base.Tests.{if◌then◌else◌, Bool-cases}
use subnet.Base.Lists.{In, All, Distinct, length, keep}

module _ {A : Type 0} (le : A → A → Bool) where
  -- `x` goes before the first element that is not below it.
  abbrev pub insert_sorted : A → List A → List A
  insert_sorted x [] = x ∷ []
  insert_sorted x (y ∷ ys) = if le x y then x ∷ y ∷ ys else y ∷ insert_sorted x ys

  unfoldable pub sorted : List A → List A
  sorted [] = []
  sorted (x ∷ xs) = insert_sorted x (sorted xs)

  length-keep-insert_sorted :
      (p : A → Bool) (x : A) (ys : List A)
      → length (keep p (insert_sorted x ys)) ≡ length (keep p (x ∷ ys))
  length-keep-insert_sorted p x [] = refl
  length-keep-insert_sorted p x (y ∷ ys) = ground (arith, length-keep-insert_sorted p x ys)

  -- Sorting keeps the number of those that pass a test.
  pub length-keep-sorted :
      (p : A → Bool) (xs : List A) → length (keep p (sorted xs)) ≡ length (keep p xs)
  unfolding sorted
  length-keep-sorted p [] = refl
  length-keep-sorted p (x ∷ xs) =
      ground (arith, length-keep-insert_sorted p x (sorted xs), length-keep-sorted p xs)

  insert_sorted-In : (a x : A) (ys : List A) → (a ≡ x) ⊎ In a ys → In a (insert_sorted x ys)
  insert_sorted-In a x [] h = h
  insert_sorted-In a x (y ∷ ys) h = elim (Bool-cases (le x y)) [
    | inl before ↦ rw before h
    | inr after ↦ rw after (elim h [
      | inl same ↦ inr (insert_sorted-In a x ys (inl same))
      | inr (inl head) ↦ inl head
      | inr (inr later) ↦ inr (insert_sorted-In a x ys (inr later))
    ])
  ]

  pub In-insert_sorted : (a x : A) (ys : List A) → In a (insert_sorted x ys) → (a ≡ x) ⊎ In a ys
  In-insert_sorted a x [] h = h
  In-insert_sorted a x (y ∷ ys) h = elim (Bool-cases (le x y)) [
    | inl before ↦ rw before at h
    | inr after ↦
        let m : (a ≡ y) ⊎ In a (insert_sorted x ys) = rw after at h in
        elim m [
          | inl head ↦ inr (inl head)
          | inr later ↦ elim (In-insert_sorted a x ys later) [
            | inl same ↦ inl same
            | inr rest ↦ inr (inr rest)
          ]
        ]
  ]

  -- Sorting neither drops nor invents a value.
  pub In-sorted : (a : A) (xs : List A) → In a (sorted xs) → In a xs
  unfolding sorted
  In-sorted a [] h = h
  In-sorted a (x ∷ xs) h = elim (In-insert_sorted a x (sorted xs) h) [
    | inl same ↦ inl same
    | inr rest ↦ inr (In-sorted a xs rest)
  ]

  pub sorted-In : (a : A) (xs : List A) → In a xs → In a (sorted xs)
  unfolding sorted
  sorted-In a [] h = h
  sorted-In a (x ∷ xs) (inl same) = insert_sorted-In a x (sorted xs) (inl same)
  sorted-In a (x ∷ xs) (inr rest) = insert_sorted-In a x (sorted xs) (inr (sorted-In a xs rest))

  length-insert_sorted : (x : A) (ys : List A) → length (insert_sorted x ys) ≡ suc (length ys)
  length-insert_sorted x [] = refl
  length-insert_sorted x (y ∷ ys) = ground (arith, length-insert_sorted x ys)

  pub length-sorted : (xs : List A) → length (sorted xs) ≡ length xs
  unfolding sorted
  length-sorted [] = refl
  length-sorted (x ∷ xs) = length-insert_sorted x (sorted xs) ∙ ap suc (length-sorted xs)

  insert_sorted-Distinct :
      (x : A) (ys : List A) → (¬ In x ys) → Distinct ys → Distinct (insert_sorted x ys)
  insert_sorted-Distinct x [] n d = (λ m. absurd m, tt)
  insert_sorted-Distinct x (y ∷ ys) n d = elim (Bool-cases (le x y)) [
    | inl before ↦ rw before (n, d)
    | inr after ↦ rw after (
      (λ m. elim (In-insert_sorted y x ys m) [
        | inl same ↦ n (inl (sym same))
        | inr later ↦ d.0 later
      ]),
      insert_sorted-Distinct x ys (λ m. n (inr m)) d.1,
    )
  ]

  pub sorted-Distinct : (xs : List A) → Distinct xs → Distinct (sorted xs)
  unfolding sorted
  sorted-Distinct [] d = tt
  sorted-Distinct (x ∷ xs) d =
      insert_sorted-Distinct x (sorted xs) (λ m. d.0 (In-sorted x xs m)) (sorted-Distinct xs d.1)

  -- Each element is below all that follow it.
  abbrev pub IsSorted : List A → Type 0
  IsSorted [] = Unit
  IsSorted (x ∷ xs) = All (λ y. le x y ≡ true) xs × IsSorted xs

  module _ (total : (x y : A) → (le x y ≡ true) ⊎ (le y x ≡ true))
      (trans : (x y z : A) → le x y ≡ true → le y z ≡ true → le x z ≡ true) where
    All-le :
        (x y : A) (ys : List A)
        → le x y ≡ true
        → All (λ z. le y z ≡ true) ys
        → All (λ z. le x z ≡ true) ys
    All-le x y [] h a = tt
    All-le x y (z ∷ ys) h a = (trans x y z h a.0, All-le x y ys h a.1)

    All-insert_sorted :
        (y x : A) (ys : List A)
        → le y x ≡ true
        → All (λ z. le y z ≡ true) ys
        → All (λ z. le y z ≡ true) (insert_sorted x ys)
    All-insert_sorted y x [] h a = (h, tt)
    All-insert_sorted y x (z ∷ ys) h a = elim (Bool-cases (le x z)) [
      | inl before ↦ rw before (h, a)
      | inr after ↦ rw after (a.0, All-insert_sorted y x ys h a.1)
    ]

    insert_sorted-IsSorted : (x : A) (ys : List A) → IsSorted ys → IsSorted (insert_sorted x ys)
    insert_sorted-IsSorted x [] h = (tt, tt)
    insert_sorted-IsSorted x (y ∷ ys) h = elim (Bool-cases (le x y)) [
      | inl before ↦ rw before ((before, All-le x y ys before h.0), h)
      | inr after ↦ rw after (
        All-insert_sorted y x ys (elim (total x y) [ inl wrong ↦ cc | inr below ↦ below ]) h.0,
        insert_sorted-IsSorted x ys h.1,
      )
    ]

    pub sorted-IsSorted : (xs : List A) → IsSorted (sorted xs)
    unfolding sorted
    sorted-IsSorted [] = tt
    sorted-IsSorted (x ∷ xs) = insert_sorted-IsSorted x (sorted xs) (sorted-IsSorted xs)
