-- ===== src/Base/Lists.antt =====
-- Lists measured and indexed by native numbers, membership by an equality test, and `All`.
use Prim.Native.Nat.{ℕ, zero, suc, ◌+◌, min}
use mathlib.Core.Path.{◌≡◌, refl, ap, sym, subst, ◌∙◌}
use mathlib.Core.Logic.{◌⊎◌, inl, inr}
use mathlib.Core.Bool.{Bool, true, false, ◌&&◌, ◌||◌}
use mathlib.Core.List.{List, [], ◌∷◌, ◌++◌, map}
use mathlib.Core.Option.{Option, none, some}
use native.Mathlib.Omega.{arith}
use subnet.Base.Tests.{nat_eq, Eq, ◌==◌, if◌then◌else◌, Bool-cases, beq_self, eq_of_beq}

module _ {ℓ} {A : Type ℓ} where
  abbrev pub length : List A → ℕ
  length [] = 0
  length (x ∷ xs) = suc (length xs)

  abbrev pub get_elem? : List A → ℕ → Option A
  get_elem? [] i = none
  get_elem? (x ∷ xs) zero = some x
  get_elem? (x ∷ xs) (suc i) = get_elem? xs i

  abbrev pub get_or : List A → ℕ → A → A
  get_or [] i d = d
  get_or (x ∷ xs) zero d = x
  get_or (x ∷ xs) (suc i) d = get_or xs i d

  abbrev pub take : ℕ → List A → List A
  take zero xs = []
  take (suc n) [] = []
  take (suc n) (x ∷ xs) = x ∷ take n xs

  abbrev pub drop : ℕ → List A → List A
  drop zero xs = xs
  drop (suc n) [] = []
  drop (suc n) (x ∷ xs) = drop n xs

  abbrev pub replicate : ℕ → A → List A
  replicate zero a = []
  replicate (suc n) a = a ∷ replicate n a

  pub length-append : (xs ys : List A) → length (xs ++ ys) ≡ length xs + length ys
  length-append [] ys = omega arith
  length-append (x ∷ xs) ys = omega (arith, length-append xs ys)

  pub length-take : (n : ℕ) (xs : List A) → length (take n xs) ≡ min n (length xs)
  length-take zero xs = omega arith
  length-take (suc n) [] = omega arith
  length-take (suc n) (x ∷ xs) = omega (arith, length-take n xs)

  -- `xs[i] = x` for an index in range.
  abbrev pub set_at : ℕ → A → List A → List A
  set_at i a [] = []
  set_at zero a (x ∷ xs) = a ∷ xs
  set_at (suc i) a (x ∷ xs) = x ∷ set_at i a xs

  pub get_elem?-set_at :
      (i j : ℕ) (a : A) (xs : List A) (old : A)
      → get_elem? xs i ≡ some old
      → get_elem? (set_at i a xs) j ≡ (if i == j then some a else get_elem? xs j)
  get_elem?-set_at i j a [] old h = absurd (cc)
  get_elem?-set_at zero zero a (x ∷ xs) old h = refl
  get_elem?-set_at zero (suc j) a (x ∷ xs) old h = ground arith
  get_elem?-set_at (suc i) zero a (x ∷ xs) old h = ground arith
  get_elem?-set_at (suc i) (suc j) a (x ∷ xs) old h = ground (arith, get_elem?-set_at i j a xs old)

  pub get_elem?-append_last : (xs : List A) (a : A) → get_elem? (xs ++ a ∷ []) (length xs) ≡ some a
  get_elem?-append_last [] a = refl
  get_elem?-append_last (x ∷ xs) a = get_elem?-append_last xs a

  -- The last element, Python's `xs[-1]`.
  abbrev pub last : List A → Option A
  last [] = none
  last (x ∷ []) = some x
  last (x ∷ y ∷ xs) = last (y ∷ xs)

  abbrev pub all : (A → Bool) → List A → Bool
  all p [] = true
  all p (x ∷ xs) = p x && all p xs

  abbrev pub keep : (A → Bool) → List A → List A
  keep p [] = []
  keep p (x ∷ xs) = if p x then x ∷ keep p xs else keep p xs

pub length-map {ℓ κ} :
    {A : Type ℓ} {B : Type κ} (xs : List A) (f : A → B) → length (map f xs) ≡ length xs
length-map [] f = refl
length-map (x ∷ xs) f = ap suc (length-map xs f)

-- Membership with the position kept: it can be taken apart into any type.
abbrev pub In : {A : Type 0} → A → List A → Type 0
In a [] = ⊥
In a (x ∷ xs) = (a ≡ x) ⊎ In a xs

abbrev pub All : {A : Type 0} → (A → Type 0) → List A → Type 0
All P [] = Unit
All P (x ∷ xs) = P x × All P xs

module _ {A : Type 0} where
  pub All-In : (P : A → Type 0) (xs : List A) {a : A} → All P xs → In a xs → P a
  All-In P (x ∷ xs) h (inl e) = subst P (sym e) h.0
  All-In P (x ∷ xs) h (inr m) = All-In P xs h.1 m
  All-In P [] h m = absurd m

  pub In-append_left : (a : A) (xs ys : List A) → In a xs → In a (xs ++ ys)
  In-append_left a [] ys m = absurd m
  In-append_left a (x ∷ xs) ys (inl e) = inl e
  In-append_left a (x ∷ xs) ys (inr m) = inr (In-append_left a xs ys m)

  pub In-append_right : (a : A) (xs ys : List A) → In a ys → In a (xs ++ ys)
  In-append_right a [] ys m = m
  In-append_right a (x ∷ xs) ys m = inr (In-append_right a xs ys m)

  pub In-append : (a : A) (xs ys : List A) → In a (xs ++ ys) → In a xs ⊎ In a ys
  In-append a [] ys m = inr m
  In-append a (x ∷ xs) ys (inl e) = inl (inl e)
  In-append a (x ∷ xs) ys (inr m) = elim (In-append a xs ys m) [
    | inl l ↦ inl (inr l)
    | inr r ↦ inr r
  ]

  pub In-map : {B : Type 0} (f : A → B) (a : A) (xs : List A) → In a xs → In (f a) (map f xs)
  In-map f a [] m = absurd m
  In-map f a (x ∷ xs) (inl e) = inl (ap f e)
  In-map f a (x ∷ xs) (inr m) = inr (In-map f a xs m)

pub In-replicate : {A : Type 0} {a : A} (n : ℕ) (x : A) → In x (replicate n a) → x ≡ a
In-replicate zero x m = absurd m
In-replicate (suc n) x (inl e) = e
In-replicate (suc n) x (inr m) = In-replicate n x m

-- `x in xs`
abbrev pub elem : {A : Type 0} ⦃e : Eq A⦄ → A → List A → Bool
elem a [] = false
elem a (x ∷ xs) = (a == x) || elem a xs

-- No value stands twice.
abbrev pub Distinct : {A : Type 0} → List A → Type 0
Distinct [] = Unit
Distinct (x ∷ xs) = (¬ In x xs) × Distinct xs

module _ {A : Type 0} ⦃e : Eq A⦄ where
  pub In-of_elem : (a : A) (xs : List A) → elem a xs ≡ true → In a xs
  In-of_elem a [] h = absurd (cc)
  In-of_elem a (x ∷ xs) h = elim (Bool-cases (a == x)) [
    | inl same ↦ inl (eq_of_beq a x same)
    | inr other ↦ inr (In-of_elem a xs (rw other at h))
  ]

  pub elem_of_In : (a : A) (xs : List A) → In a xs → elem a xs ≡ true
  elem_of_In a [] m = absurd m
  elem_of_In a (x ∷ xs) (inl p) = rw (p, beq_self x)
  elem_of_In a (x ∷ xs) (inr m) = ground (arith, elem_of_In a xs m)

  pub not_In_of_elem : (a : A) (xs : List A) → elem a xs ≡ false → ¬ In a xs
  not_In_of_elem a xs h m = absurd (cc (elem_of_In a xs m))

-- `set(xs)`, as a list in which each value stands once.
abbrev pub to_set : {A : Type 0} ⦃e : Eq A⦄ → List A → List A
to_set [] = []
to_set (x ∷ xs) = if elem x xs then to_set xs else x ∷ to_set xs

module _ {A : Type 0} ⦃e : Eq A⦄ where
  pub In-to_set : (a : A) (xs : List A) → In a (to_set xs) → In a xs
  In-to_set a [] m = m
  In-to_set a (x ∷ xs) m = elim (Bool-cases (elem x xs)) [
    | inl again ↦ inr (In-to_set a xs (rw again at m))
    | inr new ↦
        let n : (a ≡ x) ⊎ In a (to_set xs) = rw new at m in
        elim n [ inl same ↦ inl same | inr later ↦ inr (In-to_set a xs later) ]
  ]

  pub to_set-In : (a : A) (xs : List A) → In a xs → In a (to_set xs)
  to_set-In a [] m = m
  to_set-In a (x ∷ xs) m = elim (Bool-cases (elem x xs)) [
    | inl again ↦ rw again (elim m [
      | inl same ↦ to_set-In a xs (subst (λ y. In y xs) (sym same) (In-of_elem x xs again))
      | inr later ↦ to_set-In a xs later
    ])
    | inr new ↦ rw new (elim m [ inl same ↦ inl same | inr later ↦ inr (to_set-In a xs later) ])
  ]

  pub to_set-Distinct : (xs : List A) → Distinct (to_set xs)
  to_set-Distinct [] = tt
  to_set-Distinct (x ∷ xs) = elim (Bool-cases (elem x xs)) [
    | inl again ↦ rw again (to_set-Distinct xs)
    | inr new ↦ rw new (λ m. not_In_of_elem x xs new (In-to_set x xs m), to_set-Distinct xs)
  ]

  -- A set with one element: all values are that one.
  pub one_value : (a b : A) (xs : List A) → length (to_set xs) ≡ 1 → In a xs → In b xs → a ≡ b
  one_value a b xs h ma mb = go (to_set xs) h (to_set-In a xs ma) (to_set-In b xs mb)
    where
      go : (s : List A) → length s ≡ 1 → In a s → In b s → a ≡ b
      go [] e p q = absurd p
      go (z ∷ []) e (inl p) (inl q) = p ∙ sym q
      go (z ∷ []) e (inr p) q = absurd p
      go (z ∷ []) e (inl p) (inr q) = absurd q
      go (z ∷ y ∷ s) e p q = absurd (omega arith)

module _ {A : Type 0} where
  pub All-take : (P : A → Type 0) (n : ℕ) (xs : List A) → All P xs → All P (take n xs)
  All-take P zero xs a = tt
  All-take P (suc n) [] a = tt
  All-take P (suc n) (x ∷ xs) a = (a.0, All-take P n xs a.1)

  pub In-take : (a : A) (n : ℕ) (xs : List A) → In a (take n xs) → In a xs
  In-take a zero xs m = absurd m
  In-take a (suc n) [] m = absurd m
  In-take a (suc n) (x ∷ xs) (inl e) = inl e
  In-take a (suc n) (x ∷ xs) (inr m) = inr (In-take a n xs m)

  pub Distinct-take : (n : ℕ) (xs : List A) → Distinct xs → Distinct (take n xs)
  Distinct-take zero xs d = tt
  Distinct-take (suc n) [] d = tt
  Distinct-take (suc n) (x ∷ xs) d = (λ m. d.0 (In-take x n xs m), Distinct-take n xs d.1)

  pub map-In :
      {B : Type 0} (f : A → B) (b : B) (xs : List A)
      → In b (map f xs)
      → (a : A) × In a xs × (b ≡ f a)
  map-In f b [] m = absurd m
  map-In f b (x ∷ xs) (inl e) = (x, inl refl, e)
  map-In f b (x ∷ xs) (inr m) = let (a, n, e) = map-In f b xs m in (a, inr n, e)

  pub Distinct-map :
      {B : Type 0} (f : A → B) (xs : List A)
      → ((a b : A) → f a ≡ f b → a ≡ b)
      → Distinct xs
      → Distinct (map f xs)
  Distinct-map f [] inj d = tt
  Distinct-map f (x ∷ xs) inj d = (
    λ m. let (a, n, e) = map-In f (f x) xs m in d.0 (subst (λ y. In y xs) (sym (inj x a e)) n),
    Distinct-map f xs inj d.1,
  )

  -- A predicate that holds at every member holds throughout.
  pub All-of_In : (P : A → Type 0) (xs : List A) → ((a : A) → In a xs → P a) → All P xs
  All-of_In P [] h = tt
  All-of_In P (x ∷ xs) h = (h x (inl refl), All-of_In P xs (λ a m. h a (inr m)))

-- Two lists of one length, related place by place.
abbrev pub Pointwise : {A B : Type 0} → (A → B → Type 0) → List A → List B → Type 0
Pointwise R [] [] = Unit
Pointwise R [] (y ∷ ys) = ⊥
Pointwise R (x ∷ xs) [] = ⊥
Pointwise R (x ∷ xs) (y ∷ ys) = R x y × Pointwise R xs ys

pub Pointwise-imp :
    {A B : Type 0} (R S : A → B → Type 0) (xs : List A) (ys : List B)
    → ((a : A) (b : B) → R a b → S a b)
    → Pointwise R xs ys
    → Pointwise S xs ys
Pointwise-imp R S [] [] h p = tt
Pointwise-imp R S [] (y ∷ ys) h p = absurd p
Pointwise-imp R S (x ∷ xs) [] h p = absurd p
Pointwise-imp R S (x ∷ xs) (y ∷ ys) h p = (h x y p.0, Pointwise-imp R S xs ys h p.1)

pub Pointwise-map :
    {A B C : Type 0} (R : B → C → Type 0) (f : A → B) (xs : List A) (ys : List C)
    → Pointwise R (map f xs) ys
    → Pointwise (λ a c. R (f a) c) xs ys
Pointwise-map R f [] [] p = tt
Pointwise-map R f [] (y ∷ ys) p = absurd p
Pointwise-map R f (x ∷ xs) [] p = absurd p
Pointwise-map R f (x ∷ xs) (y ∷ ys) p = (p.0, Pointwise-map R f xs ys p.1)

module _ {ℓ} {A : Type ℓ} where
  pub set_at-length :
      (xs : List A) (a b : A) (ys : List A) → set_at (length xs) a (xs ++ b ∷ ys) ≡ xs ++ a ∷ ys
  set_at-length [] a b ys = refl
  set_at-length (x ∷ xs) a b ys = ap (λ l. x ∷ l) (set_at-length xs a b ys)

  pub drop-append : (xs ys : List A) → drop (length xs) (xs ++ ys) ≡ ys
  drop-append [] ys = refl
  drop-append (x ∷ xs) ys = drop-append xs ys

  pub take-append : (xs ys : List A) → take (length xs) (xs ++ ys) ≡ xs
  take-append [] ys = refl
  take-append (x ∷ xs) ys = ap (λ l. x ∷ l) (take-append xs ys)

module _ {A : Type 0} where
  pub keep-In : (p : A → Bool) (a : A) (xs : List A) → In a (keep p xs) → In a xs × (p a ≡ true)
  keep-In p a [] m = absurd m
  keep-In p a (x ∷ xs) m = elim (Bool-cases (p x)) [
    | inl e ↦
        let n : (a ≡ x) ⊎ In a (keep p xs) = rw e at m in
        elim n [
          | inl same ↦ (inl same, rw same e)
          | inr later ↦ let (l, q) = keep-In p a xs later in (inr l, q)
        ]
    | inr e ↦ let (l, q) = keep-In p a xs (rw e at m) in (inr l, q)
  ]

  pub In-keep : (p : A → Bool) (a : A) (xs : List A) → In a xs → p a ≡ true → In a (keep p xs)
  In-keep p a [] m h = absurd m
  In-keep p a (x ∷ xs) (inl same) h =
      let e : p x ≡ true = subst (λ y. p y ≡ true) same h in rw e (inl same)
  In-keep p a (x ∷ xs) (inr later) h = elim (Bool-cases (p x)) [
    | inl e ↦ rw e (inr (In-keep p a xs later h))
    | inr e ↦ rw e (In-keep p a xs later h)
  ]
