-- ===== src/Miner/Termination/Laws.antt =====
-- shared/modeling.py and miner/engine.py: which completions the termination check lets through.
use subnet.Base.{
  ℕ, suc, ◌+◌, ℤ, int_eq, nat_eq, true, false, none, some, List, [], ◌∷◌, ◌++◌, ◌-◌, ◌≡◌, ◌≢◌, refl,
  subst, ap, ◌⊎◌, inl, inr, ◌↔◌, length, take, elem, Bool-cases, Option-cases, arith, length-append,
}
use subnet.Miner.Termination.{
  first_eos_index, eos_positions, one_at_the_end, validator_termination_ok, up_to_eos,
  truncate_at_first_eos, cut_after,
}

-- No token is an EOS.
abbrev pub NoEos : List ℤ → List ℤ → Type 0
NoEos [] eos = Unit
NoEos (t ∷ ts) eos = (elem t eos ≡ false) × NoEos ts eos

-- One EOS, in the last place.
abbrev pub EndsOnce : List ℤ → List ℤ → Type 0
EndsOnce xs eos = (ys : List ℤ) × (e : ℤ) × (xs ≡ ys ++ e ∷ []) × NoEos ys eos × (elem e eos ≡ true)

pub NoEos-append : (xs ys eos : List ℤ) → NoEos xs eos → NoEos ys eos → NoEos (xs ++ ys) eos
NoEos-append [] ys eos h k = k
NoEos-append (x ∷ xs) ys eos h k = (h.0, NoEos-append xs ys eos h.1 k)

pub NoEos-of_none : (xs eos : List ℤ) → first_eos_index xs eos ≡ none → NoEos xs eos
unfolding first_eos_index
NoEos-of_none [] eos h = tt
NoEos-of_none (x ∷ xs) eos h = elim (Bool-cases (elem x eos)) [
  | inl e ↦ absurd (ground (arith))
  | inr e ↦ (e, NoEos-of_none xs eos (ground arith))
]

-- What follows tokens without an EOS decides how the whole ends.
pub EndsOnce-append :
    (xs ys eos : List ℤ) → NoEos xs eos → EndsOnce ys eos → EndsOnce (xs ++ ys) eos
EndsOnce-append [] ys eos h k = k
EndsOnce-append (x ∷ xs) ys eos h k =
    let (zs, e, p, q, r) = EndsOnce-append xs ys eos h.1 k in
    (x ∷ zs, e, ap (λ l. x ∷ l) p, (h.0, q), r)

pub EndsOnce-first :
    (xs eos : List ℤ) (fe : ℕ) → first_eos_index xs eos ≡ some fe → EndsOnce (take (suc fe) xs) eos
unfolding first_eos_index
EndsOnce-first [] eos fe h = absurd (cc)
EndsOnce-first (x ∷ xs) eos fe h = elim (Bool-cases (elem x eos)) [
  | inl e ↦ let z : fe ≡ 0 = ground arith in rw z ([], x, refl, tt, e)
  | inr e ↦ elim (Option-cases (first_eos_index xs eos)) [
    | inl n ↦ absurd (ground arith)
    | inr (k, s) ↦
        let z : fe ≡ suc k = ground arith in
        rw z (EndsOnce-append (x ∷ []) (take (suc k) xs) eos (e, tt) (EndsOnce-first xs eos k s))
  ]
]

eos_positions-NoEos :
    (i : ℕ) (ys rest eos : List ℤ)
    → NoEos ys eos
    → eos_positions i (ys ++ rest) eos ≡ eos_positions (i + length ys) rest eos
unfolding eos_positions
eos_positions-NoEos i [] rest eos h =
    let e : i ≡ i + 0 = omega arith in ap (λ k. eos_positions k rest eos) e
eos_positions-NoEos i (y ∷ ys) rest eos h =
    let e : (i + 1) + length ys ≡ i + suc (length ys) = omega arith in
    rw (h.0, ← e) (eos_positions-NoEos (i + 1) ys rest eos h.1)

by_positions :
    (xs : List ℤ) (d : ℤ) (eos : List ℤ)
    → validator_termination_ok xs (d ∷ eos)
      ≡ one_at_the_end (eos_positions 0 xs (d ∷ eos)) (length xs)
unfolding validator_termination_ok eos_positions one_at_the_end
by_positions [] d eos = refl
by_positions (x ∷ xs) d eos = refl

termination_of_EndsOnce :
    (xs eos : List ℤ) → EndsOnce xs eos → validator_termination_ok xs eos ≡ true
termination_of_EndsOnce xs [] (ys, e, p, n, m) = absurd (cc)
termination_of_EndsOnce xs (d ∷ eos) (ys, e, p, n, m) =
    rw (p, by_positions (ys ++ e ∷ []) d eos, eos_positions-NoEos 0 ys (e ∷ []) (d ∷ eos) n)
      (unfold eos_positions one_at_the_end in rw m (ground (arith, length-append ys (e ∷ []))))

first_position : (i n : ℕ) (ps : List ℕ) → one_at_the_end (i ∷ ps) n ≡ true → i ≡ n - 1
unfolding one_at_the_end
first_position i n [] h = ground arith
first_position i n (p ∷ ps) h = absurd (cc)

-- A list whose only EOS, if any, is the last token.
EndsOnce-of_positions :
    (i : ℕ) (xs eos : List ℤ)
    → one_at_the_end (eos_positions i xs eos) (i + length xs) ≡ true
    → EndsOnce xs eos
unfolding one_at_the_end eos_positions
EndsOnce-of_positions i [] eos h = absurd (cc)
EndsOnce-of_positions i (x ∷ []) eos h = elim (Bool-cases (elem x eos)) [
  | inl e ↦ ([], x, refl, tt, e)
  | inr e ↦ absurd (ground arith)
]
EndsOnce-of_positions i (x ∷ y ∷ xs) eos h = elim (Bool-cases (elem x eos)) [
  | inl e ↦
      let first : i ≡ (i + length (x ∷ y ∷ xs)) - 1 = first_position i _ _ (rw e at h) in
      absurd (omega arith)
  | inr e ↦
      let s : (i + 1) + length (y ∷ xs) ≡ i + length (x ∷ y ∷ xs) = omega arith in
      EndsOnce-append (x ∷ []) (y ∷ xs) eos (e, tt)
        (EndsOnce-of_positions (i + 1) (y ∷ xs) eos (rw (e, ← s) at h))
]

ok_needs_eos : (xs : List ℤ) → validator_termination_ok xs [] ≢ true
unfolding validator_termination_ok
ok_needs_eos [] h = cc
ok_needs_eos (x ∷ xs) h = cc

pub validator_termination_ok-EndsOnce :
    (xs eos : List ℤ) → (validator_termination_ok xs eos ≡ true) ↔ EndsOnce xs eos
validator_termination_ok-EndsOnce xs [] =
    ((λ h. absurd (ok_needs_eos xs h)), termination_of_EndsOnce xs [])
validator_termination_ok-EndsOnce xs (d ∷ eos) = (
  λ h.
      EndsOnce-of_positions 0 xs (d ∷ eos)
        (let z : 0 + length xs ≡ length xs = omega arith in rw (z, ← by_positions xs d eos) h),
  termination_of_EndsOnce xs (d ∷ eos),
)

pub up_to_eos-cut_after :
    (xs eos : List ℤ) → up_to_eos xs eos ≡ cut_after xs (first_eos_index xs eos)
unfolding up_to_eos cut_after first_eos_index
up_to_eos-cut_after [] eos = refl
up_to_eos-cut_after (x ∷ xs) eos = elim (Bool-cases (elem x eos)) [
  | inl e ↦ rw e
  | inr e ↦ elim (Option-cases (first_eos_index xs eos)) [
    | inl n ↦ ground (arith, up_to_eos-cut_after xs eos)
    | inr (k, s) ↦ ground (arith, up_to_eos-cut_after xs eos)
  ]
]

up_to_eos-EndsOnce :
    (ys : List ℤ) (e : ℤ) (eos : List ℤ)
    → NoEos ys eos
    → elem e eos ≡ true
    → up_to_eos (ys ++ e ∷ []) eos ≡ ys ++ e ∷ []
unfolding up_to_eos
up_to_eos-EndsOnce [] e eos n m = rw m
up_to_eos-EndsOnce (y ∷ ys) e eos n m = rw (n.0, up_to_eos-EndsOnce ys e eos n.1 m)

no_eos_ids : (xs : List ℤ) → first_eos_index xs [] ≡ none
unfolding first_eos_index
no_eos_ids [] = refl
no_eos_ids (x ∷ xs) = rw (no_eos_ids xs)

NoEos-append_right : (xs ys eos : List ℤ) → NoEos (xs ++ ys) eos → NoEos ys eos
NoEos-append_right [] ys eos h = h
NoEos-append_right (x ∷ xs) ys eos h = NoEos-append_right xs ys eos h.1

truncate-EndsOnce :
    (xs eos : List ℤ)
    → EndsOnce xs eos
    → (first_eos_index xs eos ≢ none) × (truncate_at_first_eos xs eos ≡ xs)
unfolding truncate_at_first_eos
truncate-EndsOnce xs [] (ys, e, p, n, m) = absurd (cc)
truncate-EndsOnce xs (d ∷ eos) (ys, e, p, n, m) = (
  λ h.
      let all : NoEos (ys ++ e ∷ []) (d ∷ eos) = rw (← p) (NoEos-of_none xs (d ∷ eos) h) in
      absurd (cc ((NoEos-append_right ys (e ∷ []) (d ∷ eos) all).0)),
  rw p (up_to_eos-EndsOnce ys e (d ∷ eos) n m),
)

truncate-cut_after :
    (xs eos : List ℤ) → truncate_at_first_eos xs eos ≡ cut_after xs (first_eos_index xs eos)
unfolding truncate_at_first_eos cut_after
truncate-cut_after xs [] = rw (no_eos_ids xs) refl
truncate-cut_after xs (d ∷ eos) = up_to_eos-cut_after xs (d ∷ eos)

-- The validator's termination check lets a completion through exactly if it holds an EOS and
-- truncating it at its first EOS changes nothing; and a completion that holds an EOS passes the
-- check once truncated.
pub truncate_at_first_eos_lem :
    (completion eos : List ℤ)
    → ((validator_termination_ok completion eos ≡ true) ↔ (
        (first_eos_index completion eos ≢ none)
        × (truncate_at_first_eos completion eos ≡ completion)))
      × (first_eos_index completion eos ≢ none
          → validator_termination_ok (truncate_at_first_eos completion eos) eos ≡ true)
truncate_at_first_eos_lem completion eos = ((passes, passed), cut)
  where
    cut :
        first_eos_index completion eos ≢ none
        → validator_termination_ok (truncate_at_first_eos completion eos) eos ≡ true
    cut found = elim (Option-cases (first_eos_index completion eos)) [
      | inl n ↦ absurd (found n)
      | inr (fe, s) ↦
          rw (truncate-cut_after completion eos, s)
            (unfold cut_after in termination_of_EndsOnce _ eos (EndsOnce-first completion eos fe s))
    ]

    passed :
        ((first_eos_index completion eos ≢ none)
          × (truncate_at_first_eos completion eos ≡ completion))
        → validator_termination_ok completion eos ≡ true
    passed (found, same) = subst (λ c. validator_termination_ok c eos ≡ true) same (cut found)

    passes :
        validator_termination_ok completion eos ≡ true
        → (first_eos_index completion eos ≢ none)
          × (truncate_at_first_eos completion eos ≡ completion)
    passes ok =
        truncate-EndsOnce completion eos ((validator_termination_ok-EndsOnce completion eos).0 ok)

-- No EOS, or one in the last place.
abbrev pub EndsWell : List ℤ → List ℤ → Type 0
EndsWell tail eos = (first_eos_index tail eos ≡ none) ⊎ (validator_termination_ok tail eos ≡ true)

none_of_NoEos : (xs eos : List ℤ) → NoEos xs eos → first_eos_index xs eos ≡ none
unfolding first_eos_index
none_of_NoEos [] eos h = refl
none_of_NoEos (x ∷ xs) eos h = rw (h.0, none_of_NoEos xs eos h.1)

pub EndsWell-cut : (tail eos : List ℤ) → EndsWell (cut_after tail (first_eos_index tail eos)) eos
unfolding cut_after
EndsWell-cut tail eos = elim (Option-cases (first_eos_index tail eos)) [
  | inl n ↦ rw n (inl n)
  | inr (fe, s) ↦ rw s (inr (termination_of_EndsOnce _ eos (EndsOnce-first tail eos fe s)))
]

pub EndsWell-append :
    (xs ys eos : List ℤ) → NoEos xs eos → EndsWell ys eos → EndsWell (xs ++ ys) eos
EndsWell-append xs ys eos h (inl n) =
    inl (none_of_NoEos (xs ++ ys) eos (NoEos-append xs ys eos h (NoEos-of_none ys eos n)))
EndsWell-append xs ys eos h (inr ok) = inr (
    termination_of_EndsOnce (xs ++ ys) eos
      (EndsOnce-append xs ys eos h ((validator_termination_ok-EndsOnce ys eos).0 ok)))

pub EndsWell-first :
    (xs eos : List ℤ) (fe : ℕ) → first_eos_index xs eos ≡ some fe → EndsWell (take (suc fe) xs) eos
EndsWell-first xs eos fe s = inr (termination_of_EndsOnce _ eos (EndsOnce-first xs eos fe s))
