-- ===== src/Miner/Mix/Ties.antt =====
-- miner/mix_controller.py `pick_bake_env`: the loop collects the environments furthest below their
-- share.
use subnet.Base.{
  ℕ, suc, ◌<◌, ℤ, ◌≤ℤ◌, ◌<ℤ◌, ltb_ℤ, int_eq, int_beq_iff, true, false, some, List, [], ◌∷◌, ◌++◌,
  ◌==◌, nat_eq, String, length, length-append, get_elem?, In, ◌≡◌, ◌≢◌, ◌⊎◌, inl, inr, refl, sym,
  ap, subst, ◌∙◌, arith, Bool-cases,
}
use subnet.Base.Dict.{Dict}
use subnet.Miner.Mix.{note_deficit, deficit_of, scan_deficits, tied_envs}

In-append_left : {A : Type 0} (a : A) (xs ys : List A) → In a xs → In a (xs ++ ys)
In-append_left a [] ys m = absurd m
In-append_left a (x ∷ xs) ys (inl e) = inl e
In-append_left a (x ∷ xs) ys (inr m) = inr (In-append_left a xs ys m)

In-append_last : {A : Type 0} (a : A) (xs : List A) → In a (xs ++ a ∷ [])
In-append_last a [] = inl refl
In-append_last a (x ∷ xs) = inr (In-append_last a xs)

In-append_cases : {A : Type 0} (a b : A) (xs : List A) → In a (xs ++ b ∷ []) → In a xs ⊎ (a ≡ b)
In-append_cases a b [] (inl e) = inr e
In-append_cases a b [] (inr m) = absurd m
In-append_cases a b (x ∷ xs) (inl e) = inl (inl e)
In-append_cases a b (x ∷ xs) (inr m) = elim (In-append_cases a b xs m) [
  | inl k ↦ inl (inr k)
  | inr e ↦ inr e
]

pub In-get_elem? :
    {A : Type 0} (a : A) (xs : List A)
    → In a xs
    → (i : ℕ) × (i < length xs) × (get_elem? xs i ≡ some a)
In-get_elem? a [] m = absurd m
In-get_elem? a (x ∷ xs) (inl e) = (0, omega arith, ap some (sym e))
In-get_elem? a (x ∷ xs) (inr m) =
    let (i, lt, at) = In-get_elem? a xs m in (suc i, omega (arith, lt), at)

ltb_ℤ-false : (a b : ℤ) → ltb_ℤ a b ≡ false → b ≤ℤ a
ltb_ℤ-false a b h = ground arith

ltb_ℤ-true : (a b : ℤ) → ltb_ℤ a b ≡ true → a <ℤ b
ltb_ℤ-true a b h = ground arith

pair_eq : (env : String) (item : String × ℕ) → env ≡ item.0 → (env, item.1) ≡ item
pair_eq env item e = ap (λ n. (n, item.1)) e

module _ (D : String × ℕ → ℤ) where
  -- The environments `tied` of the items `seen` have the deficit `best`, no item of them a larger
  -- one, and all with that deficit are there.
  pub record IsTied (seen : List (String × ℕ)) (best : ℤ) (tied : List String) : Type 0 where
    pub top : (item : String × ℕ) → In item seen → D item ≤ℤ best
    pub sound :
        (env : String)
        → In env tied
        → (target : ℕ) × In (env, target) seen × (D (env, target) ≡ best)
    pub complete : (item : String × ℕ) → In item seen → D item ≡ best → In item.0 tied
    pub nonempty : 0 < length tied

  module _ (seen : List (String × ℕ)) (best : ℤ) (tied : List String) (item : String × ℕ)
      (t : IsTied seen best tied) where
    larger-IsTied : best <ℤ D item → IsTied (item ∷ seen) (D item) (item.0 ∷ [])
    larger-IsTied lt = record {
      top = λ i m. elim m [
        | inl e ↦ subst (λ j. D i ≤ℤ D j) e (omega arith)
        | inr old ↦ omega (arith, t.top i old, lt)
      ];
      sound = λ env m. elim m [
        | inl e ↦ (item.1, inl (pair_eq env item e), ap D (pair_eq env item e))
        | inr none_left ↦ absurd none_left
      ];
      complete = λ i m e. elim m [
        | inl same ↦ inl (ap (λ j. j.0) same)
        | inr old ↦ absurd (omega (arith, lt, subst (λ k. k ≤ℤ best) e (t.top i old)))
      ];
      nonempty = omega arith;
    }

    equal-IsTied : D item ≡ best → IsTied (item ∷ seen) best (tied ++ item.0 ∷ [])
    equal-IsTied same = record {
      top = λ i m. elim m [
        | inl e ↦ subst (λ k. k ≤ℤ best) (sym (ap D e ∙ same)) (omega arith)
        | inr old ↦ t.top i old
      ];
      sound = λ env m. elim (In-append_cases env item.0 tied m) [
        | inl old ↦ let (target, inside, e) = t.sound env old in (target, inr inside, e)
        | inr e ↦ (item.1, inl (pair_eq env item e), ap D (pair_eq env item e) ∙ same)
      ];
      complete = λ i m e. elim m [
        | inl this ↦
            subst (λ n. In n (tied ++ item.0 ∷ [])) (ap (λ j. j.0) (sym this))
              (In-append_last item.0 tied)
        | inr old ↦ In-append_left i.0 tied (item.0 ∷ []) (t.complete i old e)
      ];
      nonempty = omega (arith, length-append tied (item.0 ∷ []));
    }

    smaller-IsTied : D item ≤ℤ best → D item ≢ best → IsTied (item ∷ seen) best tied
    smaller-IsTied le ne = record {
      top = λ i m. elim m [
        | inl e ↦ subst (λ k. k ≤ℤ best) (sym (ap D e)) le
        | inr old ↦ t.top i old
      ];
      sound = λ env m. let (target, inside, e) = t.sound env m in (target, inr inside, e);
      complete = λ i m e. elim m [
        | inl this ↦ absurd (ne (sym (ap D this) ∙ e))
        | inr old ↦ t.complete i old e
      ];
      nonempty = t.nonempty;
    }

    pub note_deficit-IsTied :
        (best' : ℤ) × (tied' : List String) × (note_deficit item.0 (D item) (some best, tied)
          ≡ (some best', tied'))
        × IsTied (item ∷ seen) best' tied'
    unfolding note_deficit
    note_deficit-IsTied = elim (Bool-cases (ltb_ℤ best (D item))) [
      | inl more ↦ (
        D item,
        item.0 ∷ [],
        rw (more, note_deficit) refl,
        larger-IsTied (ltb_ℤ-true best (D item) more),
      )
      | inr not_more ↦ elim (Bool-cases (D item == best)) [
        | inl same ↦ (
          best,
          tied ++ item.0 ∷ [],
          rw (not_more, same, note_deficit) refl,
          equal-IsTied ((int_beq_iff (D item) best).0 same),
        )
        | inr other ↦ (
          best,
          tied,
          rw (not_more, other, note_deficit) refl,
          smaller-IsTied (ltb_ℤ-false best (D item) not_more)
              (λ e. ground (arith, (int_beq_iff (D item) best).1 e)),
        )
      ]
    ]

-- What the loop has seen at its end.
abbrev pub rev_onto : {A : Type 0} → List A → List A → List A
rev_onto [] seen = seen
rev_onto (x ∷ xs) seen = rev_onto xs (x ∷ seen)

In-rev_onto_seen : {A : Type 0} (a : A) (xs seen : List A) → In a seen → In a (rev_onto xs seen)
In-rev_onto_seen a [] seen m = m
In-rev_onto_seen a (x ∷ xs) seen m = In-rev_onto_seen a xs (x ∷ seen) (inr m)

pub In-rev_onto : {A : Type 0} (a : A) (xs seen : List A) → In a xs → In a (rev_onto xs seen)
In-rev_onto a [] seen m = absurd m
In-rev_onto a (x ∷ xs) seen (inl e) = In-rev_onto_seen a xs (x ∷ seen) (inl e)
In-rev_onto a (x ∷ xs) seen (inr m) = In-rev_onto a xs (x ∷ seen) m

In-rev_onto_cases :
    {A : Type 0} (a : A) (xs seen : List A) → In a (rev_onto xs seen) → In a xs ⊎ In a seen
In-rev_onto_cases a [] seen m = inr m
In-rev_onto_cases a (x ∷ xs) seen m = elim (In-rev_onto_cases a xs (x ∷ seen) m) [
  | inl later ↦ inl (inr later)
  | inr (inl this) ↦ inl (inl this)
  | inr (inr old) ↦ inr old
]

pub In-rev_onto_nil : {A : Type 0} (a : A) (xs : List A) → In a (rev_onto xs []) → In a xs
In-rev_onto_nil a xs m = elim (In-rev_onto_cases a xs [] m) [
  | inl inside ↦ inside
  | inr nothing ↦ absurd nothing
]

module _ (counts : Dict String ℕ) where
  scan_deficits-IsTied :
      (items seen : List (String × ℕ)) (best : ℤ) (tied : List String)
      → IsTied (deficit_of counts) seen best tied
      → (best' : ℤ) × (tied' : List String) × (scan_deficits counts items (some best, tied)
          ≡ (some best', tied'))
        × IsTied (deficit_of counts) (rev_onto items seen) best' tied'
  unfolding scan_deficits
  scan_deficits-IsTied [] seen best tied t = (best, tied, refl, t)
  scan_deficits-IsTied (item ∷ items) seen best tied t =
      let (best1, tied1, e, t1) = note_deficit-IsTied (deficit_of counts) seen best tied item t in
      let (best', tied', f, t') = scan_deficits-IsTied items (item ∷ seen) best1 tied1 t1 in
      (best', tied', ap (scan_deficits counts items) e ∙ f, t')

  -- The loop over a dict that is not empty ends with the environments of the largest deficit.
  pub tied_envs-IsTied :
      (item : String × ℕ) (items : List (String × ℕ))
      → (best : ℤ) × IsTied
          (deficit_of counts)
          (rev_onto (item ∷ items) [])
          best
          (tied_envs counts (item ∷ items))
  unfolding scan_deficits note_deficit
  tied_envs-IsTied item items =
      let first : IsTied (deficit_of counts) (item ∷ []) (deficit_of counts item) (item.0 ∷ []) =
        record {
          top = λ i m. elim m [
            | inl e ↦ subst (λ j. deficit_of counts i ≤ℤ deficit_of counts j) e (omega arith)
            | inr nothing ↦ absurd nothing
          ];
          sound = λ env m. elim m [
            | inl e ↦
                (item.1, inl (pair_eq env item e), ap (deficit_of counts) (pair_eq env item e))
            | inr nothing ↦ absurd nothing
          ];
          complete = λ i m e. elim m [
            | inl this ↦ inl (ap (λ j. j.0) this)
            | inr nothing ↦ absurd nothing
          ];
          nonempty = omega arith;
        } in
      let (best, tied, e, t) =
        scan_deficits-IsTied items (item ∷ []) (deficit_of counts item) (item.0 ∷ []) first in
      (
        best,
        subst (IsTied (deficit_of counts) (rev_onto items (item ∷ [])) best) (sym (ap (λ v. v.1) e))
            t,
      )
