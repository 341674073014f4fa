-- ===== src/Validator/Resume/Parsing.antt =====
-- validator/resume.py: what `parse_resume_source` accepts.
use Prim.Native.Char.{code}
use subnet.Base.{
  true, false, Option, none, some, ◌∷◌, ◌++◌, ◌==◌, nat_eq, string_eq, String, ◌≡◌, inl, inr, refl,
  ap, ap₂, subst, ◌∙◌, arith, Bool-cases, Option-cases,
}
use subnet.Base.Maybe.{some_pair}
use subnet.Base.Text.{codes}
use subnet.Validator.Resume.{
  ResumeSource, sha_source, path_source, partition, is_hex40, parse_resume_source,
}

-- The argument that names a source.
abbrev pub print : ResumeSource → String
print (sha_source sha) = String.◌∷◌ "s" (String.◌∷◌ "h" (String.◌∷◌ "a" (String.◌∷◌ ":" sha)))
print (path_source path) =
    String.◌∷◌ "p" (String.◌∷◌ "a" (String.◌∷◌ "t" (String.◌∷◌ "h" (String.◌∷◌ ":" path))))

abbrev pub IsValid : ResumeSource → Type 0
IsValid (sha_source sha) = is_hex40 sha ≡ true
IsValid (path_source path) = (path == "") ≡ false

none_ne : {A : Type 0} (m : Option A) {a : A} → m ≡ none → m ≡ some a → ⊥
none_ne m e f = cc

some_eq : {A : Type 0} (m : Option A) (a b : A) → m ≡ some a → m ≡ some b → a ≡ b
some_eq m a b e f = cc

-- The source is valid and the argument names it.
abbrev pub Named : String → ResumeSource → Type 0
Named raw source = IsValid source × (codes raw ≡ codes (print source))

-- Every valid source is parsed back from its argument.
pub parse-print :
    (source : ResumeSource) → IsValid source → parse_resume_source (print source) ≡ some source
unfolding parse_resume_source partition
parse-print (sha_source sha) v = rw v refl
parse-print (path_source path) v = rw v refl

partition-codes :
    (raw scheme rest : String)
    → partition raw ≡ some (scheme, rest)
    → codes raw ≡ codes scheme ++ b':' ∷ codes rest
unfolding partition
partition-codes String.[] scheme rest e = absurd (cc)
partition-codes (String.◌∷◌ c s) scheme rest e = elim (Bool-cases (code c == b':')) [
  | inl colon ↦
      let (same_scheme, same_rest) =
        some_pair (partition (String.◌∷◌ c s)) String.[] scheme s rest (rw (colon, partition) refl)
          e in
      let is_colon : code c ≡ b':' = ground arith in
      ap (λ k. k ∷ codes s) is_colon ∙ ap₂ (λ a b. codes a ++ b':' ∷ codes b) same_scheme same_rest
  | inr other ↦ elim (Option-cases (partition s)) [
    | inl missing ↦
        absurd (none_ne (partition (String.◌∷◌ c s)) (rw (other, missing, partition) refl) e)
    | inr ((before, after), found) ↦
        let (same_scheme, same_rest) =
          some_pair (partition (String.◌∷◌ c s)) (String.◌∷◌ c before) scheme after rest
            (rw (other, found, partition) refl) e in
        ap (λ k. code c ∷ k) (partition-codes s before after found)
        ∙ ap₂ (λ a b. codes a ++ b':' ∷ codes b) same_scheme same_rest
  ]
]

-- Only valid sources are accepted, each only from the argument that names it: `sha:` with forty
-- lower-case hex digits (and at most one newline after them), or `path:` with a path that is not
-- empty.
pub parse_resume_source_sound :
    (raw : String) (source : ResumeSource)
    → parse_resume_source raw ≡ some source
    → Named raw source
unfolding parse_resume_source
parse_resume_source_sound raw source e = elim (Option-cases (partition raw)) [
  | inl missing ↦
      absurd (none_ne (parse_resume_source raw) (rw (missing, parse_resume_source) refl) e)
  | inr ((scheme, rest), found) ↦
      let split = partition-codes raw scheme rest found in
      elim (Bool-cases (scheme == "sha")) [
        | inl sha ↦ elim (Bool-cases (is_hex40 rest)) [
          | inl valid ↦
              subst (Named raw)
                (some_eq (parse_resume_source raw) (sha_source rest) source
                  (rw (found, sha, valid, parse_resume_source) refl) e)
                (
                  valid,
                  split
                      ∙ ap (λ a. codes a ++ b':' ∷ codes rest)
                          ((string_eq.beq_iff scheme "sha").0 sha),
                )
          | inr bad ↦
              absurd (
                none_ne (parse_resume_source raw) (rw (found, sha, bad, parse_resume_source) refl)
                  e)
        ]
        | inr other ↦ elim (Bool-cases (scheme == "path")) [
          | inl path ↦ elim (Bool-cases (rest == "")) [
            | inl blank ↦ absurd (
                none_ne (parse_resume_source raw)
                  (rw (found, other, path, blank, parse_resume_source) refl) e)
            | inr there ↦
                subst (Named raw)
                  (some_eq (parse_resume_source raw) (path_source rest) source
                    (rw (found, other, path, there, parse_resume_source) refl) e)
                  (
                    there,
                    split
                        ∙ ap (λ a. codes a ++ b':' ∷ codes rest)
                            ((string_eq.beq_iff scheme "path").0 path),
                  )
          ]
          | inr unknown ↦ absurd (
              none_ne (parse_resume_source raw)
                (rw (found, other, unknown, parse_resume_source) refl) e)
        ]
      ]
]
