-- ===== src/Miner/Bft/Assembled.antt =====
-- miner/bft.py: what `bft_assemble_rollouts` makes of the rows of one prompt.
use subnet.Base.{
  ℕ, suc, ◌+◌, ℤ, true, false, Option, none, some, List, [], ◌∷◌, ◌++◌, map, ◌≡◌, refl, ◌⊎◌, inl,
  inr, length, take, drop, Pointwise, Pointwise-imp, Pointwise-map, set_at-length, drop-append,
  append_assoc, ◌∙◌, length-append, length-map, Option-cases, Bool-cases, arith,
}
use subnet.Miner.Termination.{first_eos_index, has_think_close, cut_after}
use subnet.Miner.Termination.Laws.{EndsWell, EndsWell-cut}
use subnet.Miner.Bft.{
  Ids, Generation, Primed, Generate, Identity, Todo, Call, Processor, classify, classify_at,
  finished, unfinished, note_row, scan_rows, finish_row, fill_rows, width_of, primed_lengths,
  primed_of, continue_rows, bft_assemble_rollouts, phase2_call, is_forced, processor_of,
}

-- A model that answers one row for each row it is given.
abbrev pub AnswersEach : Generate → Type 0
AnswersEach generate = (call : Call) → length (generate call) ≡ length call.rows

-- What becomes of a classified row.
abbrev pub Fits : Ids → ℕ → Generation ⊎ Primed → Generation → Type 0
Fits ids plen (inl kept) g = g ≡ kept
Fits ids plen (inr p) g =
    (tail : List ℤ) × (g ≡ record {
      tokens = p.primed ++ cut_after tail (first_eos_index tail ids.eos_ids);
      prompt_length = plen;
      forced = is_forced p.force_span;
      force_span = p.force_span;
    })

abbrev pub FitsRow : Ids → List ℤ → List ℤ → Generation → Type 0
FitsRow ids prompt_tokens seq g = Fits ids (length prompt_tokens) (classify ids prompt_tokens seq) g

module _ (ids : Ids) (prompt_tokens : List ℤ) (width : ℕ) where
  abbrev Filled :
      List (List ℤ)
      → Todo
      → List (List ℤ)
      → List (Option Generation)
      → List (Option Generation)
      → Type 0
  Filled rows todo answers pre left =
      (out : List Generation) × (fill_rows ids (length prompt_tokens) width todo answers
          (pre ++ left)
        ≡ some (pre ++ map some out))
      × Pointwise (FitsRow ids prompt_tokens) rows out

  -- One more row, given that the rows after it are filled behind any prefix.
  fill_noted :
      (i : ℕ) (seq : List ℤ) (rows : List (List ℤ)) (c : Generation ⊎ Primed)
      (out : List (Option Generation)) (todo : Todo) (answers : List (List ℤ))
      (pre : List (Option Generation))
      → classify ids prompt_tokens seq ≡ c
      → length pre ≡ i
      → length answers ≡ length (note_row i c (out, todo)).1
      → ((answers' : List (List ℤ)) (g : Generation)
          → length answers' ≡ length todo
          → Filled rows todo answers' (pre ++ some g ∷ []) out)
      → Filled (seq ∷ rows) (note_row i c (out, todo)).1 answers pre (note_row i c (out, todo)).0
  unfolding note_row fill_rows finish_row
  fill_noted i seq rows (inl g) out todo answers pre e n k later =
      let (gs, f, p) = later answers g k in
      (
        g ∷ gs,
        rw
            (
              append_assoc pre (some g ∷ []) out,
              append_assoc pre (some g ∷ []) (map (λ x. some x) gs),
            )
            at f,
        (rw e refl, p),
      )
  fill_noted i seq rows (inr p) out todo [] pre e n k later = absurd (omega arith)
  fill_noted i seq rows (inr p) out todo (a ∷ answers) pre e n k later =
      let g = finish_row ids (length prompt_tokens) width p a in
      let (gs, f, q) = later answers g (omega arith) in
      (
        g ∷ gs,
        rw (← n, set_at-length pre (some g) none out)
            (rw
              (
                append_assoc pre (some g ∷ []) out,
                append_assoc pre (some g ∷ []) (map (λ x. some x) gs),
              )
              at f),
        (rw e (drop width a, refl), q),
      )

  fill_scanned :
      (rows : List (List ℤ)) (i : ℕ) (answers : List (List ℤ)) (pre : List (Option Generation))
      → length pre ≡ i
      → length answers ≡ length (scan_rows ids prompt_tokens i rows).1
      → Filled rows
          (scan_rows ids prompt_tokens i rows).1
          answers
          pre
          (scan_rows ids prompt_tokens i rows).0
  unfolding scan_rows fill_rows
  fill_scanned [] i answers pre n k = ([], refl, tt)
  fill_scanned (seq ∷ rows) i answers pre n k =
      let rest = scan_rows ids prompt_tokens (i + 1) rows in
      fill_noted i seq rows (classify ids prompt_tokens seq) rest.0 rest.1 answers pre refl n k
        (λ answers' g h.
          fill_scanned rows (i + 1) answers' (pre ++ some g ∷ [])
            (omega (arith, length-append pre (some g ∷ []))) h)

-- The completion `gen` of phase 1, and the three things that become of it: it ended by itself; it
-- closed its thinking and goes on; or its thinking is closed by the injected ids.
pub data Assembled (ids : Ids) (prompt_tokens gen : List ℤ) (g : Generation) : Type 0 where
  kept :
      (fe : ℕ)
      → first_eos_index gen ids.eos_ids ≡ some fe
      → g ≡ record {
        tokens = prompt_tokens ++ take (suc fe) gen;
        prompt_length = length prompt_tokens;
        forced = false;
        force_span = none;
      }
      → Assembled ids prompt_tokens gen g
  closed :
      (answer : List ℤ)
      → first_eos_index gen ids.eos_ids ≡ none
      → has_think_close gen ids.think_close_ids ≡ true
      → EndsWell answer ids.eos_ids
      → g ≡ record {
        tokens = prompt_tokens ++ (gen ++ answer);
        prompt_length = length prompt_tokens;
        forced = false;
        force_span = none;
      }
      → Assembled ids prompt_tokens gen g
  carved :
      (answer : List ℤ)
      → first_eos_index gen ids.eos_ids ≡ none
      → has_think_close gen ids.think_close_ids ≡ false
      → EndsWell answer ids.eos_ids
      → g ≡ record {
        tokens = prompt_tokens ++ (gen ++ (ids.force_ids ++ answer));
        prompt_length = length prompt_tokens;
        forced = true;
        force_span = some (
          length prompt_tokens + length gen,
          length prompt_tokens + length gen + length ids.force_ids,
        );
      }
      → Assembled ids prompt_tokens gen g

Assembled-of_unfinished :
    (ids : Ids) (prompt_tokens gen : List ℤ) (g : Generation)
    → first_eos_index gen ids.eos_ids ≡ none
    → Fits ids (length prompt_tokens) (inr (unfinished ids (prompt_tokens ++ gen) gen)) g
    → Assembled ids prompt_tokens gen g
unfolding unfinished is_forced
Assembled-of_unfinished ids prompt_tokens gen g n (tail, h) =
    let answer = cut_after tail (first_eos_index tail ids.eos_ids) in
    let ends = EndsWell-cut tail ids.eos_ids in
    elim (Bool-cases (has_think_close gen ids.think_close_ids)) [
      | inl c ↦ closed answer n c ends (rw (c, append_assoc prompt_tokens gen answer) at h)
      | inr c ↦ carved answer n c ends (
          rw
            (
              c,
              append_assoc (prompt_tokens ++ gen) ids.force_ids answer,
              append_assoc prompt_tokens gen (ids.force_ids ++ answer),
              length-append prompt_tokens gen,
            )
            at h)
    ]

pub Assembled-of_Fits :
    (ids : Ids) (prompt_tokens gen : List ℤ) (g : Generation)
    → Fits ids (length prompt_tokens) (classify ids prompt_tokens (prompt_tokens ++ gen)) g
    → Assembled ids prompt_tokens gen g
unfolding classify classify_at finished
Assembled-of_Fits ids prompt_tokens gen g h =
    elim (Option-cases (first_eos_index gen ids.eos_ids)) [
      | inl n ↦
          Assembled-of_unfinished ids prompt_tokens gen g n
            (rw (drop-append prompt_tokens gen, n) at h)
      | inr (fe, s) ↦ kept fe s (rw (drop-append prompt_tokens gen, s) at h)
    ]

pub length-phase2_call :
    (ids : Ids) (answer_budget : ℕ) (todo : Todo) (proc : Processor)
    → length (phase2_call ids answer_budget (primed_of todo) proc).rows ≡ length todo
unfolding phase2_call
length-phase2_call ids answer_budget todo proc =
    length-map (primed_of todo) _ ∙ length-map todo (λ t. t.1)

-- The answers of the model, behind the rows that are scanned.
continue-Filled :
    (generate : Generate) (ids : Ids) (answer_budget : ℕ) (identity : Identity) (prompt_idx : ℤ)
    (prompt_tokens : List ℤ) (rows : List (List ℤ)) (s : List (Option Generation) × Todo)
    → AnswersEach generate
    → ((width : ℕ) (answers : List (List ℤ))
        → length answers ≡ length s.1
        → Filled ids prompt_tokens width rows s.1 answers [] s.0)
    → (out : List Generation) × (continue_rows generate ids answer_budget identity prompt_idx
          (length prompt_tokens)
          s
        ≡ some (map (λ g. some g) out))
      × Pointwise (FitsRow ids prompt_tokens) rows out
unfolding continue_rows fill_rows
continue-Filled generate ids answer_budget identity prompt_idx prompt_tokens rows (out, []) each h =
    h 0 [] refl
continue-Filled generate ids answer_budget identity prompt_idx prompt_tokens rows (out, t ∷ todo)
      each h =
    let primed = primed_of (t ∷ todo) in
    let proc : Processor = processor_of identity prompt_idx (length prompt_tokens) (t ∷ todo) in
    let call : Call = phase2_call ids answer_budget primed proc in
    h (width_of (primed_lengths primed)) (generate call)
      (each call ∙ length-phase2_call ids answer_budget (t ∷ todo) proc)

-- If the model answers one row for each row of its input, every completion of phase 1 becomes
-- exactly one rollout, in the order of the rows. A completion with an EOS is cut after the first;
-- one that has none goes on with an answer, behind the injected ids exactly if it has not closed
-- its thinking, and the span recorded is where they stand. The answer has no EOS, or one in the
-- last place.
pub bft_assemble_rollouts-Assembled :
    (generate : Generate) (ids : Ids) (answer_budget : ℕ) (identity : Identity) (prompt_idx : ℤ)
    (prompt_tokens : List ℤ) (gens : List (List ℤ))
    → AnswersEach generate
    → (out : List Generation) × (bft_assemble_rollouts generate ids answer_budget identity
          prompt_idx prompt_tokens
          (map (λ gen. prompt_tokens ++ gen) gens)
        ≡ some (map (λ g. some g) out))
      × Pointwise (Assembled ids prompt_tokens) gens out
unfolding bft_assemble_rollouts
bft_assemble_rollouts-Assembled generate ids answer_budget identity prompt_idx prompt_tokens gens
      each =
    let (out, e, p) =
      continue-Filled generate ids answer_budget identity prompt_idx prompt_tokens
        (map (λ gen. prompt_tokens ++ gen) gens) _ each
        (λ width answers n. fill_scanned ids prompt_tokens width _ 0 answers [] refl n) in
    (
      out,
      e,
      Pointwise-imp _ _ gens out (λ gen g. Assembled-of_Fits ids prompt_tokens gen g)
          (Pointwise-map (FitsRow ids prompt_tokens) (λ gen. prompt_tokens ++ gen) gens out p),
    )
