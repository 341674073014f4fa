-- ===== src/Validator/Ema/Scores.antt =====
-- The scores after a restart, and the weights that are sent to the chain.
use subnet.Base.{
  ℕ, ◌+◌, map, true, some, List, [], ◌∷◌, String, string_eq, In, In-append, IsSorted, sorted, ◌≡◌,
  ◌⊎◌, inl, inr, refl, ap, Bool-cases, Option-cases, pos,
}
use subnet.Base.Dict
use subnet.Base.Dict.{Dict}
use subnet.Base.Float.{Float}
use subnet.Protocol.Constants.{uid_burn}
use subnet.Validator.Archive.{BatchEntry, ArchivedWindow}
use subnet.Validator.Ema.{
  count_contribs, blend, blend_all, prune, update_ema, hotkeys_of, update_all, window_le,
  miner_weights, weights_to_set, burn_weight,
}
use subnet.Validator.Ema.Replay.{
  count_entries, replay_hotkeys, keep_scores, replay_records, replay_ema,
}
use subnet.Validator.Ema.WeightOnly.{
  weight_only_count, weight_only_blend, weight_only_keep, weight_only_records,
  weight_only_replay_ema,
}

module _ {F : Type 0} (fl : Float F) where
  -- Sorting a sorted list changes nothing.
  sorted-IsSorted_lem :
      (rs : List ArchivedWindow) → IsSorted (window_le fl) rs → sorted (window_le fl) rs ≡ rs
  unfolding sorted
  sorted-IsSorted_lem [] h = refl
  sorted-IsSorted_lem (r ∷ []) h = refl
  sorted-IsSorted_lem (r ∷ s ∷ rs) ((first, each), h) =
      rw (sorted, sorted-IsSorted_lem (s ∷ rs) h, first) refl

  count_entries-count_contribs :
      (entries : List BatchEntry) (d : Dict String ℕ)
      → count_entries entries d ≡ count_contribs (map (λ entry. entry.hotkey) entries) d
  unfolding count_entries count_contribs
  count_entries-count_contribs [] d = refl
  count_entries-count_contribs (entry ∷ entries) d =
      count_entries-count_contribs entries (Dict.set entry.hotkey (Dict.get entry.hotkey 0 d + 1) d)

  replay_hotkeys-blend_all :
      (contribs : Dict String ℕ) (hotkeys : List String) (ema : Dict String F)
      → replay_hotkeys fl contribs hotkeys ema ≡ blend_all fl contribs hotkeys ema
  unfolding replay_hotkeys blend_all
  replay_hotkeys-blend_all contribs [] ema = refl
  replay_hotkeys-blend_all contribs (hk ∷ hotkeys) ema =
      replay_hotkeys-blend_all contribs hotkeys
        (Dict.set hk (blend fl (Dict.get hk 0 contribs) (Dict.get hk (fl.decimal 0 0) ema)) ema)

  keep_scores-prune : (ema : Dict String F) → keep_scores fl ema ≡ prune fl ema
  unfolding keep_scores prune
  keep_scores-prune [] = refl
  keep_scores-prune ((hk, v) ∷ ema) = rw (keep_scores-prune ema) refl

  replay_records-update_all :
      (archives : List ArchivedWindow) (ema : Dict String F)
      → replay_records fl archives ema ≡ update_all fl archives ema
  unfolding replay_records update_all update_ema
  replay_records-update_all [] ema = refl
  replay_records-update_all (r ∷ archives) ema =
      rw (count_entries-count_contribs r.batch [], keep_scores-prune, replay_hotkeys-blend_all)
        (replay_records-update_all archives (update_ema fl (hotkeys_of fl r) ema))

  weight_only_count-count_contribs :
      (entries : List BatchEntry) (d : Dict String ℕ)
      → weight_only_count entries d ≡ count_contribs (map (λ entry. entry.hotkey) entries) d
  unfolding weight_only_count count_contribs
  weight_only_count-count_contribs [] d = refl
  weight_only_count-count_contribs (entry ∷ entries) d =
      weight_only_count-count_contribs entries
        (Dict.set entry.hotkey (Dict.get entry.hotkey 0 d + 1) d)

  weight_only_blend-blend_all :
      (contribs : Dict String ℕ) (hotkeys : List String) (ema : Dict String F)
      → weight_only_blend fl contribs hotkeys ema ≡ blend_all fl contribs hotkeys ema
  unfolding weight_only_blend blend_all
  weight_only_blend-blend_all contribs [] ema = refl
  weight_only_blend-blend_all contribs (hk ∷ hotkeys) ema =
      weight_only_blend-blend_all contribs hotkeys
        (Dict.set hk (blend fl (Dict.get hk 0 contribs) (Dict.get hk (fl.decimal 0 0) ema)) ema)

  weight_only_keep-prune : (ema : Dict String F) → weight_only_keep fl ema ≡ prune fl ema
  unfolding weight_only_keep prune
  weight_only_keep-prune [] = refl
  weight_only_keep-prune ((hk, v) ∷ ema) = rw (weight_only_keep-prune ema) refl

  weight_only_records-update_all :
      (archives : List ArchivedWindow) (ema : Dict String F)
      → weight_only_records fl archives ema ≡ update_all fl archives ema
  unfolding weight_only_records update_all update_ema
  weight_only_records-update_all [] ema = refl
  weight_only_records-update_all (r ∷ archives) ema =
      rw
        (
          weight_only_count-count_contribs r.batch [],
          weight_only_keep-prune,
          weight_only_blend-blend_all,
        )
        (weight_only_records-update_all archives (update_ema fl (hotkeys_of fl r) ema))

  -- For archives in ascending order of their windows, the scores that a restarted validator
  -- replays, and those that a weight-only validator replays with its own copy of the loop, are
  -- those of a validator that updated its scores at every one of these windows, starting from no
  -- scores.
  pub replay_ema-update_all :
      (archives : List ArchivedWindow)
      → IsSorted (window_le fl) archives
      → (replay_ema fl archives ≡ update_all fl archives [])
        × (weight_only_replay_ema fl archives ≡ update_all fl archives [])
  unfolding replay_ema weight_only_replay_ema
  replay_ema-update_all archives h =
      rw (sorted-IsSorted_lem archives h)
        (replay_records-update_all archives [], weight_only_records-update_all archives [])

  -- A weight that is due to a score of a registered hotkey, or to the burn.
  abbrev pub IsDue : Dict String ℕ → Dict String F → ℕ × F → Type 0
  IsDue uids ema w =
      ((hk : String) × In (hk, w.1) ema × (Dict.lookup hk uids ≡ some w.0))
      ⊎ ((w.0 ≡ uid_burn) × (w.1 ≡ burn_weight fl ema))

  miner_weights_due :
      (uids : Dict String ℕ) (ema : Dict String F) (w : ℕ × F)
      → In w (miner_weights fl uids ema)
      → ((hk : String) × In (hk, w.1) ema × (Dict.lookup hk uids ≡ some w.0))
        × (fl.lt (fl.of_int (pos 0)) w.1 ≡ true)
  unfolding miner_weights
  miner_weights_due uids [] w m = absurd m
  miner_weights_due uids ((hk, v) ∷ ema) w m = elim (Option-cases (Dict.lookup hk uids)) [
    | inl absent ↦
        let ((k, inside, e), p) = miner_weights_due uids ema w (rw (miner_weights, absent) at m) in
        ((k, inr inside, e), p)
    | inr (uid, known) ↦ elim (Bool-cases (fl.lt (fl.of_int (pos 0)) v)) [
      | inl more ↦
          let n : (w ≡ (uid, v)) ⊎ In w (miner_weights fl uids ema) =
            rw (miner_weights, known, more) at m in
          elim n [
            | inl same ↦ ((hk, inl (ap (λ u. (hk, u.1)) same), rw same known), rw same more)
            | inr later ↦
                let ((k, inside, e), p) = miner_weights_due uids ema w later in
                ((k, inr inside, e), p)
          ]
      | inr no_more ↦
          let ((k, inside, e), p) =
            miner_weights_due uids ema w (rw (miner_weights, known, no_more) at m) in
          ((k, inr inside, e), p)
    ]
  ]

  -- Every weight handed to the chain is positive, and is the score of a hotkey that the metagraph
  -- has under this uid, or the burn weight under the burn's uid.
  pub weights_to_set-IsDue :
      (uids : Dict String ℕ) (ema : Dict String F) (w : ℕ × F)
      → In w (weights_to_set fl uids ema)
      → IsDue uids ema w × (fl.lt (fl.of_int (pos 0)) w.1 ≡ true)
  unfolding weights_to_set
  weights_to_set-IsDue uids ema w m = elim (In-append w (miner_weights fl uids ema) _ m) [
    | inl miner ↦ let (due, p) = miner_weights_due uids ema w miner in (inl due, p)
    | inr burn ↦ elim (Bool-cases (fl.lt (fl.of_int (pos 0)) (burn_weight fl ema))) [
      | inl more ↦
          let n : (w ≡ (uid_burn, burn_weight fl ema)) ⊎ ⊥ = rw more at burn in
          elim n [
            | inl same ↦ (inr (ap (λ u. u.0) same, ap (λ u. u.1) same), rw same more)
            | inr nothing ↦ absurd nothing
          ]
      | inr no_more ↦ absurd (rw no_more at burn)
    ]
  ]
