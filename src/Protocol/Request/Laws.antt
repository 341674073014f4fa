-- ===== src/Protocol/Request/Laws.antt =====
-- What a request that passed the schema satisfies.
use subnet.Base.{
  pos, true, some, List, [], ◌∷◌, nat_eq, string_eq, length, all, In, In-map, one_value, ◌≡◌, inl,
  inr, ◌<◌, arith,
}
use subnet.Base.Text.{is_hex_text, text_length}
use subnet.Protocol.Request.Defs.{
  RolloutSubmission, RawRequest, BatchSubmissionRequest, has_tokens, env_names,
  share_one_environment, parse_request,
}

module _ {F : Type 0} where
  abbrev pub HasTokens : RolloutSubmission F → Type 0
  HasTokens r = 0 < length r.tokens

  all-has_tokens :
      (rs : List (RolloutSubmission F)) (r : RolloutSubmission F)
      → all has_tokens rs ≡ true
      → In r rs
      → has_tokens r ≡ true
  all-has_tokens [] r h m = absurd m
  all-has_tokens (s ∷ rs) r h (inl e) = ground arith
  all-has_tokens (s ∷ rs) r h (inr m) = ground (arith, all-has_tokens rs r)

  -- A group shares one environment exactly in the sense that any two rollouts name the same one.
  pub env_name-eq_of_share :
      (rs : List (RolloutSubmission F)) (r s : RolloutSubmission F)
      → share_one_environment rs ≡ true
      → In r rs
      → In s rs
      → r.env_name ≡ s.env_name
  unfolding share_one_environment
  env_name-eq_of_share rs r s h mr ms =
      one_value r.env_name s.env_name (env_names rs) (ground arith)
        (In-map (λ (t : RolloutSubmission F). t.env_name) r rs mr)
        (In-map (λ (t : RolloutSubmission F). t.env_name) s rs ms)

  parse_request_facts :
      (raw : RawRequest F) {req : BatchSubmissionRequest F}
      → parse_request raw ≡ some req
      → (pos req.prompt_idx ≡ raw.prompt_idx)
        × (pos req.window_start ≡ raw.window_start)
        × (req.merkle_root ≡ raw.merkle_root)
        × (req.rollouts ≡ raw.rollouts)
        × (length req.rollouts ≡ 8)
        × (all has_tokens req.rollouts ≡ true)
        × (share_one_environment req.rollouts ≡ true)
        × (text_length req.merkle_root ≡ 64)
        × (is_hex_text req.merkle_root ≡ true)
  unfolding parse_request
  parse_request_facts raw h = ground arith

  -- What the parsed request says of the body: it is the body's content, its rollouts are eight,
  -- each has tokens, all name one environment, and the merkle root has 64 hex digits.
  pub parse_request_sound :
      (raw : RawRequest F) {req : BatchSubmissionRequest F}
      → parse_request raw ≡ some req
      → (pos req.prompt_idx ≡ raw.prompt_idx)
        × (pos req.window_start ≡ raw.window_start)
        × (req.merkle_root ≡ raw.merkle_root)
        × (req.rollouts ≡ raw.rollouts)
        × (length req.rollouts ≡ 8)
        × ((r : RolloutSubmission F) → In r req.rollouts → 0 < length r.tokens)
        × ((r s : RolloutSubmission F)
            → In r req.rollouts
            → In s req.rollouts
            → r.env_name ≡ s.env_name)
        × (text_length req.merkle_root ≡ 64)
        × (is_hex_text req.merkle_root ≡ true)
  parse_request_sound raw {req} h =
      let facts = parse_request_facts raw {req = req} h in
      (
        facts.0,
        facts.1,
        facts.2,
        facts.3,
        facts.4,
        λ r m. ground (arith, all-has_tokens req.rollouts r facts.5 m),
        λ r s mr ms. env_name-eq_of_share req.rollouts r s facts.6 mr ms,
        facts.7,
        facts.8,
      )
