-- ===== src/Lib.antt =====
-- Verification of the reliquary subnet: the protocol that miners and validators
-- share (reliquary/protocol, reliquary/shared), the validator's market for training batches
-- (reliquary/validator), and the parts of the miner that talk to it (reliquary/miner).
--
-- A miner sends eight rollouts for one prompt in a signed envelope. The server hands the request
-- to the batcher of the open window, which runs the gates and checks in order, claims the prompt
-- for the first submission that passes, and seals the window once eight prompts are taken. The
-- batch is chosen by arrival time; its prompts go into the cooldown map, which a validator that
-- restarts rebuilds from the archive.
--
-- On its side the miner picks prompts of the window's slice, generates completions whose thinking is
-- cut at a budget, composes eight of them into a group, keeps the groups in a pool, and posts them
-- as the trigger loop polls the validator's state.
--
-- Files and what they model:
--   Base: lists, signed integers, dicts, sorting, texts and floats as Python has them. Numbers
--     are natural, or the type of signed integers where the code may see a negative one. Floats
--     are a parameter with operations and no laws; a theorem that needs one names it.
--   Protocol.Constants: reliquary/constants.py.
--   Protocol.Reason, Protocol.Request, Protocol.Commit: the schemas of
--     reliquary/protocol/submission.py. Raw records are bodies before validation; `validate` and
--     `parse_request` are `model_validate`, with `none` for the ValidationError.
--   Protocol.Bytes, Protocol.Crypto: reliquary/protocol/crypto.py (`prf`, `indices_from_root`) and
--     the hashing of reliquary/protocol/tokens.py. The hash functions and Python's seeded
--     generator are the parameters `Hashes` and `Rng`.
--   Protocol.Tokens: the checks of reliquary/protocol/tokens.py.
--   Protocol.Merkle: reliquary/protocol/merkle.py. The loop runs on fuel, the number of leaves,
--     which is enough since each round halves the level.
--   Protocol.Signatures: the bindings of reliquary/protocol/signatures.py.
--   Protocol.PromptRange: reliquary/shared/prompt_range.py.
--   Protocol.Grail: the sketch of reliquary/protocol/grail_verifier.py and
--     `verify_commitment_proofs` of reliquary/validator/verifier.py, over a forward pass that is a
--     parameter.
--   Validator.Cooldown: reliquary/validator/cooldown.py.
--   Validator.Selection: reliquary/validator/batch_selection.py.
--   Validator.Verifier: the other checks of reliquary/validator/verifier.py.
--   Validator.Batcher: reliquary/validator/batcher.py. `Outcome` is what a step comes to, `Checks`
--     the loops over the rollouts, `State` the state and its operations. The lock makes each call
--     one step, so that a window is a sequence of calls.
--   Samples, Protocol.Samples, Validator.Samples: concrete values for the examples.
--   Validator.Ema: the scores and weights of reliquary/validator/service.py (`_update_ema`,
--     `_submit_weights`); `Replay` is that file's `_replay_ema`, `WeightOnly` the copy in
--     reliquary/validator/weight_only.py. The walk over a set of hotkeys is taken in the order of
--     the dict.
--   Validator.Server: reliquary/validator/server.py. The batchers are on a heap, a list, and a
--     reference is an index, since the server, its queue and the service share them.
--   Validator.Service: `ValidationService` of reliquary/validator/service.py, with the publishing
--     of reliquary/validator/checkpoint.py. `run` is cut at its awaits: `Phase` says where it
--     stands, `Advance` is a step of the coroutine with any answer of the outside, `Serve` one of
--     the server, and a run is a sequence of both (`Reach`). `Boot` is what precedes the loop: the
--     resume, the bootstrap from R2 and HF, and the rebuilding of the cooldown.
--   Miner.Submitter: reliquary/miner/submitter.py. What the network answers is an argument, for each
--     message and attempt; `EndToEnd` puts the modelled service at its other end.
--   Miner.Mix: reliquary/miner/mix_controller.py, less the division of the slots.
--   Validator.Resume: `parse_resume_source` of reliquary/validator/resume.py, over code points.
--   Miner.Termination: the EOS tests of reliquary/shared/modeling.py and reliquary/miner/engine.py.
--   Miner.Bft: reliquary/miner/bft.py. What `model.generate` answers is a parameter, with one row
--     for each row of its input; `Groups` is the function for several prompts.
--   Miner.Engine: the trigger loop of reliquary/miner/engine.py. `Fire` is the drain of the pool and
--     the requeueing, `Trigger` one iteration of the loop (`tick`) and the steps by which the loop,
--     the fire tasks and the generator interleave (`Move`); a run also keeps what it has posted.
--   Miner.Prompts: `pick_prompt_idx` of reliquary/miner/engine.py. The values of the random
--     generator are a parameter.
--   Miner.Compose: `_try_select` of reliquary/miner/engine.py, which composes the rollouts of a
--     submission. The thresholds that it reads from the environment are a record; the digest of the
--     tokens is a parameter. The band of `k` lies within the size of a group.
-- Not modelled: tensor code, the tokenizer, the environments and graders, the transport of HTTP,
-- the chain, drand and R2, and of the miner the generation, grading and proofs on the GPU, the
-- generator loop around them, the signing of a request from a pool entry, and the Bayesian selector.
-- They are outside the decisions that are modelled, or parameters of the model.
pub mod Base
pub mod Validator
pub mod Miner
pub mod Protocol
pub mod Samples
