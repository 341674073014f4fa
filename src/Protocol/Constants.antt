-- ===== src/Protocol/Constants.antt =====
-- reliquary/constants.py: the protocol constants that the modelled code reads.
use subnet.Base.{ℕ}

abbrev pub m_rollouts : ℕ
m_rollouts = 8

abbrev pub b_batch : ℕ
b_batch = 8

abbrev pub challenge_k : ℕ
challenge_k = 32

-- The default of MAX_NEW_TOKENS_PROTOCOL_CAP; an environment variable may replace it.
abbrev pub max_new_tokens_protocol_cap : ℕ
max_new_tokens_protocol_cap = 16384

abbrev pub prime_q : ℕ
prime_q = 2147483647

abbrev pub bootstrap_windows : ℕ
bootstrap_windows = 100

abbrev pub sampling_min_steps : ℕ
sampling_min_steps = 30

abbrev pub uid_burn : ℕ
uid_burn = 0
