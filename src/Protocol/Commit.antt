-- ===== src/Protocol/Commit.antt =====
-- protocol/submission.py: `CommitModel`, the schema of the commit inside a rollout.
-- A `Raw` record is the dict that came over the wire: a field is `none` where the key is missing
-- or its value is not of the declared type, and `extra_keys` says that an undeclared key stands
-- there. Values that pydantic would convert ("12" for 12) count as not of the declared type.
-- A validated commit has the types of the schema, which asks of the commitments that they be dicts
-- and for their number.
mod Defs
mod Laws
unfoldable pub use Defs.*
pub use Laws.*
