-- ===== src/Protocol/Request.antt =====
-- protocol/submission.py: `RolloutSubmission`, `BatchSubmissionRequest`, `BatchSubmissionResponse`.
-- The `Raw` record is the JSON body with fields of the declared types; numbers may be negative
-- and texts of any form, which is what the schema's constraints are about.
mod Defs
mod Laws
unfoldable pub use Defs.*
pub use Laws.*
