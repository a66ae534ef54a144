-- ===== src/Failure.antt =====
-- web/src/api/client.ts: what a rejected request carries. `api_error` is the class `ApiError`; every
-- other exception (no connection, a body that is no JSON) is `other_error`.
use backup_orchestration_pla.Common.{ℕ}
use backup_orchestration_pla.Common.Text.{Text, codes}

pub data Failure : Type 0 where
  api_error : ℕ → Text → Failure
  other_error : Failure

-- How a promise settles.
pub data Outcome (A : Type 0) : Type 0 where
  resolved : A → Outcome A
  rejected : Failure → Outcome A

-- `err instanceof ApiError ? err.message : 'Could not reach the controller.'`
abbrev pub failure_message : Failure → Text
failure_message (api_error status message) = message
failure_message other_error = codes "Could not reach the controller."
