-- ===== src/Identity/Errors.antt =====
-- The error values of backend/internal/identity.
use sama.Prelude.{Tx}
use sama.Database.{Db}

-- `random` is the error of randomToken, `bad_limit` that of Cleanup, `rate_limited` that of the
-- challenges.
pub data Error : Type 0 where
  unauthenticated store random bad_limit rate_limited recent_required reauth_unsupported : Error

abbrev pub IdTx : Type 0 → Type 0
IdTx A = Tx Db Error A
