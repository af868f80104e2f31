-- ===== src/Inventory/Errors.antt =====
-- The error values of backend/internal/inventory and of the packages whose errors it passes on.
use sama.Prelude.{
  Tx, ok, err, guard, pure, ◌>>=◌, ◌>>◌, String, ◌||◌, ◌is◌, if◌then◌else◌, ◌≡◌, arith,
}
use sama.Database.{Db, Env}
use sama.Workspace.Errors.{WsTx}
use sama.Workspace.Errors

-- `of_workspace` is an error of the package workspace, `lease` is job.ErrLease, `binding` is
-- provider.ErrBinding, `failure` is ScanFailure or outbound.Failure with its code, and `other` any
-- error without a code.
pub data Error : Type 0 where
  of_workspace : Errors.Error → Error
  quota scan lease binding other : Error
  failure : String → Error

abbrev pub InvTx : Type 0 → Type 0
InvTx A = Tx Db Error A

-- An operation of the package workspace, whose error is passed on.
unfoldable pub from_workspace : {A : Type 0} → WsTx A → InvTx A
from_workspace m db = elim (m db) [ ok r ↦ ok r | err e ↦ err (of_workspace e) ]

pub from_workspace-ok :
    {A : Type 0} (m : WsTx A) (db : Db) {r : A × Db} → from_workspace m db ≡ ok r → m db ≡ ok r
unfolding from_workspace
from_workspace-ok m db h = ground arith

-- BeginTx, the body, Commit, with the error that stands for a failure of either end.
unfoldable pub in_tx : {A : Type 0} → Env → Error → InvTx A → InvTx A
in_tx env e body = do guard env.begin_ok e; a ← body; guard env.commit_ok e; pure a

pub in_tx-ok :
    {A : Type 0} (env : Env) (e : Error) (body : InvTx A) (db : Db) {r : A × Db}
    → in_tx env e body db ≡ ok r
    → body db ≡ ok r
unfolding in_tx
in_tx-ok env e body db h = ground arith

-- The code of an error, or "provider_unavailable".
abbrev code_of : Error → String
code_of (failure code) = code
code_of _ = "provider_unavailable"

unfoldable pub failure_code : Error → String
failure_code e =
    let code = code_of e in
    if (code is "permission_denied") || (code is "provider_permission_denied")
    then "permission_denied"
    else if (code is "provider_rate_limited")
        || (code is "provider_response_invalid")
        || (code is "sync_limit_reached")
    then code
    else "provider_unavailable"
