-- ===== src/Operation/Errors.antt =====
-- The error values of backend/internal/operation and of the packages whose errors it passes on, and
-- the frame of a transaction.
use sama.Prelude.{◌≡◌, arith, raise, none, some, Tx, guard, ◌>>=◌, ◌>>◌, pure, Option, ok}
use sama.Database.{Db, Env}

-- `invalid` to `recovery` are the package's own; `not_found` is workspace.ErrNotFound, `lease` is
-- job.ErrLease, `recent_required` is identity.ErrRecentRequired.
pub data Error : Type 0 where
  invalid store conflict stale denied bad_state busy quota unsupported provider recovery : Error
  not_found lease recent_required interrupted : Error

abbrev pub OpTx : Type 0 → Type 0
OpTx A = Tx Db Error A

-- Ends with the error, if there is one.
abbrev pub pass : Option Error → OpTx Unit
pass none = pure tt
pass (some e) = raise e

-- BeginTx, the body, Commit: an error of the body, or of either end, rolls back.
unfoldable pub in_tx : {A : Type 0} → Env → OpTx A → OpTx A
in_tx env body = do guard env.begin_ok store; a ← body; guard env.commit_ok store; pure a

pub pass-ok :
    (e : Option Error) (db : Db) {a : Unit} {db' : Db}
    → pass e db ≡ ok (a, db')
    → (e ≡ none) × (db' ≡ db)
pass-ok none db h = ground arith
pass-ok (some e) db h = cc

-- What commits is what the body returned.
pub in_tx-inner :
    {A : Type 0} (env : Env) (m : OpTx A) (db : Db) {r : A × Db}
    → in_tx env m db ≡ ok r
    → m db ≡ ok r
unfolding in_tx
in_tx-inner env m db h = ground arith
