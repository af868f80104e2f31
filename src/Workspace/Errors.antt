-- ===== src/Workspace/Errors.antt =====
-- The error values of backend/internal/workspace, and the frame of a transaction.
use sama.Prelude.{◌≡◌, arith, ok, Tx, guard, ◌>>=◌, ◌>>◌, pure}
use sama.Database.{Db, Env}

pub data Error : Type 0 where
  not_found denied conflict invalid limit store : Error

abbrev pub WsTx : Type 0 → Type 0
WsTx A = Tx Db Error A

-- BeginTx, the body, Commit: an error of the body, or of either end, rolls back.
unfoldable pub in_tx : {A : Type 0} → Env → WsTx A → WsTx A
in_tx env body = do guard env.begin_ok store; a ← body; guard env.commit_ok store; pure a

pub in_tx-ok :
    {A : Type 0} (env : Env) (body : WsTx A) (db : Db) {r : A × Db}
    → in_tx env body db ≡ ok r
    → body db ≡ ok r
unfolding in_tx
in_tx-ok env body db h = ground arith
