-- ===== src/Connections/Errors.antt =====
-- The error values of backend/internal/connection and of the packages whose errors it passes on.
use sama.Prelude.{Tx, ok, err, ◌≡◌, arith}
use sama.Database.{Db}
use sama.Workspace.Errors.{WsTx, store}
use sama.Inventory.Errors.{InvTx}
use sama.Workspace.Errors as Workspace
use sama.Inventory.Errors as Inventory

-- `disabled` is ErrDisabled, `version_changed` ErrVersion, `credential` ErrCredential, `validation`
-- ErrValidation, `preview` any error of Preview where its
-- answer is an argument, `unsupported` ErrUnsupported, `limited` ErrValidationLimit.
pub data Error : Type 0 where
  of_workspace : Workspace.Error → Error
  of_inventory : Inventory.Error → Error
  disabled version_changed credential validation preview unsupported limited : Error

abbrev pub ConTx : Type 0 → Type 0
ConTx A = Tx Db Error A

unfoldable pub from_workspace : {A : Type 0} → WsTx A → ConTx A
from_workspace m db = elim (m db) [ ok r ↦ ok r | err e ↦ err (of_workspace e) ]

unfoldable pub from_inventory : {A : Type 0} → InvTx A → ConTx A
from_inventory m db = elim (m db) [ ok r ↦ ok r | err e ↦ err (of_inventory e) ]

pub from_workspace-ok :
    {A : Type 0} (m : WsTx A) (db : Db) {r : A × Db} → from_workspace m db ≡ ok r → m db ≡ ok r
unfolding from_workspace
from_workspace-ok m db h = ground arith
