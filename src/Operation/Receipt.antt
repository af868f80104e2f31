-- ===== src/Operation/Receipt.antt =====
-- The classification of a provider's receipt: backend/internal/operation/receipt.go.
use sama.Prelude.{
  ℕ, Bool, true, false, ◌&&◌, ◌||◌, not, Option, none, some, List, [], ◌∷◌, String, ◌≡◌, refl,
  arith, leb, ◌==◌, ◌is◌, if◌then◌else◌, length, codes, is_alnum, all_in, is-ne,
}
use sama.Database.{State, waiting_provider, reconciling, failed}
use sama.Operation.Intent.{snapshot_action, is_key_char}

pub record Receipt : Type 0 where
  pub outcome : String
  pub reference : String

-- ^[A-Za-z0-9][A-Za-z0-9._:-]{0,127}$
unfoldable pub reference_chars : List ℕ → Bool
unfolding is_alnum all_in is_key_char
reference_chars [] = false
reference_chars (c ∷ cs) = is_alnum c && all_in is_key_char cs && leb (length cs) 127

unfoldable pub native_reference : String → Bool
unfolding reference_chars
native_reference s = reference_chars (codes s)

abbrev cons_first : ℕ → List (List ℕ) → List (List ℕ)
cons_first c [] = (c ∷ []) ∷ []
cons_first c (part ∷ parts) = (c ∷ part) ∷ parts

-- The parts between slashes.
unfoldable pub split_slashes : List ℕ → List (List ℕ)
split_slashes [] = [] ∷ []
split_slashes (c ∷ cs) =
    let parts = split_slashes cs in if c == b'/' then [] ∷ parts else cons_first c parts

unfoldable pub all_references : List (List ℕ) → Bool
unfolding reference_chars
all_references [] = true
all_references (part ∷ parts) = reference_chars part && all_references parts

-- One to three native references joined by slashes.
unfoldable pub snapshot_reference : String → Bool
unfolding all_references split_slashes
snapshot_reference s =
    let parts = split_slashes (codes s) in leb (length parts) 3 && all_references parts

-- `submitted` is false where the submission returned an error.
unfoldable pub classify_receipt : Receipt → Bool → State × Option String
classify_receipt r submitted =
    if not submitted
    then (reconciling, none)
    else if (r.outcome is "rejected") && (r.reference is "")
    then (failed, none)
    else if (r.outcome is "accepted") && native_reference r.reference
    then (waiting_provider, some r.reference)
    else (reconciling, none)

unfoldable pub classify_action_receipt : String → Receipt → Bool → State × Option String
unfolding classify_receipt snapshot_action
classify_action_receipt action r submitted =
    if snapshot_action action
      && submitted
      && (r.outcome is "accepted")
      && snapshot_reference r.reference
    then (waiting_provider, some r.reference)
    else classify_receipt r submitted

-- A reference that the action's pattern admits.
unfoldable pub admits_reference : String → String → Bool
admits_reference action reference =
    native_reference reference || snapshot_action action && snapshot_reference reference

-- The classification is exact: a receipt fails an operation only on a definite rejection without a
-- reference; it waits for the provider, and stores the reference, exactly when the submission
-- returned an accepted receipt whose reference the action's pattern admits; everything else, an
-- error of the submission included, is reconciled.
pub classify_action_receipt_exact :
    (action : String) (r : Receipt) (submitted : Bool)
    → classify_action_receipt action r submitted ≡ (
        if submitted && (r.outcome is "accepted") && admits_reference action r.reference
        then (waiting_provider, some r.reference)
        else if submitted && (r.outcome is "rejected") && (r.reference is "")
        then (failed, none)
        else (reconciling, none))
unfolding classify_action_receipt admits_reference
classify_action_receipt_exact action r submitted =
    ground (arith, is-ne r.outcome "accepted" "rejected" refl)
