-- ===== src/Examples/Limits.antt =====
-- Witnesses for the limit on validations and for previews.
use sama.Prelude.{ok, some, false, codes, ◌≡◌, String, ℕ, ◌≤◌, [], ◌∷◌, arith, refl, true}
use sama.Connections.Lifecycle.{Preview}
use sama.Connections.Preview.{
  Secrets, preview, preview-judge, manages, validate, contains_secret, safe_account,
}
use sama.Examples.{before}
use sama.Connections.Validation.{permit, trim, admit}
use sama.Connections.Validation.Limit.{recorded}
use sama.Connections.Validation.Rate.{
  Service, Steps, begin, andthen, call, IsLimited, passed_within, Steps-passed_within,
}

abbrev fresh : Service
fresh = record { windows = []; passed = []; clock = 0 }

fresh-IsLimited : IsLimited fresh
unfolding recorded passed_within sama.Prelude.count
fresh-IsLimited = record {
  unique = λ a. omega arith;
  few = λ n a. omega arith;
  known = λ n a le. omega arith;
}

abbrev used : Service
used = record {
  windows = record { actor = 2; times = 1000 ∷ [] } ∷ [];
  passed = (2, 1000) ∷ [];
  clock = 1000;
}

runs_here : Steps fresh used
unfolding permit trim admit sama.Prelude.find
runs_here = andthen begin (call 1000 2 (omega arith))

Steps-passed_within_example : passed_within 1500 2 used.passed ≤ 5
Steps-passed_within_example = Steps-passed_within 2 1500 fresh-IsLimited runs_here (omega arith)

abbrev secrets : Secrets
secrets = record {
  kind = "bearer_v1";
  token = "secret";
  client_id = "";
  client_secret = "";
  username = "";
  password = "";
  customer_number = "";
  api_key = "";
  api_password = "";
}

abbrev shown : Preview
shown = record { account = "acct-1"; capabilities = ("compute.server.read", true) ∷ [] }

previews_here :
    preview true 2 1 secrets (some (some ("acct-1", "compute.server.read" ∷ []))) 1000 before []
    ≡ (ok shown, record { actor = 2; times = 1000 ∷ [] } ∷ [])
unfolding preview sama.Database.active_membership sama.Prelude.find sama.Database.open_workspace
    sama.Workspace.Role.allows
previews_here = refl

preview-judge_example :
    (manages 2 1 before ≡ true)
    × (validate secrets ≡ true)
    × ((permit 1000 2 []).0 ≡ true)
    × (contains_secret secrets "acct-1" ≡ false)
    × (safe_account (codes "acct-1") ≡ true)
preview-judge_example =
    preview-judge true 2 1 secrets (some (some ("acct-1", "compute.server.read" ∷ []))) 1000 before
      [] previews_here
