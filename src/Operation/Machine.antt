-- ===== src/Operation/Machine.antt =====
-- backend/internal/operation/state.go: the transitions of an operation.
use sama.Prelude.{Bool, true, false, ◌||◌, ◌≡◌, ◌≢◌, ◌↔◌, arith}
use sama.Database.{
  State, queued, dispatching, waiting_provider, reconciling, unknown, succeeded, failed, cancelled,
}

abbrev pub is_state : State → State → Bool
is_state queued queued = true
is_state dispatching dispatching = true
is_state waiting_provider waiting_provider = true
is_state reconciling reconciling = true
is_state unknown unknown = true
is_state succeeded succeeded = true
is_state failed failed = true
is_state cancelled cancelled = true
is_state _ _ = false

pub State-discrete : Discrete State
State-discrete = hlevel

pub is_state_iff : (a b : State) → (is_state a b ≡ true) ↔ (a ≡ b)
is_state_iff queued b = ground arith
is_state_iff _ b = ground arith

unfoldable pub allowed : State → State → Bool
allowed queued to = is_state to dispatching || is_state to cancelled || is_state to failed
allowed dispatching to =
    is_state to waiting_provider
    || is_state to reconciling
    || is_state to succeeded
    || is_state to failed
allowed waiting_provider to =
    is_state to waiting_provider
    || is_state to reconciling
    || is_state to succeeded
    || is_state to failed
allowed reconciling to =
    is_state to waiting_provider
    || is_state to reconciling
    || is_state to succeeded
    || is_state to failed
    || is_state to unknown
allowed unknown to = is_state to reconciling
allowed _ to = false

-- The tests `to == "succeeded" || to == "failed" || to == "cancelled"`.
abbrev pub is_terminal : State → Bool
is_terminal succeeded = true
is_terminal failed = true
is_terminal cancelled = true
is_terminal _ = false

-- No transition leads into `queued`.
pub allowed-ne-queued : (a b : State) → allowed a b ≡ true → b ≢ queued
unfolding allowed
allowed-ne-queued a b h e = ground arith

pub allowed-ne-terminal : (a b : State) → allowed a b ≡ true → is_terminal a ≡ false
unfolding allowed
allowed-ne-terminal a b h = ground arith

-- Only `queued` leads into `dispatching`.
pub allowed-dispatching : (a : State) → allowed a dispatching ≡ true → a ≡ queued
unfolding allowed
allowed-dispatching a h = ground arith
