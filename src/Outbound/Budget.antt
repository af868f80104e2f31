-- ===== src/Outbound/Budget.antt =====
-- The call budget of backend/internal/platform/outbound/budget.go. Each critical section of its mutex
-- is one function: what acquire does before its loop (enter), one turn of the loop (attempt), the
-- function that acquire returns (release) and postpone. A map is a table with one row for a key that is
-- present; a goroutine's pointer into the map is the row of its key, which stays while it counts in refs.
use Prim.Native.String.{len}
use sama.Prelude.{
  ℕ, ◌+◌, ◌-◌, Bool, true, false, ◌&&◌, ◌||◌, not, Option, none, some, List, [], ◌∷◌, String, ltb,
  leb, ◌==◌, ◌is◌, if◌then◌else◌, is_some, find, any, update, delete, lookup, update_at, length,
}
use sama.External.{External}

pub record Slots : Type 0 where
  pub connection : ℕ
  pub active : ℕ
  pub refs : ℕ

pub record Quota : Type 0 where
  pub scope : String
  pub until : ℕ
  pub refs : ℕ

pub record Budget : Type 0 where
  pub connections : List Slots
  pub cooldowns : List Quota

abbrev pub new_budget : Budget
new_budget = record { connections = []; cooldowns = [] }

abbrev pub connection_key : Slots → ℕ
connection_key s = s.connection

abbrev pub slots_of : ℕ → Budget → Option Slots
slots_of c b = lookup connection_key c b.connections

abbrev pub active_of : Option Slots → ℕ
active_of none = 0
active_of (some s) = s.active

abbrev pub refs_of : Option Slots → ℕ
refs_of none = 0
refs_of (some s) = s.refs

abbrev pub is_scope : String → Quota → Bool
is_scope scope q = q.scope is scope

-- The zero time lies before every `now`.
abbrev pub until_of : Option Quota → ℕ
until_of none = 0
until_of (some q) = q.until

abbrev pub is_idle : ℕ → Quota → Bool
is_idle now q = q.refs == 0 && leb q.until now

abbrev pub max_entries : ℕ
max_entries = 1000

abbrev pub add_slots_ref : Slots → Slots
add_slots_ref s = record s { refs = s.refs + 1 }

abbrev pub add_quota_ref : Quota → Quota
add_quota_ref q = record q { refs = q.refs + 1 }

abbrev pub with_slots : ℕ → List Slots → List Slots
with_slots c xs =
    if is_some (lookup connection_key c xs)
    then xs
    else record { connection = c; active = 0; refs = 0 } ∷ xs

abbrev pub with_quota : String → List Quota → List Quota
with_quota scope xs =
    if any (is_scope scope) xs then xs else record { scope = scope; until = 0; refs = 0 } ∷ xs

-- acquire before its loop: whether the caller enters it, and the budget.
unfoldable pub enter : External → ℕ → String → ℕ → Budget → Bool × Budget
enter ext c scope now b =
    let cooldowns = delete (is_idle now) b.cooldowns in
    if not (ext.uuid_version c == 7) || (scope is "") || ltb 512 (len scope)
    then (false, b)
    else if not (any (is_scope scope) cooldowns) && leb max_entries (length cooldowns)
    then (false, record b { cooldowns = cooldowns })
    else if not (is_some (slots_of c b)) && leb max_entries (length b.connections)
    then (false, record b { cooldowns = cooldowns })
    else (
      true,
      record {
        connections = update_at connection_key c add_slots_ref (with_slots c b.connections);
        cooldowns = update (is_scope scope) add_quota_ref (with_quota scope cooldowns);
      },
    )

abbrev pub drop_slots_ref : Slots → Slots
drop_slots_ref s = record s { refs = s.refs - 1 }

abbrev pub drop_quota_ref : Quota → Quota
drop_quota_ref q = record q { refs = q.refs - 1 }

-- slots.refs--, quota.refs-- and the removal of rows that no one counts in.
unfoldable pub leave : ℕ → String → ℕ → Budget → Budget
leave c scope now b =
    let connections = update_at connection_key c drop_slots_ref b.connections in
    let cooldowns = update (is_scope scope) drop_quota_ref b.cooldowns in
    record {
      connections =
          if refs_of (lookup connection_key c connections) == 0
          then delete (λ s. s.connection == c) connections
          else connections;
      cooldowns = delete (λ q. is_scope scope q && is_idle now q) cooldowns;
    }

pub data Turn : Type 0 where
  given_up admitted waits : Turn

abbrev pub take_slot : Slots → Slots
take_slot s = record s { active = s.active + 1 }

abbrev pub free_slot : Slots → Slots
free_slot s = record s { active = s.active - 1 }

-- One turn of the loop; `cancelled` is whether the context has ended.
unfoldable pub attempt : ℕ → String → ℕ → Bool → Budget → Turn × Budget
unfolding leave
attempt c scope now cancelled b =
    if cancelled
    then (given_up, leave c scope now b)
    else if ltb (active_of (slots_of c b)) 2
        && leb (until_of (find (is_scope scope) b.cooldowns)) now
    then (admitted, record b { connections = update_at connection_key c take_slot b.connections })
    else (waits, b)

-- The function that acquire returns, which runs once.
unfoldable pub release : ℕ → String → ℕ → Budget → Budget
unfolding leave
release c scope now b =
    leave c scope now
      (record b { connections = update_at connection_key c free_slot b.connections })

abbrev pub delay_until : ℕ → Quota → Quota
delay_until t q = record q { until = if ltb q.until t then t else q.until }

unfoldable pub postpone : String → ℕ → ℕ → Budget → Budget
postpone scope delay now b = record b {
  cooldowns = update (is_scope scope) (delay_until (now + delay)) b.cooldowns;
}
