-- ===== src/Identity/Recent.antt =====
-- Recent authentication: RequireRecent and recentAt of backend/internal/identity/recent.go, and
-- Principal of sessions.go. The zero time is 0.
use sama.Prelude.{ℕ, ◌-◌, ◌*◌, Bool, ◌&&◌, not, ltb, leb, ◌==◌}
use sama.Database.{minute}

pub record Principal : Type 0 where
  pub user : ℕ
  pub authenticated_at : ℕ
  pub csrf : ℕ  -- CSRFHash
  pub reauthenticated : Bool

unfoldable pub recent_at : ℕ → ℕ → Bool
recent_at at now = not (at == 0) && leb at now && ltb (now - at) (5 * minute)

unfoldable pub is_recent : Principal → ℕ → Bool
unfolding recent_at
is_recent p now = p.reauthenticated && recent_at p.authenticated_at now
