-- ===== src/Connections/Rotated.antt =====
-- What Rotate of backend/internal/connection/rotate.go leaves behind.
use mathlib.Core.Option
use sama.Prelude.{ℕ, ◌+◌, true, false, Option, some, ◌∷◌, ◌≡◌, ok, err, ◌is◌}
use sama.Database.{Db, Connection, connection_of}
use sama.External.{External}
use sama.Connections.Errors.{version_changed, credential}
use sama.Connections.Lifecycle.{Preview, require_version, verified}

-- After a rotation: the connection uses the next version, whose credential is there beside all older
-- ones, and work that was reviewed under the old version is refused.
pub record IsRotated (scope id version envelope : ℕ) (a b : Db) : Type 0 where
  pub connection : Connection
  pub found : connection_of scope id a ≡ some connection
  pub next : version ≡ connection.credential + 1
  pub stored :
      b.credentials
      ≡ record {
        workspace = scope;
        connection = id;
        version = version;
        revoked = false;
        envelope = envelope;
      }
        ∷ a.credentials
  pub accepted :
      (connection.status is "active") ≡ true → require_version scope id version b ≡ ok (tt, b)
  pub outdated :
      (connection.status is "active") ≡ true
      → require_version scope id connection.credential b ≡ err version_changed

abbrev renewed : ℕ → Preview → Connection → Connection
renewed version p c = record c {
  credential = version;
  permissions_verified = true;
  capabilities = verified p.capabilities;
}
