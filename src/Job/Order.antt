-- ===== src/Job/Order.antt =====
-- Which job Claim of backend/internal/job/lease.go takes.
use sama.Prelude.{ℕ, Bool, true, false, ◌&&◌, not, Option, none, some, List, ok, any, ◌≡◌}
use sama.Database.{Job}
use sama.Operation.Records.{Lease}
use sama.Job.{Scheduler, is_due, comes_first, claim}
use sama.Job.Fencing.{IsClaimed}

-- A due job whose row no other transaction has locked.
abbrev pub is_open : Scheduler → ℕ → (ℕ → Bool) → Job → Bool
is_open s now is_skipped x = is_due s now x && not (is_skipped x.id)

-- No Maintenance function, or one that succeeds.
abbrev pub is_maintained : Option Bool → Bool
is_maintained none = true
is_maintained (some b) = b

-- A claim that was served: with the first open job.
pub record IsServed (s : Scheduler) (now owner token : ℕ) (is_skipped : ℕ → Bool) (jobs : List Job)
    : Type 0 where
  pub lease : Lease
  pub after : List Job
  pub first : Job
  pub answer : claim s now owner (some token) true is_skipped jobs ≡ ok (lease, after)
  pub claimed : IsClaimed s now lease jobs after
  pub job : lease.id ≡ first.id
  pub ready : is_open s now is_skipped first ≡ true
  pub least : any (λ x. is_open s now is_skipped x && not (comes_first first x)) jobs ≡ false
