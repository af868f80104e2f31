-- ===== src/Job/Fencing.antt =====
-- One claim of backend/internal/job/lease.go: what the claimant gets, what others lose, and how a job
-- ends.
use sama.Prelude.{
  ℕ, ◌+◌, ◌*◌, ◌≤◌, Bool, true, false, ◌&&◌, Option, some, List, [], ◌∷◌, ◌==◌, ok, any, update,
  count, ◌≡◌, ◌≢◌, refl, sym, ap, ◌∙◌, arith, Option-cases, inl, inr,
}
use sama.Database.{Job, JobState, second}
use sama.Operation.Records.{Lease, holds_lease}
use sama.Job.{Scheduler, is_due, candidate, start_lease, claim, complete, is_outcome, finish}

any-none :
    {A : Type 0} (p q : A → Bool) (xs : List A) → count p xs ≡ 0 → any (λ x. p x && q x) xs ≡ false
unfolding any count
any-none p q [] z = refl
any-none p q (x ∷ xs) z = ground (arith, any-none p q xs)

any-imp :
    {A : Type 0} (p q : A → Bool) (xs : List A)
    → ((x : A) → p x ≡ true → q x ≡ true)
    → any p xs ≡ true
    → any q xs ≡ true
unfolding any
any-imp p q [] h e = e
any-imp p q (x ∷ xs) h e = ground (arith, h x, any-imp p q xs h)

-- Where at most one row satisfies `p`, the rows found by `p` and `q` and by `p` and `r` are one.
any_unique :
    {A : Type 0} (p q r : A → Bool) (xs : List A)
    → count p xs ≤ 1
    → any (λ x. p x && q x) xs ≡ true
    → any (λ x. p x && r x) xs ≡ true
    → any (λ x. p x && q x && r x) xs ≡ true
unfolding any count
any_unique p q r [] u a b = ground arith
any_unique p q r (x ∷ xs) u a b =
    ground (arith, any_unique p q r xs, any-none p q xs, any-none p r xs)

any-false : {A : Type 0} (p : A → Bool) (xs : List A) → ((x : A) → p x ≡ false) → any p xs ≡ false
unfolding any
any-false p [] h = refl
any-false p (x ∷ xs) h = ground (arith, h x, any-false p xs h)

candidate-due :
    (s : Scheduler) (now : ℕ) (is_skipped : ℕ → Bool) (jobs : List Job) {j : Job}
    → candidate s now is_skipped jobs ≡ some j
    → (is_due s now j ≡ true) × (any (λ x. x.id == j.id && is_due s now x) jobs ≡ true)
unfolding candidate any
candidate-due s now is_skipped [] h = ground arith
candidate-due s now is_skipped (x ∷ xs) {j} h =
    elim (Option-cases (candidate s now is_skipped xs)) [
      | inl e ↦ ground arith
      | inr k ↦ ground (arith, candidate-due s now is_skipped xs {j = k.0} k.1)
    ]

-- The columns that a claimant relies on.
pub record IsClaimed (s : Scheduler) (now : ℕ) (l : Lease) (jobs jobs' : List Job) : Type 0 where
  pub was_due : any (λ x. x.id == l.id && is_due s now x) jobs ≡ true
  pub others_lost :
      (t : ℕ) (other : Lease)
      → other.id ≡ l.id
      → other.token ≢ l.token
      → any (holds_lease t other) jobs' ≡ false
  pub holds : any (holds_lease now l) jobs' ≡ true
  pub ends_soon : (t : ℕ) → now + 60 * second ≤ t → any (holds_lease t l) jobs' ≡ false

update-others :
    (t now i owner token : ℕ) (other : Lease) (jobs : List Job)
    → other.id ≡ i
    → other.token ≢ token
    → any (holds_lease t other) (update (λ x. x.id == i) (start_lease now owner token) jobs) ≡ false
unfolding any update holds_lease start_lease
update-others t now i owner token other [] e ne = refl
update-others t now i owner token other (x ∷ xs) e ne =
    ground (arith, update-others t now i owner token other xs e ne)

update-holds :
    (s : Scheduler) (now : ℕ) (l : Lease) (jobs : List Job)
    → any (λ x. x.id == l.id && is_due s now x) jobs ≡ true
    → any (holds_lease now l) (update (λ x. x.id == l.id) (start_lease now l.owner l.token) jobs)
      ≡ true
unfolding any update holds_lease start_lease is_due
update-holds s now l [] d = ground arith
update-holds s now l (x ∷ xs) d = ground (arith, update-holds s now l xs)

update-ends :
    (t now : ℕ) (l : Lease) (jobs : List Job)
    → now + 60 * second ≤ t
    → any (holds_lease t l) (update (λ x. x.id == l.id) (start_lease now l.owner l.token) jobs)
      ≡ false
unfolding any update holds_lease start_lease
update-ends t now l [] d = refl
update-ends t now l (x ∷ xs) d = ground (arith, update-ends t now l xs d)

-- A claim that succeeds takes a due job, whose lease the claimant then holds until at most 60 seconds
-- later; no lease of that job with another token holds from then on, whatever the time.
pub claim-IsClaimed :
    (s : Scheduler) (now owner : ℕ) (token : Option ℕ) (commits : Bool) (is_skipped : ℕ → Bool)
    (jobs : List Job) {l : Lease} {jobs' : List Job}
    → claim s now owner token commits is_skipped jobs ≡ ok (l, jobs')
    → IsClaimed s now l jobs jobs'
unfolding claim
claim-IsClaimed s now owner token commits is_skipped jobs {l} {jobs'} h =
    elim (Option-cases token) [
      | inl e ↦ absurd (ground arith)
      | inr t ↦ elim (Option-cases (candidate s now is_skipped jobs)) [
        | inl e ↦ absurd (ground arith)
        | inr c ↦
            let due = candidate-due s now is_skipped jobs {j = c.0} c.1 in
            let same : c.0.id ≡ l.id = ground arith in
            let after : jobs' ≡ update (λ x. x.id == l.id) (start_lease now l.owner l.token) jobs =
              ground arith in
            let was : any (λ x. x.id == l.id && is_due s now x) jobs ≡ true =
              ap (λ i. any (λ x. x.id == i && is_due s now x) jobs) (sym same) ∙ due.1 in
            record {
              was_due = was;
              others_lost = λ u other i ne.
                  ap (any (holds_lease u other)) after
                  ∙ update-others u now l.id l.owner l.token other jobs i ne;
              holds = ap (any (holds_lease now l)) after ∙ update-holds s now l jobs was;
              ends_soon =
                  λ u late. ap (any (holds_lease u l)) after ∙ update-ends u now l jobs late;
            }
      ]
    ]

-- Where each job id stands for one row: a job whose lease someone holds is not given to another
-- claimant.
pub claim-ne_held :
    (s : Scheduler) (now owner : ℕ) (token : Option ℕ) (commits : Bool) (is_skipped : ℕ → Bool)
    (jobs : List Job) (held : Lease) {l : Lease} {jobs' : List Job}
    → ((i : ℕ) → count (λ x. x.id == i) jobs ≤ 1)
    → any (holds_lease now held) jobs ≡ true
    → claim s now owner token commits is_skipped jobs ≡ ok (l, jobs')
    → l.id ≢ held.id
unfolding holds_lease is_due
claim-ne_held s now owner token commits is_skipped jobs held {l} {jobs'} unique h c same =
    let claimed = claim-IsClaimed s now owner token commits is_skipped jobs c in
    let due : any (λ x. x.id == held.id && is_due s now x) jobs ≡ true =
      ap (λ i. any (λ x. x.id == i && is_due s now x) jobs) (sym same) ∙ claimed.was_due in
    let row : any (λ x. x.id == held.id && holds_lease now held x) jobs ≡ true =
      any-imp (holds_lease now held) (λ x. x.id == held.id && holds_lease now held x) jobs
        (λ x t. ground arith) h in
    let both =
      any_unique (λ x. x.id == held.id) (is_due s now) (holds_lease now held) jobs (unique held.id)
        due row in
    let never =
      any-false (λ x. x.id == held.id && is_due s now x && holds_lease now held x) jobs
        (λ x. ground arith) in
    absurd (ground (arith, both, never))

finished-lapses :
    (now later clock : ℕ) (l : Lease) (state : JobState) (jobs : List Job)
    → now ≤ later
    → is_outcome state ≡ true
    → any (holds_lease later l) (update (holds_lease now l) (complete state clock) jobs) ≡ false
unfolding any update holds_lease
finished-lapses now later clock l state [] order o = refl
finished-lapses now later clock l state (x ∷ xs) order o =
    ground (arith, finished-lapses now later clock l state xs order o)

-- A job is finished once: the lease that finished it holds no longer, at that time or later.
pub finish-once :
    (now later clock : ℕ) (l : Lease) (state : JobState) (jobs : List Job) {jobs' : List Job}
    {u : Unit}
    → now ≤ later
    → finish now clock l state jobs ≡ ok (u, jobs')
    → any (holds_lease later l) jobs' ≡ false
unfolding finish
finish-once now later clock l state jobs order h =
    ground (arith, finished-lapses now later clock l state jobs order)
