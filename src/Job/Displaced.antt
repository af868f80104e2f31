-- ===== src/Job/Displaced.antt =====
-- A lease that was taken over stays lost: Claim, Renew and Finish of backend/internal/job/lease.go in
-- any order, with the jobs that are added and pruned between them.
use sama.Prelude.{
  ℕ, Bool, true, false, ◌&&◌, Option, none, List, [], ◌∷◌, ◌==◌, ok, err, any, update, delete, ◌≡◌,
  ◌≢◌, refl, arith, Option-cases, inl, inr, any-false_mono, ap, ◌∙◌,
}
use sama.Database.{Job, JobState}
use sama.Operation.Records.{Lease, holds_lease, equals}
use sama.Job.{Error, Scheduler, candidate, start_lease, claim, renew, extend, complete, finish}

-- The row of the lease still has its token.
abbrev pub bears : Lease → Job → Bool
bears l j = j.id == l.id && equals j.lease_token l.token

-- A step that does not issue the token of the lease `old` again.
pub data Step (old : Lease) (jobs : List Job) : List Job → Type 0 where
  claims :
      (s : Scheduler) (now owner : ℕ) (token : Option ℕ) (commits : Bool) (is_skipped : ℕ → Bool)
      {l : Lease} (jobs' : List Job)
      → claim s now owner token commits is_skipped jobs ≡ ok (l, jobs')
      → old.token ≢ l.token
      → Step old jobs jobs'
  renews :
      (now : ℕ) (l : Lease) {u : Unit} (jobs' : List Job)
      → renew now l jobs ≡ ok (u, jobs')
      → Step old jobs jobs'
  finishes :
      (now clock : ℕ) (l : Lease) (state : JobState) {u : Unit} (jobs' : List Job)
      → finish now clock l state jobs ≡ ok (u, jobs')
      → Step old jobs jobs'
  adds : (j : Job) → j.lease_token ≡ none → Step old jobs (j ∷ jobs)
  prunes : (p : Job → Bool) → Step old jobs (delete p jobs)

pub data Steps (old : Lease) (jobs : List Job) : List Job → Type 0 where
  start : Steps old jobs jobs
  andthen : {b c : List Job} → Steps old jobs b → Step old b c → Steps old jobs c

any-update-false :
    (p q : Job → Bool) (f : Job → Job) (xs : List Job)
    → ((x : Job) → q x ≡ true → p (f x) ≡ true → p x ≡ true)
    → any p xs ≡ false
    → any p (update q f xs) ≡ false
unfolding any update
any-update-false p q f [] h e = refl
any-update-false p q f (x ∷ xs) h e = ground (arith, h x, any-update-false p q f xs h)

any-delete-false :
    (p q : Job → Bool) (xs : List Job) → any p xs ≡ false → any p (delete q xs) ≡ false
unfolding any delete
any-delete-false p q [] e = refl
any-delete-false p q (x ∷ xs) e = ground (arith, any-delete-false p q xs)

-- The rows that a claim leaves.
claim-rows :
    (s : Scheduler) (now owner : ℕ) (token : Option ℕ) (commits : Bool) (is_skipped : ℕ → Bool)
    (jobs : List Job) {l : Lease} {jobs' : List Job}
    → claim s now owner token commits is_skipped jobs ≡ ok (l, jobs')
    → jobs' ≡ update (λ x. x.id == l.id) (start_lease now l.owner l.token) jobs
unfolding claim
claim-rows s now owner token commits is_skipped jobs {l} {jobs'} h = elim (Option-cases token) [
  | inl e ↦ absurd (ground (arith, e, h))
  | inr (t, e) ↦ elim (Option-cases (candidate s now is_skipped jobs)) [
    | inl n ↦ absurd (ground (arith, e, n, h))
    | inr (j, c) ↦ ground (arith, e, c, h)
  ]
]

displaces :
    (old : Lease) (now i owner token : ℕ) (jobs : List Job)
    → old.id ≡ i
    → old.token ≢ token
    → any (bears old) (update (λ x. x.id == i) (start_lease now owner token) jobs) ≡ false
unfolding any update start_lease
displaces old now i owner token [] e ne = refl
displaces old now i owner token (x ∷ xs) e ne =
    ground (arith, displaces old now i owner token xs e ne)

Step-displaced :
    {old : Lease} {a b : List Job}
    → Step old a b
    → any (bears old) a ≡ false
    → any (bears old) b ≡ false
unfolding renew finish
Step-displaced {old} {a} (claims s now owner token commits is_skipped {l} b h ne) e =
    ap (any (bears old)) (claim-rows s now owner token commits is_skipped a h)
    ∙ any-update-false (bears old) (λ x. x.id == l.id) (start_lease now l.owner l.token) a
        (λ x q p. unfold start_lease in ground (arith, p, ne)) e
Step-displaced {old} {a} (renews now l b h) e =
    let rows : b ≡ update (holds_lease now l) (extend now) a = ground (arith, h) in
    ap (any (bears old)) rows
    ∙ any-update-false (bears old) (holds_lease now l) (extend now) a
        (λ x q p. unfold extend in ground (arith, p)) e
Step-displaced {old} {a} (finishes now clock l state b h) e =
    let rows : b ≡ update (holds_lease now l) (complete state clock) a = ground (arith, h) in
    ap (any (bears old)) rows
    ∙ any-update-false (bears old) (holds_lease now l) (complete state clock) a
        (λ x q p. ground (arith, p)) e
Step-displaced {old} {a} (adds j free) e = unfold any in ground (arith, free, e)
Step-displaced {old} {a} (prunes p) e = any-delete-false (bears old) p a e

Steps-displaced :
    {old : Lease} {a b : List Job}
    → Steps old a b
    → any (bears old) a ≡ false
    → any (bears old) b ≡ false
Steps-displaced start e = e
Steps-displaced (andthen r s) e = Step-displaced s (Steps-displaced r e)

not_held :
    (now : ℕ) (old : Lease) (jobs : List Job)
    → any (bears old) jobs ≡ false
    → any (holds_lease now old) jobs ≡ false
unfolding holds_lease
not_held now old jobs e =
    any-false_mono (bears old) (holds_lease now old) jobs (λ j h. ground (arith, h)) e

-- When a claim takes over a job, whoever had its lease under another token is fenced out for good:
-- after any sequence of claims, renewals, completions, additions and deletions of jobs in which that
-- token is not issued again, it can neither renew nor finish, at any time.
pub claim-fences :
    (s : Scheduler) (now owner : ℕ) (token : Option ℕ) (commits : Bool) (is_skipped : ℕ → Bool)
    (jobs : List Job) (old : Lease) (later clock : ℕ) (state : JobState) {l : Lease}
    {jobs' jobs'' : List Job}
    → claim s now owner token commits is_skipped jobs ≡ ok (l, jobs')
    → old.id ≡ l.id
    → old.token ≢ l.token
    → Steps old jobs' jobs''
    → (renew later old jobs'' ≡ err Error.unavailable)
      × (finish later clock old state jobs'' ≡ err Error.unavailable)
unfolding renew finish
claim-fences s now owner token commits is_skipped jobs old later clock state {l} {jobs'} {jobs''} h
      same ne steps =
    let taken : any (bears old) jobs' ≡ false =
      ap (any (bears old)) (claim-rows s now owner token commits is_skipped jobs h)
      ∙ displaces old now l.id l.owner l.token jobs same ne in
    let lost = not_held later old jobs'' (Steps-displaced steps taken) in
    (ground (arith, lost), ground (arith, lost))
