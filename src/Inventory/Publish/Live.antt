-- ===== src/Inventory/Publish/Live.antt =====
-- Which resources are live after a publication: backend/internal/inventory/publish.go.
use sama.Prelude.{
  ℕ, Bool, true, false, ◌&&◌, ◌||◌, not, List, [], ◌∷◌, String, ◌≡◌, ◌∙◌, sym, arith, ◌==◌, ◌is◌,
  any, is_iff, Bool-cases, any-update_cleared, any-update_keep, any-update_turn, any_mono,
  any-select_and, select-All, select, All, inl, inr,
}
use sama.Database.{Db, Resource, SyncRun}
use sama.Inventory.Authority.{is_staged_of}
use sama.Inventory.Publish.{
  has_key, observe_again, put_resource, put_all, is_staged, is_missing, is_named, bury, published,
  is_old,
}

is_trans : (a b c : String) → (a is b) ≡ true → (b is c) ≡ true → (a is c) ≡ true
is_trans a b c p q = (is_iff a c).1 ((is_iff a b).0 p ∙ (is_iff b c).0 q)

is_sym : (a b : String) → (a is b) ≡ true → (b is a) ≡ true
is_sym a b p = (is_iff b a).1 (sym ((is_iff a b).0 p))

has_key_trans : (k j r : Resource) → has_key k j ≡ true → has_key j r ≡ true → has_key k r ≡ true
has_key_trans k j r p q =
    let f = is_trans k.family j.family r.family (ground (arith, p)) (ground (arith, q)) in
    let t = is_trans k.kind j.kind r.kind (ground (arith, p)) (ground (arith, q)) in
    let s = is_trans k.scope j.scope r.scope (ground (arith, p)) (ground (arith, q)) in
    let n = is_trans k.native j.native r.native (ground (arith, p)) (ground (arith, q)) in
    ground (arith, p, q, f, t, s, n)

-- The row of the key `k` is live with the generation, or was observed under a newer run.
abbrev pub is_kept : ℕ → (Resource → Bool) → Resource → Resource → Bool
is_kept generation is_older k r =
    has_key k r && (not r.tombstoned && r.generation == generation || not (is_older r))

module _ (generation : ℕ) (is_older : Resource → Bool) (k : Resource) where
  observe_again-is_kept :
      (j r : Resource)
      → (j.generation == generation) ≡ true
      → has_key k r ≡ true
      → is_kept generation is_older k (observe_again j r) ≡ true
  observe_again-is_kept j r g h = ground (arith, g, h)

  put_resource-keeps :
      (j : Resource) (rs : List Resource)
      → (j.generation == generation) ≡ true
      → any (is_kept generation is_older k) rs ≡ true
      → any (is_kept generation is_older k) (put_resource is_older j rs) ≡ true
  unfolding put_resource any
  put_resource-keeps j rs g h =
      let kept =
        any-update_keep (λ r. has_key j r && is_older r) (is_kept generation is_older k)
          (observe_again j) rs (λ r p q. observe_again-is_kept j r g (ground (arith, q))) h in
      ground (arith, kept, h)

  put_resource-puts :
      (j : Resource) (rs : List Resource)
      → (j.generation == generation) ≡ true
      → has_key k j ≡ true
      → any (is_kept generation is_older k) (put_resource is_older j rs) ≡ true
  unfolding put_resource any
  put_resource-puts j rs g h = elim (Bool-cases (any (has_key j) rs)) [
    | inr n ↦ ground (arith, n, g, h)
    | inl e ↦
        let turned =
          any-update_turn (has_key j) (λ r. has_key j r && is_older r)
            (is_kept generation is_older k) (observe_again j) rs
            (λ r p t. observe_again-is_kept j r g (has_key_trans k j r h p))
            (λ r p t. let kr = has_key_trans k j r h p in ground (arith, p, t, kr)) e in
        ground (arith, e, turned)
  ]

  put_all-puts :
      (workspace connection : ℕ) (news rs : List Resource)
      → All (λ j. is_staged workspace connection generation j ≡ true) news
      → any (has_key k) news ≡ true
      → any (is_kept generation is_older k) (put_all is_older news rs) ≡ true
  unfolding put_all any
  put_all-puts w c [] rs all h = absurd (ground (arith, h))
  put_all-puts w c (j ∷ news) rs all h = elim (Bool-cases (has_key k j)) [
    | inl e ↦ put_resource-puts j (put_all is_older news rs) (ground (arith, all)) e
    | inr n ↦
        put_resource-keeps j (put_all is_older news rs) (ground (arith, all))
          (put_all-puts w c news rs all.1 (ground (arith, n, h)))
  ]

module _ (workspace connection : ℕ) (family : String) (run : SyncRun) (db : Db) where
  -- A staged row of the key keeps its resource from being tombstoned.
  named :
      (k r : Resource)
      → any (λ j. is_staged workspace connection run.generation j && has_key k j) db.staging ≡ true
      → has_key k r ≡ true
      → is_named run.generation r db.staging ≡ true
  named k r staged h =
      any_mono (λ j. is_staged workspace connection run.generation j && has_key k j)
        (is_staged_of r.workspace r.connection run.generation r.native) db.staging
        (λ j p.
          let n =
            is_trans j.native k.native r.native (is_sym k.native j.native (ground (arith, p)))
              (ground (arith, h)) in
          ground (arith, p, h, n))
        staged

  -- Every key that the generation staged has a resource that is live with this generation, unless
  -- its resource was observed under a newer run.
  pub published-is_kept :
      (k : Resource)
      → any (λ j. is_staged workspace connection run.generation j && has_key k j) db.staging ≡ true
      → any
          (is_kept run.generation (is_old run.number db.sync_runs) k)
          (published workspace connection family run db)
        ≡ true
  unfolding published
  published-is_kept k staged =
      let older = is_old run.number db.sync_runs in
      let news = select (is_staged workspace connection run.generation) db.staging in
      let put =
        put_all-puts run.generation older k workspace connection news db.resources
          (select-All (is_staged workspace connection run.generation) db.staging)
          (any-select_and (has_key k) (is_staged workspace connection run.generation) db.staging
            staged) in
      any-update_keep (is_missing workspace connection family run older db.staging)
        (is_kept run.generation older k) bury (put_all older news db.resources)
        (λ r p q. let n = named k r staged (ground (arith, q)) in absurd (ground (arith, p, n))) put

  -- No live resource of the scope is missing from the staging, unless it was observed under a newer
  -- run.
  pub published-is_missing :
      any
        (is_missing workspace connection family run (is_old run.number db.sync_runs) db.staging)
        (published workspace connection family run db)
      ≡ false
  unfolding published
  published-is_missing =
      let older = is_old run.number db.sync_runs in
      any-update_cleared (is_missing workspace connection family run older db.staging) bury
        (put_all older (select (is_staged workspace connection run.generation) db.staging)
          db.resources)
        (λ r p. ground arith)
