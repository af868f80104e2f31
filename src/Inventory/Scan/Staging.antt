-- ===== src/Inventory/Scan/Staging.antt =====
-- A scan only stages: backend/internal/inventory/scan.go.
use sama.Prelude.{
  ◌||◌, if◌then◌else◌, ℕ, zero, suc, ◌+◌, ◌*◌, Bool, true, false, not, Option, List, [], ◌∷◌,
  String, ◌≡◌, refl, ap, ◌∙◌, arith, ok, bind-ok, guard-ok, pure-ok, ◌==◌, ◌is◌, Option-cases,
  Result-cases, Bool-cases, inl, inr, find, sym,
}
use sama.Database.{Db, Env}
use sama.External.{External}
use sama.Operation.Records.{Lease}
use sama.Inventory.Errors.{Error, scan, failure, in_tx-ok}
use sama.Inventory.Authority.{
  Binding, Observed, Page, guard_scan, restart, scan_authority, stage, stage_one, stage_all,
}
use sama.Inventory.Publish.Outcome.{scan_authority-db}
use sama.Inventory.Scan.{
  World, Progress, scan_page, scan_pages, scan_run, scan_all, scanned_run, exceeds_limits,
  next_progress, stage_page, first_page,
}

-- The published resources of two databases are the same.
abbrev SameResources : Db → Db → Type 0
SameResources a b = b.resources ≡ a.resources

stage_one-SameResources :
    (workspace connection : ℕ) (family : String) (run : ℕ) (o : Observed) (db : Db) {db' : Db}
    → stage_one workspace connection family run o db ≡ ok (tt, db')
    → SameResources db db'
unfolding stage_one
stage_one-SameResources workspace connection family run o db h =
    elim (Option-cases (find (λ s. s.id == run) db.sync_runs)) [
      | inl n ↦ ground (arith, n, h)
      | inr (s, e) ↦ ground (arith, e, h)
    ]

stage_all-SameResources :
    (random_ok : Bool) (workspace connection : ℕ) (family : String) (run : ℕ) (os : List Observed)
    (db : Db) {db' : Db}
    → stage_all random_ok workspace connection family run os db ≡ ok (tt, db')
    → SameResources db db'
unfolding stage_all
stage_all-SameResources random_ok w c family run [] db h = ground (arith, h)
stage_all-SameResources random_ok w c family run (o ∷ os) db h =
    let (_, h₁) = guard-ok (not (o.at == 0)) (failure "provider_response_invalid") _ db h in
    let (_, h₂) = guard-ok random_ok scan _ db h₁ in
    let (_, d, p, h₃) = bind-ok (stage_one w c family run o) _ db h₂ in
    stage_all-SameResources random_ok w c family run os d h₃
    ∙ stage_one-SameResources w c family run o db p

module _ (ext : External) (env : Env) (l : Lease) (run actor : ℕ) where
  guard_scan-SameResources :
      (version : ℕ) (starts : Bool) (db : Db) {b : Binding} {db' : Db}
      → guard_scan ext env l run actor version starts db ≡ ok (b, db')
      → SameResources db db'
  unfolding guard_scan restart
  guard_scan-SameResources version starts db {b = b} {db' = db'} h =
      let k = in_tx-ok env scan _ db h in
      let (b₁, d₁, p₁, h₁) = bind-ok (scan_authority ext env l run actor version) _ db k in
      let (_, h₂) = guard-ok (not starts || env.random_ok) scan _ d₁ h₁ in
      let e₁ : SameResources db d₁ =
        ap (λ (d : Db). d.resources) (scan_authority-db ext env l run actor version db p₁) in
      let restarted : (if starts then restart ext env l run b₁.version d₁ else d₁).resources
          ≡ d₁.resources =
        ground arith in
      let (_, g) =
        pure-ok b₁ b (if starts then restart ext env l run b₁.version d₁ else d₁) db' h₂ in
      ap (λ (d : Db). d.resources) (sym g) ∙ restarted ∙ e₁

  stage-SameResources :
      (b : Binding) (page : Page) (number : ℕ) (db : Db) {db' : Db}
      → stage ext env l run actor b page number db ≡ ok (tt, db')
      → SameResources db db'
  unfolding stage
  stage-SameResources b page number db {db' = db'} h =
      let k = in_tx-ok env scan _ db h in
      let (_, d₁, p₁, h₁) = bind-ok (scan_authority ext env l run actor b.version) _ db k in
      let e₁ : SameResources db d₁ =
        ap (λ (d : Db). d.resources) (scan_authority-db ext env l run actor b.version db p₁) in
      let (_, d₂, p₂, h₂) =
        bind-ok (stage_all env.random_ok l.workspace l.connection b.family run page.rows) _ d₁ h₁ in
      ground (arith, h₂)
      ∙ stage_all-SameResources env.random_ok l.workspace l.connection b.family run page.rows d₁ p₂
      ∙ e₁

module _ (ext : External) (env : Env) (l : Lease) (w : World) (run actor : ℕ) (b : Binding)
    (others : (n : ℕ) (db : Db) → SameResources db (w.between n db)) where
  stage_page-SameResources :
      (p : Progress) (rest : Progress → Db → Option Error × Db) (page : Page) (db : Db)
      → ((q : Progress) (d : Db) → SameResources d (rest q d).1)
      → SameResources db (stage_page ext env l w run actor b p rest page db).1
  unfolding stage_page
  stage_page-SameResources p rest page db later =
      let before : Db = w.between (2 * p.number + 1) db in
      let e₀ : SameResources db before = others (2 * p.number + 1) db in
      elim (Result-cases (stage ext env l run actor b page p.number before)) [
        | inr (x, e) ↦ rw (stage_page, e) e₀
        | inl (t, e) ↦
            let e₁ : SameResources db t.1 =
              stage-SameResources ext env l run actor b page p.number before e ∙ e₀ in
            rw (stage_page, e)
              (elim (Bool-cases (page.next is "")) [
                | inl f ↦ rw f e₁
                | inr f ↦ rw f (later (next_progress p page (w.size page.rows)) t.1 ∙ e₁)
              ])
      ]

  scan_page-SameResources :
      (p : Progress) (rest : Progress → Db → Option Error × Db) (db : Db)
      → ((q : Progress) (d : Db) → SameResources d (rest q d).1)
      → SameResources db (scan_page ext env l w run actor b p rest db).1
  unfolding scan_page
  scan_page-SameResources p rest db later =
      let before : Db = w.between (2 * p.number) db in
      let e₀ : SameResources db before = others (2 * p.number) db in
      elim (Result-cases (guard_scan ext env l run actor b.version false before)) [
        | inr (x, e) ↦ rw (scan_page, e) e₀
        | inl (r, e) ↦
            let e₁ : SameResources db r.1 =
              guard_scan-SameResources ext env l run actor b.version false before e ∙ e₀ in
            rw (scan_page, e)
              (elim (Result-cases (w.read p.number p.cursor)) [
                | inr (x, f) ↦ rw f e₁
                | inl (page, f) ↦
                    rw f (elim (Bool-cases (exceeds_limits p page (w.size page.rows))) [
                      | inl t ↦ rw t e₁
                      | inr t ↦ rw t (stage_page-SameResources p rest page r.1 later ∙ e₁)
                    ])
              ])
      ]

  scan_pages-SameResources :
      (left : ℕ) (p : Progress) (db : Db)
      → SameResources db (scan_pages ext env l w run actor b left p db).1
  unfolding scan_pages
  scan_pages-SameResources zero p db = refl
  scan_pages-SameResources (suc left) p db =
      scan_page-SameResources p (scan_pages ext env l w run actor b left) db
        (scan_pages-SameResources left)

module _ (ext : External) (env : Env) (l : Lease) (w : World) where
  scan_run-SameResources :
      (has_reader : Bool) (run actor : ℕ) (db : Db)
      → ((n : ℕ) (d : Db) → SameResources d (w.between n d))
      → SameResources db (scan_run ext env l w has_reader run actor db).1
  unfolding scan_run
  scan_run-SameResources has_reader run actor db others =
      elim (Result-cases (guard_scan ext env l run actor 0 true (w.between 0 db))) [
        | inr (x, e) ↦ rw (scan_run, e) (others 0 db)
        | inl (r, e) ↦
            let e₁ : SameResources db r.1 =
              guard_scan-SameResources ext env l run actor 0 true (w.between 0 db) e
              ∙ others 0 db in
            rw (scan_run, e)
              (elim (Bool-cases has_reader) [
                | inr f ↦ rw f e₁
                | inl f ↦ rw f (
                    scan_pages-SameResources ext env l w run actor r.0 others 100 first_page r.1
                    ∙ e₁)
              ])
      ]

  -- A scan only stages: whatever the provider answers, however it ends, and after any number of
  -- pages, the published resources are those from before, as long as nobody else changes them
  -- between its transactions.
  pub scan_all-SameResources :
      (has_reader : Bool) (db : Db)
      → ((n : ℕ) (d : Db) → (w.between n d).resources ≡ d.resources)
      → (scan_all ext env l w has_reader db).1.resources ≡ db.resources
  unfolding scan_all
  scan_all-SameResources has_reader db others = elim (Option-cases (scanned_run l db)) [
    | inl n ↦ rw (scan_all, n) refl
    | inr (s, e) ↦
        rw (scan_all, e)
          (elim (Option-cases s.actor) [
            | inl n ↦ rw (scan_all, n) refl
            | inr (actor, f) ↦ rw f (scan_run-SameResources has_reader s.id actor db others)
          ])
  ]
