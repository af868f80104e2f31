-- ===== src/Inventory/Scan.antt =====
-- The loop of a scan: Scan of backend/internal/inventory/scan.go and Execute of publish.go. Each
-- page has two transactions with a request to the provider between them. The timeout and the renewal
-- of the lease around the loop are left out.
pub mod Staging
use Prim.Native.String.{len}
use sama.Prelude.{
  ℕ, zero, suc, ◌+◌, ◌*◌, Bool, true, false, ◌&&◌, ◌||◌, not, Option, none, some, List, [], ◌∷◌,
  String, ltb, ◌==◌, ◌is◌, contains, length, Result, ok, err, find, any,
}
use sama.Database.{Db, Env, Job, SyncRun}
use sama.External.{External}
use sama.Operation.Records.{Lease, equals}
use sama.Inventory.Errors.{Error, scan, failure, failure_code}
use sama.Inventory.Authority.{Binding, Observed, Page, guard_scan, stage}
use sama.Inventory.Publish.{complete}

abbrev pub mebibyte : ℕ
mebibyte = 1048576

-- What a scan meets: the answers of the page reader by page and cursor, the length of the JSON of
-- the observations (none where json.Marshal fails), and what other sessions commit before the n-th
-- transaction.
pub record World : Type 0 where
  pub read : ℕ → String → Result Error Page
  pub size : List Observed → Option ℕ
  pub between : ℕ → Db → Db

-- The variables of the loop.
pub record Progress : Type 0 where
  pub number : ℕ
  pub cursor : String
  pub count : ℕ
  pub bytes : ℕ
  pub seen : List String

-- The limits on one page and on the whole scan; `encoded` is the length of the page.
unfoldable pub exceeds_limits : Progress → Page → Option ℕ → Bool
exceeds_limits p page none = true
exceeds_limits p page (some encoded) =
    ltb (8 * mebibyte) encoded
    || ltb (32 * mebibyte) (p.bytes + encoded)
    || ltb 10000 (p.count + length page.rows)
    || ltb 200 (length page.rows)
    || ltb 512 (len page.next)
    || not (page.next is "") && contains p.seen page.next

abbrev or_zero : Option ℕ → ℕ
or_zero none = 0
or_zero (some n) = n

abbrev pub next_progress : Progress → Page → Option ℕ → Progress
next_progress p page encoded = record {
  number = p.number + 1;
  cursor = page.next;
  count = p.count + length page.rows;
  bytes = p.bytes + or_zero encoded;
  seen = page.next ∷ p.seen;
}

abbrev pub limit_reached : Error
limit_reached = failure "sync_limit_reached"

module _ (ext : External) (env : Env) (l : Lease) (w : World) (run actor : ℕ) (b : Binding) where
  -- The end of a turn of the loop, from the staging of the page on; `rest` is what the later turns
  -- do.
  unfoldable pub stage_page :
      Progress → (Progress → Db → Option Error × Db) → Page → Db → Option Error × Db
  unfolding stage
  stage_page p rest page db =
      let before = w.between (2 * p.number + 1) db in
      elim (stage ext env l run actor b page p.number before) [
        | err e ↦ (some e, before)
        | ok t ↦ elim (page.next is "") [
          | true ↦ (none, t.1)
          | false ↦ rest (next_progress p page (w.size page.rows)) t.1
        ]
      ]

  -- One turn of the loop.
  unfoldable pub scan_page : Progress → (Progress → Db → Option Error × Db) → Db → Option Error × Db
  unfolding guard_scan stage_page exceeds_limits
  scan_page p rest db =
      let before = w.between (2 * p.number) db in
      elim (guard_scan ext env l run actor b.version false before) [
        | err e ↦ (some e, before)
        | ok r ↦ elim (w.read p.number p.cursor) [
          | err e ↦ (some (failure (failure_code e)), r.1)
          | ok page ↦ elim (exceeds_limits p page (w.size page.rows)) [
            | true ↦ (some limit_reached, r.1)
            | false ↦ stage_page p rest page r.1
          ]
        ]
      ]

  -- The loop over at most `left` pages.
  unfoldable pub scan_pages : ℕ → Progress → Db → Option Error × Db
  unfolding scan_page
  scan_pages zero p db = (some limit_reached, db)
  scan_pages (suc left) p db = scan_page p (scan_pages left) db

abbrev pub first_page : Progress
first_page = record { number = 1; cursor = ""; count = 0; bytes = 0; seen = [] }

-- The run of the job and its actor, as Scan reads them first.
unfoldable pub scanned_run : Lease → Db → Option SyncRun
scanned_run l db =
    elim (find
      (λ j.
        j.id == l.id
        && j.workspace == l.workspace
        && j.connection == l.connection
        && j.payload_version == 2)
      db.jobs) [
        | none ↦ none
        | some j ↦
            find
              (λ s.
                s.workspace == l.workspace && s.connection == l.connection && equals j.sync s.id)
              db.sync_runs
      ]

module _ (ext : External) (env : Env) (l : Lease) (w : World) where
  -- Scan once the run and its actor are read; `has_reader` says whether pageReader has a reader.
  unfoldable pub scan_run : Bool → ℕ → ℕ → Db → Option Error × Db
  unfolding guard_scan scan_pages
  scan_run has_reader run actor db = elim (guard_scan ext env l run actor 0 true (w.between 0 db)) [
    | err e ↦ (some e, w.between 0 db)
    | ok r ↦ elim has_reader [
      | false ↦ (some scan, r.1)
      | true ↦ scan_pages ext env l w run actor r.0 100 first_page r.1
    ]
  ]

  unfoldable pub scan_all : Bool → Db → Option Error × Db
  unfolding scanned_run scan_run
  scan_all has_reader db = elim (scanned_run l db) [
    | none ↦ (some scan, db)
    | some s ↦ elim s.actor [
      | none ↦ (some scan, db)
      | some actor ↦ scan_run has_reader s.id actor db
    ]
  ]

  -- Execute: the scan, then its completion, whose error comes first.
  unfoldable pub execute : Bool → Db → Option Error × Db
  unfolding scan_all
  execute has_reader db =
      let scanned = scan_all has_reader db in
      elim (complete ext env l scanned.0 scanned.1) [
        | err e ↦ (some e, scanned.1)
        | ok r ↦ (scanned.0, r.1)
      ]
