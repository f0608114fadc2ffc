-- ===== src/Rpc/Listen.antt =====
-- pkg/rpc/server/listen.go: the token of a request, and the update of the database of vulnerabilities
-- while the server runs.
pub mod Steps
pub mod Laws
pub mod Race
use trivy.Base.{ℕ, ◌+◌, ◌-◌, Bool, true, false, not, ◌&&◌, Option, none, some, if◌then◌else◌, []}
use trivy.Base.Text.{Str, str, ◌==◌}
use trivy.Base.Result.{Result, ok, err, panicked, Error, message, wrap, context, ◌>>=◌}

-- What the handler of withToken does with a request.
pub data Handled : Type 0 where
  served unauthenticated : Handled

-- withToken: `header` is the request's value of the token's header
unfoldable pub with_token : Str → Str → Handled
with_token token header =
    if not (token == []) && not (token == header) then unauthenticated else served

-- What hotUpdate changes: the count of dbUpdateWg, whether the database is open, and the files of the
-- cache directory.
pub record World : Type 0 where
  pub db_update : ℕ
  pub db_open : Bool
  pub db_file : Str
  pub metadata_file : Str

-- What update and hotUpdate call: NeedsUpdate, with `none` for an error, and functions that return an
-- error, with `none` for success; the error of a copy comes with what it leaves in the file. The files
-- of a download are those of a directory.
pub record Operations : Type 0 where
  pub needs_update : Option Bool
  pub mkdir_temp : Option Error
  pub download : Option Error
  pub downloaded_db : Str
  pub downloaded_metadata : Str
  pub close : Option Error
  pub copy_db : Option (Error × Str)
  pub copy_metadata : Option (Error × Str)
  pub init : Option Error

-- The part of hotUpdate after requestWg.Wait, before the deferred dbUpdateWg.Done.
unfoldable pub replace_db : Operations → World → World × Option Error
replace_db ops w = elim (ops.close) [
  | some e ↦ (w, some (wrap (str "failed to close DB") e))
  | none ↦
      let closed = record w { db_open = false } in
      elim (ops.copy_db) [
        | some (e, left) ↦ (
          record closed { db_file = left },
          some (wrap (str "failed to copy the database file") e),
        )
        | none ↦
            let copied = record closed { db_file = ops.downloaded_db } in
            elim (ops.copy_metadata) [
              | some (e, left) ↦ (
                record copied { metadata_file = left },
                some (wrap (str "failed to copy the metadata file") e),
              )
              | none ↦
                  let both = record copied { metadata_file = ops.downloaded_metadata } in
                  elim (ops.init) [
                    | some e ↦ (both, some (wrap (str "failed to open DB") e))
                    | none ↦ (record both { db_open = true }, none)
                  ]
            ]
      ]
]

-- dbUpdateWg.Done
abbrev pub release : World × Option Error → World × Option Error
release (w, e) = (record w { db_update = w.db_update - 1 }, e)

-- hotUpdate, where all requests are processed at last
unfoldable pub hot_update : Operations → World → World × Option Error
unfolding replace_db
hot_update ops w = elim (ops.mkdir_temp) [
  | some e ↦ (w, some (wrap (str "failed to create a temp dir") e))
  | none ↦ elim (ops.download) [
    | some e ↦ (w, some (wrap (str "failed to download vulnerability DB") e))
    | none ↦ release (replace_db ops (record w { db_update = w.db_update + 1 }))
  ]
]

abbrev pub hot_failed : World × Option Error → World × Option Error
hot_failed (w, none) = (w, none)
hot_failed (w, some e) = (w, some (message (str "failed DB hot update")))

-- dbWorker.update; an error of NeedsUpdate or of hotUpdate is not wrapped
unfoldable pub update : Operations → World → World × Option Error
unfolding hot_update
update ops w = elim (ops.needs_update) [
  | none ↦ (w, some (message (str "failed to check if db needs an update")))
  | some needed ↦
      let updated = hot_failed (hot_update ops w) in if not needed then (w, none) else updated
]
