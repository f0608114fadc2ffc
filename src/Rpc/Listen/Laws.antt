-- ===== src/Rpc/Listen/Laws.antt =====
-- What an update of pkg/rpc/server/listen.go leaves behind, and whom a token lets in.
use trivy.Base.{
  ◌+◌, ◌-◌, ◌≡◌, ◌↔◌, ◌⊎◌, inl, inr, refl, true, false, Option, none, some, arith, Option-cases, [],
}
use trivy.Base.Text.{Str, ==_cases}
use trivy.Base.Result.{Error}
use trivy.Rpc.Listen.{
  with_token, served, unauthenticated, World, Operations, replace_db, hot_update,
}

-- A request is served exactly if no token is set or it has the token.
pub with_token-served :
    (token header : Str) → (with_token token header ≡ served) ↔ ((token ≡ []) ⊎ (token ≡ header))
unfolding with_token
with_token-served token header = elim (==_cases token []) [
  | inl (t, e) ↦ (λ _. inl e, λ _. rw t refl)
  | inr (f, n) ↦ elim (==_cases token header) [
    | inl (t, e) ↦ (λ _. inr e, λ _. rw (f, t) refl)
    | inr (g, o) ↦ (
      λ h. absurd (let h' : unauthenticated ≡ served = rw (f, g) at h in cc),
      λ d. elim d [ inl e ↦ absurd (n e) | inr e ↦ absurd (o e) ],
    )
  ]
]

-- What the update leaves behind, by its outcome.
pub data Outcome (ops : Operations) (w : World) : World × Option Error → Type 0 where
  -- No file is touched and the database is as it was.
  untouched : (e : Error) → Outcome ops w (w, some e)
  -- The database is open, with both files of the download.
  updated : Outcome ops w (
    record w {
      db_open = true;
      db_file = ops.downloaded_db;
      metadata_file = ops.downloaded_metadata;
    },
    none,
  )
  -- The database stays closed, with what a copy left of a file, or with the files of the download.
  left_closed :
      (e : Error) (db metadata : Str)
      → ((x : Error) × (ops.copy_db ≡ some (x, db))) × (metadata ≡ w.metadata_file)
        ⊎ (db ≡ ops.downloaded_db)
          × (((x : Error) × (ops.copy_metadata ≡ some (x, metadata)))
              ⊎ (metadata ≡ ops.downloaded_metadata))
      → Outcome ops w (record w { db_open = false; db_file = db; metadata_file = metadata }, some e)

restored : (w : World) → w.db_update + 1 - 1 ≡ w.db_update
restored w = omega arith

-- An update that fails leaves the database as it was, or closed; one that succeeds leaves it open with
-- the files of the download. In each case requests are let in again.
pub hot_update-Outcome : (ops : Operations) (w : World) → Outcome ops w (hot_update ops w)
unfolding hot_update replace_db
hot_update-Outcome ops w = elim (Option-cases ops.mkdir_temp) [
  | inr (e, h) ↦ rw (h, hot_update) (untouched _)
  | inl h ↦ elim (Option-cases ops.download) [
    | inr (e, d) ↦ rw (h, d, hot_update) (untouched _)
    | inl d ↦ elim (Option-cases ops.close) [
      | inr (e, c) ↦ rw (h, d, c, hot_update, replace_db, restored w) (untouched _)
      | inl c ↦ elim (Option-cases ops.copy_db) [
        | inr ((e, l), x) ↦
            rw (h, d, c, x, hot_update, replace_db, restored w)
              (left_closed _ _ _ (inl ((e, refl), refl)))
        | inl x ↦ elim (Option-cases ops.copy_metadata) [
          | inr ((e, l), y) ↦
              rw (h, d, c, x, y, hot_update, replace_db, restored w)
                (left_closed _ _ _ (inr (refl, inl (e, refl))))
          | inl y ↦ elim (Option-cases ops.init) [
            | inr (e, z) ↦
                rw (h, d, c, x, y, z, hot_update, replace_db, restored w)
                  (left_closed _ _ _ (inr (refl, inr refl)))
            | inl z ↦ rw (h, d, c, x, y, z, hot_update, replace_db, restored w) updated
          ]
        ]
      ]
    ]
  ]
]
