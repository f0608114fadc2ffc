-- ===== src/Update/Operation/Laws.antt =====
-- What pkg/commands/operation/operation.go leaves behind.
use trivy.Base.{◌+◌, ◌≡◌, refl, inl, inr, Bool, false, Bool-cases, arith, ◌<◌, ◌⊎◌, sym}
use trivy.Base.Text.{str}
use trivy.Base.Result.{ok, context, context-ok, bind_ok}
use trivy.Update.Db
use trivy.Update.Db.{hour}
use trivy.Update.Db.Laws
use trivy.Update.Db.Laws.{needs_update-download}
use trivy.Update.Operation.{download_db, show_db_info}

module _ {S A : Type 0} (c : Db.Client S A) where
  show_db_info-ok : (s : S) {t : S} → show_db_info c s ≡ ok t → t ≡ s
  show_db_info-ok s e = let (m, _, k) = bind_ok (context _ (c.metadata.get c.cache_dir s)) _ e in cc

  -- What is shown of a database, where no download is asked for.
  download_db-unneeded :
      (skip : Bool) (s : S)
      → Db.needs_update c skip s ≡ ok false
      → download_db c skip s ≡ context (str "failed to show database info") (show_db_info c s)
  unfolding download_db
  download_db-unneeded skip s n = rw (n, download_db) refl

  download_db-cases :
      (skip : Bool) (s : S) {t : S}
      → download_db c skip s ≡ ok t
      → (Db.download c c.cache_dir s ≡ ok t) × (show_db_info c t ≡ ok t)
        ⊎ (Db.needs_update c skip s ≡ ok false) × (s ≡ t)
  unfolding download_db
  download_db-cases skip s {t} e =
      let (needed, n, k) = bind_ok (context _ (Db.needs_update c skip s)) _ e in
      elim (Bool-cases needed) [
        | inl y ↦
            let (u, d, k') = bind_ok (context _ (Db.download c c.cache_dir s)) _ (rw y at k) in
            let same = show_db_info-ok u (context-ok _ _ k') in
            let shown : show_db_info c u ≡ ok t = context-ok _ _ k' in
            inl (rw same (context-ok _ _ d), rw (← same) at shown)
        | inr f ↦
            let k' : context _ (show_db_info c s) ≡ ok t = rw f at k in
            inr (rw f at (context-ok _ _ n), sym (show_db_info-ok s (context-ok _ _ k')))
      ]

  -- A download that succeeds leaves nothing to do: at the same instant a second one succeeds and
  -- changes no file.
  pub download_db_idem :
      Laws.Lawful c
      → (skip : Bool) (s : S) {t : S} → download_db c skip s ≡ ok t
      → download_db c skip t ≡ ok t
  unfolding download_db
  download_db_idem law skip s {t} e = elim (download_db-cases skip s e) [
    | inl (d, k) ↦
        let l : c.now < c.now + hour = omega arith in
        rw (download_db-unneeded skip t (needs_update-download c law skip c.now s l d), k) refl
    | inr (n, same) ↦ rw same at e
  ]
