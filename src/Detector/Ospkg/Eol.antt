-- ===== src/Detector/Ospkg/Eol.antt =====
-- What the detectors of pkg/detector/ospkg share: the date of the end of support of a version, and
-- the type of the advisories of trivy-db.
use trivy.Base.{ℕ, Bool, false, List, none, some}
use trivy.Base.Text.{Str}
use trivy.Base.Dict.{Dict, lookup}
use trivy.Base.Time.{before}
use trivy.Base.Result.{Result}
use trivy.External.{Advisory}

-- The constants of fanal's analyzer/os
pub record Families : Type 0 where
  pub alpine : Str
  pub alma : Str
  pub amazon : Str
  pub cbl_mariner : Str
  pub debian : Str
  pub ubuntu : Str
  pub red_hat : Str
  pub cent_os : Str
  pub rocky : Str
  pub oracle : Str
  pub opensuse_leap : Str
  pub sles : Str
  pub photon : Str

-- VulnSrc.Get of a source of trivy-db: the advisories for a release and the name of a package
abbrev pub Get : Type 0
Get = Str → Str → Result (List Advisory)

-- eol, ok := eolDates[osVer]; ok && s.clock.Now().Before(eol)
unfoldable pub is_before_eol : Dict ℕ → ℕ → Str → Bool
is_before_eol eol_dates now os_ver = elim (lookup os_ver eol_dates) [
  | none ↦ false
  | some eol ↦ before now eol
]
