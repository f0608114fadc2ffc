-- ===== src/Scanner/Local/Laws.antt =====
-- What a scan of pkg/scanner/local/scan.go finds.
use trivy.Base.{
  ◌≡◌, refl, ◌↔◌, ◌⊎◌, inl, inr, true, false, List, [], ◌∷◌, none, some, any, Bool-cases,
}
use trivy.Base.Text.{Str, ◌==◌, ==_cases}
use trivy.Base.Dict.{Dict, lookup}
use trivy.Base.Result.{ok}
use trivy.External.{Package, Os, ArtifactDetail}
use trivy.Types.{ScanOptions}
use trivy.Detector.Ospkg
use trivy.Detector.Ospkg.{Driver}
use trivy.Scanner.Local.{Scanner, not_named, merge_pkgs, scan_os_pkgs, detect_vulns_in_os_pkgs}
use mathlib.Core.List.{Memᴰ}
use mathlib.Core.List.Memᴰ

-- No package of the list has the name.
abbrev pub IsFree : List Package → Str → Type 0
IsFree pkgs name = any (λ p. p.name == name) pkgs ≡ false

not_named-mem :
    (pkgs hist : List Package) (p : Package)
    → Memᴰ p (not_named pkgs hist) ↔ Memᴰ p hist × IsFree pkgs p.name
unfolding not_named
not_named-mem pkgs [] p = (λ m. absurd (Memᴰ.not-nil m), λ m. absurd (Memᴰ.not-nil m.0))
not_named-mem pkgs (h ∷ hist) p = elim (Bool-cases (any (λ q. q.name == h.name) pkgs)) [
  | inl t ↦ (
    λ m. let (i, f) = (not_named-mem pkgs hist p).0 (rw t at m) in (Memᴰ.tail i, f),
    λ (i, f). elim (Memᴰ.cases_cons i) [
      | inl same ↦
          absurd (let t' : any (λ q. q.name == p.name) pkgs ≡ true = rw same t in cc (t', f))
      | inr later ↦ rw t ((not_named-mem pkgs hist p).1 (later, f))
    ],
  )
  | inr f ↦ (
    λ m.
        let m' : Memᴰ p (h ∷ not_named pkgs hist) = rw f at m in
        elim (Memᴰ.cases_cons m') [
          | inl same ↦ (Memᴰ.head same, rw same f)
          | inr later ↦ let (i, g) = (not_named-mem pkgs hist p).0 later in (Memᴰ.tail i, g)
        ],
    λ (i, g). rw f (elim (Memᴰ.cases_cons i) [
      | inl same ↦ Memᴰ.head same
      | inr later ↦ Memᴰ.tail ((not_named-mem pkgs hist p).1 (later, g))
    ]),
  )
]

-- The packages scanned with the removed ones are the installed packages and those of the history
-- whose names no installed package has.
pub merge_pkgs-mem :
    (pkgs hist : List Package) (p : Package)
    → Memᴰ p (merge_pkgs pkgs hist) ↔ Memᴰ p pkgs ⊎ Memᴰ p hist × IsFree pkgs p.name
unfolding merge_pkgs
merge_pkgs-mem pkgs hist p = (
  λ m. elim (Memᴰ.append_cases pkgs m) [
    | inl i ↦ inl i
    | inr i ↦ inr ((not_named-mem pkgs hist p).0 i)
  ],
  λ d. elim d [
    | inl i ↦ Memᴰ.append_left (not_named pkgs hist) i
    | inr k ↦ Memᴰ.append_right pkgs ((not_named-mem pkgs hist p).1 k)
  ],
)

-- A family of operating systems without a driver is no error: where the scanner detects with the
-- drivers, the packages of the operating system give no result and no end of support.
pub scan_os_pkgs-unsupported :
    (s : Scanner) (drivers : Dict Driver) (target : Str) (detail : ArtifactDetail)
    (options : ScanOptions) (os : Os)
    → s.detect_os ≡ Ospkg.detect drivers
    → detail.os ≡ some os
    → lookup os.family drivers ≡ none
    → scan_os_pkgs s target detail options ≡ ok (none, false)
unfolding scan_os_pkgs detect_vulns_in_os_pkgs Ospkg.detect Ospkg.new_driver
scan_os_pkgs-unsupported s drivers target detail options os d o l = elim (==_cases os.family []) [
  | inl (t, _) ↦ rw (o, t) refl
  | inr (f, _) ↦ rw (o, f, d, l) refl
]
