-- ===== src/ResultClient/Vulnerabilities/Complete.antt =====
-- What filterVulnerabilities reports for each admissible vulnerability: the key of the map, taken
-- apart.
use mathlib.Core.List.{Memᴰ}
use trivy.Base.{◌≡◌, refl, inl, inr, Bool-cases, ℕ, Bool, false, List, [], ◌∷◌, ◌++◌}
use trivy.Base.Text.{Str, ◌==◌}
use trivy.Base.TextOrder.{lt}
use trivy.External.{Severities, Severity}
use trivy.Types.{DetectedVulnerability}
use trivy.ResultClient.Vulnerabilities.{key, default_severity, filter_vulnerabilities}
use trivy.ResultClient.Vulnerabilities.Step.{Admissible}
use trivy.ResultClient.Vulnerabilities.Laws.{
  filter_vulnerabilities-key, filter_vulnerabilities_sound,
}

-- Neither the identifier nor the installed version has a slash.
abbrev pub IsPlain : DetectedVulnerability → Type 0
IsPlain v = ¬ Memᴰ b'/' v.vulnerability_id × ¬ Memᴰ b'/' v.installed_version

-- The identifier, the package and the version.
abbrev pub SameFinding : DetectedVulnerability → DetectedVulnerability → Type 0
SameFinding o v =
    (o.vulnerability_id ≡ v.vulnerability_id)
    × (o.pkg_name ≡ v.pkg_name)
    × (o.installed_version ≡ v.installed_version)

-- A text before its first separator, and what follows it.
split_first :
    (c : ℕ) (a b s t : Str) → ¬ Memᴰ c a → ¬ Memᴰ c b → a ++ c ∷ s ≡ b ++ c ∷ t → (a ≡ b) × (s ≡ t)
split_first c [] [] s t n m e = (refl, cc)
split_first c [] (y ∷ b) s t n m e = absurd (m (Memᴰ.head cc))
split_first c (x ∷ a) [] s t n m e = absurd (n (Memᴰ.head cc))
split_first c (x ∷ a) (y ∷ b) s t n m e =
    let (p, q) = split_first c a b s t (λ i. n (Memᴰ.tail i)) (λ i. m (Memᴰ.tail i)) cc in
    (let same : x ≡ y = cc in cc, q)

-- The separator that ends a text stands in every longer one.
mem-append_separator : (c : ℕ) (a s : Str) → Memᴰ c (a ++ c ∷ s)
mem-append_separator c [] s = Memᴰ.head refl
mem-append_separator c (x ∷ a) s = Memᴰ.tail (mem-append_separator c a s)

-- A text before its last separator, and what follows it.
split_last :
    (c : ℕ) (a b s t : Str) → ¬ Memᴰ c s → ¬ Memᴰ c t → a ++ c ∷ s ≡ b ++ c ∷ t → (a ≡ b) × (s ≡ t)
split_last c [] [] s t n m e = (refl, cc)
split_last c [] (y ∷ b) s t n m e =
    let same : s ≡ b ++ c ∷ t = cc in absurd (n (rw same (mem-append_separator c b t)))
split_last c (x ∷ a) [] s t n m e =
    let same : t ≡ a ++ c ∷ s = cc in absurd (m (rw same (mem-append_separator c a s)))
split_last c (x ∷ a) (y ∷ b) s t n m e =
    let (p, q) = split_last c a b s t n m cc in (let same : x ≡ y = cc in cc, q)

key-SameFinding :
    (o v : DetectedVulnerability) → IsPlain o → IsPlain v → key o ≡ key v → SameFinding o v
unfolding key
key-SameFinding o v (n, n') (m, m') e =
    let (id, rest) = split_first b'/' o.vulnerability_id v.vulnerability_id _ _ n m e in
    let (name, version) = split_last b'/' o.pkg_name v.pkg_name _ _ n' m' rest in
    (id, name, version)

default_severity-IsPlain :
    (db : Severities) (v : DetectedVulnerability) → IsPlain v → IsPlain (default_severity db v)
unfolding default_severity
default_severity-IsPlain db v h = elim (Bool-cases (v.severity == [])) [
  | inl t ↦ rw (t, default_severity) h
  | inr f ↦ rw (f, default_severity) h
]

-- Where no identifier and no installed version has a slash, one with the identifier, the package and
-- the installed version of an admissible vulnerability of the input is reported, and its fixed version
-- is not smaller.
pub filter_vulnerabilities_complete :
    (db : Severities) (ignore_unfixed : Bool) (ignored_ids : List Str) (severities : List Severity)
    (vs : List DetectedVulnerability)
    → ((w : DetectedVulnerability) → Memᴰ w vs → IsPlain w)
    → (v : DetectedVulnerability) → Memᴰ v vs
    → Admissible db ignore_unfixed ignored_ids severities (default_severity db v)
    → (o : DetectedVulnerability) × Memᴰ o
        (filter_vulnerabilities db ignore_unfixed ignored_ids severities vs)
      × SameFinding o v
      × (lt o.fixed_version v.fixed_version ≡ false)
filter_vulnerabilities_complete db ignore_unfixed ignored_ids severities vs plain v m a =
    let (o, reported, same, least) =
      filter_vulnerabilities-key db ignore_unfixed ignored_ids severities vs v m a in
    let (_, (w, i, from)) =
      filter_vulnerabilities_sound db ignore_unfixed ignored_ids severities vs o reported in
    let plain_o : IsPlain o = rw from (default_severity-IsPlain db w (plain w i)) in
    (o, reported, key-SameFinding o v plain_o (plain v m) same, least)
