-- ===== src/Detector/Ospkg/Reported.antt =====
-- What the loops of the detectors over packages and advisories report.
use trivy.Base.{◌≡◌, refl, ◌↔◌, List, [], Option, some, inl, inr, none}
use trivy.Base.Text.{Str}
use trivy.Base.Result.{
  Result, ok, context, choose, collect, ◌>>=◌, bind_ok, context-ok, mem-choose, choose-mem,
  collect-mem, mem-collect,
}
use trivy.External.{Package, Advisory}
use trivy.Types.{DetectedVulnerability}
use mathlib.Core.List.{Memᴰ, ◌∷◌}
use mathlib.Core.List.Memᴰ

module _ (get : Package → Result (List Advisory))
    (Finds : Package → Advisory → DetectedVulnerability → Type 0) where
  -- A vulnerability that an advisory for one of the packages gives rise to.
  pub record Reported (pkgs : List Package) (v : DetectedVulnerability) : Type 0 where
    pub pkg : Package
    pub listed : Memᴰ pkg pkgs
    pub advisories : List Advisory
    pub fetched : get pkg ≡ ok advisories
    pub advisory : Advisory
    pub published : Memᴰ advisory advisories
    pub found : Finds pkg advisory v

  -- The body of a loop over the packages that appends what its advisories give rise to.
  pub record IsRound (round : Package → Result (List DetectedVulnerability)) : Type 0 where
    pub sound :
        (p : Package) {ys : List DetectedVulnerability} {v : DetectedVulnerability}
        → round p ≡ ok ys
        → Memᴰ v ys
        → (advs : List Advisory) × (get p ≡ ok advs)
          × (adv : Advisory) × Memᴰ adv advs
          × Finds p adv v
    pub complete :
        (p : Package) {ys : List DetectedVulnerability} {v : DetectedVulnerability}
        {advs : List Advisory} (adv : Advisory)
        → round p ≡ ok ys
        → get p ≡ ok advs
        → Memᴰ adv advs
        → Finds p adv v
        → Memᴰ v ys

  -- The loop reports what the advisories give rise to, and nothing else.
  pub collect-Reported :
      {round : Package → Result (List DetectedVulnerability)}
      → IsRound round
      → (pkgs : List Package) {out : List DetectedVulnerability} → collect round [] pkgs ≡ ok out
      → (v : DetectedVulnerability) → Memᴰ v out ↔ Reported pkgs v
  collect-Reported {round} is_round pkgs {out} e v = (to, from)
    where
      to : Memᴰ v out → Reported pkgs v
      to m = elim (collect-mem round [] pkgs e m) [
        | inl i ↦ absurd (Memᴰ.not-nil i)
        | inr w ↦
            let (advs, g, adv, i, f) = is_round.sound w.element w.returned w.member in
            record {
              pkg = w.element;
              listed = w.listed;
              advisories = advs;
              fetched = g;
              advisory = adv;
              published = i;
              found = f;
            }
      ]

      from : Reported pkgs v → Memᴰ v out
      from w =
          let (ys, r, into) = mem-collect round [] w.pkg pkgs e w.listed in
          into v (is_round.complete w.pkg w.advisory r w.fetched w.published w.found)

  -- A body that fetches the advisories and takes each that a test lets pass.
  pub fetch-IsRound :
      (msg : Str) (f : Package → Advisory → Option DetectedVulnerability)
      → ((p : Package) (adv : Advisory) (v : DetectedVulnerability)
          → (f p adv ≡ some v) ↔ Finds p adv v)
      → IsRound (λ p. context msg (get p) >>= λ advs. ok (choose (f p) advs))
  fetch-IsRound msg f iff = record {
    sound = λ p e m.
        let (advs, c, k) = bind_ok (context msg (get p)) (λ advs. ok (choose (f p) advs)) e in
        let same : choose (f p) advs ≡ _ = cc in
        let (adv, i, h) = choose-mem (f p) advs (rw same m) in
        (advs, context-ok msg (get p) c, adv, i, (iff p adv _).0 h);
    complete = λ p {ys} {v} {advs} adv e g i h.
        let e' : ok (choose (f p) advs) ≡ ok ys = rw g at e in
        let same : choose (f p) advs ≡ ys = cc in
        rw (← same) (mem-choose (f p) adv advs i ((iff p adv v).1 h));
  }

  pub IsRound-ap :
      {r s : Package → Result (List DetectedVulnerability)}
      → ((p : Package) → r p ≡ s p)
      → IsRound s
      → IsRound r
  IsRound-ap h is_round = record {
    sound = λ p e m. is_round.sound p (rw (h p) at e) m;
    complete = λ p adv e g i f. is_round.complete p adv (rw (h p) at e) g i f;
  }

pub choose-none {ℓ κ} : {A : Type ℓ} {B : Type κ} (xs : List A) → choose {B = B} (λ _. none) xs ≡ []
unfolding choose
choose-none [] = refl
choose-none (x ∷ xs) = choose-none xs

-- A body that parses the version of the package, and passes on where that fails.
abbrev pub parsed :
    {V : Type 0}
    → Option V
    → (V → Advisory → Option DetectedVulnerability)
    → Advisory
    → Option DetectedVulnerability
parsed none f adv = none
parsed (some v) f adv = f v adv

pub parsed-some :
    {V : Type 0} (o : Option V) (f : V → Advisory → Option DetectedVulnerability) (adv : Advisory)
    (v : DetectedVulnerability)
    → (parsed o f adv ≡ some v) ↔ ((i : V) × (o ≡ some i) × (f i adv ≡ some v))
parsed-some none f adv v = (λ h. absurd (cc), λ (_, q, _). absurd (cc))
parsed-some (some i) f adv v = (λ h. (i, refl, h), λ (j, q, h). let same : i ≡ j = cc in rw same h)
