-- ===== src/Scanner/Local/Statuses.antt =====
-- The statuses of the misconfigurations that pkg/scanner/local/scan.go reports of a file.
use trivy.Base.{
  ℕ, ◌+◌, ◌≡◌, refl, Bool, true, false, List, [], ◌∷◌, ◌++◌, map, length, keep, arith, Bool-cases,
  inl, inr,
}
use trivy.Base.Text.{◌==◌, ==_refl}
use trivy.External.{MisconfResult, Misconfiguration, Severities, Severity}
use trivy.Types.{
  DetectedMisconfiguration, MisconfStatus, status_passed, status_failure, status_exception,
}
use trivy.Scanner.Local.{to_detected_misconfiguration, detected_of, misconf_result}

abbrev has_status : MisconfStatus → DetectedMisconfiguration → Bool
has_status status m = m.status == status

-- How many of the misconfigurations have the status.
abbrev pub status_count : MisconfStatus → List DetectedMisconfiguration → ℕ
status_count status ms = length (keep (has_status status) ms)

status_count-append :
    (status : MisconfStatus) (xs ys : List DetectedMisconfiguration)
    → status_count status (xs ++ ys) ≡ status_count status xs + status_count status ys
status_count-append status [] ys = omega arith
status_count-append status (x ∷ xs) ys =
    let later = status_count-append status xs ys in
    elim (Bool-cases (has_status status x)) [
      | inl t ↦ rw t (omega (arith, later))
      | inr f ↦ rw f later
    ]

module _ (f : MisconfResult → DetectedMisconfiguration) (own status : MisconfStatus)
    (h : (r : MisconfResult) → (f r).status ≡ own) where
  status_count-all :
      (own == status) ≡ true
      → (rs : List MisconfResult) → status_count status (map f rs) ≡ length rs
  status_count-all t [] = refl
  status_count-all t (r ∷ rs) = rw (h r, t) (omega (arith, status_count-all t rs))

  status_count-zero :
      (own == status) ≡ false → (rs : List MisconfResult) → status_count status (map f rs) ≡ 0
  status_count-zero n [] = refl
  status_count-zero n (r ∷ rs) = rw (h r, n) (status_count-zero n rs)

module _ (db : Severities) (m : Misconfiguration) where
  abbrev to : Severity → MisconfStatus → MisconfResult → DetectedMisconfiguration
  to default status res = to_detected_misconfiguration db res default status m.layer

  to-status :
      (default : Severity) (status : MisconfStatus) (r : MisconfResult)
      → (to default status r).status ≡ status
  unfolding to_detected_misconfiguration
  to-status default status r = refl

  detected_of-status_count :
      (status : MisconfStatus)
      → status_count status (detected_of db m)
        ≡ status_count status (map (to db.critical status_failure) m.failures)
          + (status_count status (map (to db.medium status_failure) m.warnings)
              + (status_count status (map (to db.unknown status_passed) m.successes)
                  + status_count status (map (to db.unknown status_exception) m.exceptions)))
  unfolding detected_of
  detected_of-status_count status =
      let fs = map (to db.critical status_failure) m.failures in
      let ws = map (to db.medium status_failure) m.warnings in
      let ps = map (to db.unknown status_passed) m.successes in
      let es = map (to db.unknown status_exception) m.exceptions in
      let first : status_count status (detected_of db m)
          ≡ status_count status (fs ++ ws ++ ps) + status_count status es =
        status_count-append status (fs ++ ws ++ ps) es in
      let second = status_count-append status (fs ++ ws) ps in
      let third = status_count-append status fs ws in omega (arith, first, second, third)

  all :
      (default : Severity) (status : MisconfStatus) (rs : List MisconfResult)
      → status_count status (map (to default status) rs) ≡ length rs
  all default status rs =
      status_count-all (to default status) status status (to-status default status) (==_refl status)
        rs

  zero_of :
      (default : Severity) (own status : MisconfStatus)
      → (own == status) ≡ false
      → (rs : List MisconfResult) → status_count status (map (to default own) rs) ≡ 0
  zero_of default own status n rs =
      status_count-zero (to default own) own status (to-status default own) n rs

-- The misconfigurations reported of a file are as many failures as it has failures and warnings, as
-- many passed checks as successes, and as many exceptions as exceptions.
pub misconf_result-status_count :
    (db : Severities) (m : Misconfiguration)
    → (status_count status_failure (misconf_result db m).misconfigurations
        ≡ length m.failures + length m.warnings)
      × (status_count status_passed (misconf_result db m).misconfigurations ≡ length m.successes)
      × (status_count status_exception (misconf_result db m).misconfigurations
          ≡ length m.exceptions)
unfolding misconf_result ◌==◌
misconf_result-status_count db m =
    let count = detected_of-status_count db m in
    (
      omega (
        arith,
        count status_failure,
        all db m db.critical status_failure m.failures,
        all db m db.medium status_failure m.warnings,
        zero_of db m db.unknown status_passed status_failure refl m.successes,
        zero_of db m db.unknown status_exception status_failure refl m.exceptions,
      ),
      omega (
        arith,
        count status_passed,
        zero_of db m db.critical status_failure status_passed refl m.failures,
        zero_of db m db.medium status_failure status_passed refl m.warnings,
        all db m db.unknown status_passed m.successes,
        zero_of db m db.unknown status_exception status_passed refl m.exceptions,
      ),
      omega (
        arith,
        count status_exception,
        zero_of db m db.critical status_failure status_exception refl m.failures,
        zero_of db m db.medium status_failure status_exception refl m.warnings,
        zero_of db m db.unknown status_passed status_exception refl m.successes,
        all db m db.unknown status_exception m.exceptions,
      ),
    )
