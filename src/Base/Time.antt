-- ===== src/Base/Time.antt =====
-- Instants of the package time, as nanoseconds since 0000-03-01 00:00:00 UTC.
use Prim.Native.Nat.{ℕ, ◌+◌, ◌-◌, ◌*◌, ◌/◌}
use mathlib.Core.Path.{◌≡◌, refl}
use mathlib.Core.Bool.{Bool}
use trivy.Base.Tests.{ltb, leb, if◌then◌else◌}

-- Days since 0000-03-01 in the Gregorian calendar. A year is counted from March.
days : ℕ → ℕ → ℕ → ℕ
days year month day =
    let y = if leb 3 month then year else year - 1 in
    let m = if leb 3 month then month - 3 else month + 9 in
    365 * y + y / 4 - y / 100 + y / 400 + (153 * m + 2) / 5 + (day - 1)

-- time.Date(year, month, day, hour, min, sec, nsec, time.UTC) for fields in their usual ranges
unfoldable pub date : ℕ → ℕ → ℕ → ℕ → ℕ → ℕ → ℕ → ℕ
unfolding days
date year month day hour min sec nsec =
    (((days year month day * 24 + hour) * 60 + min) * 60 + sec) * 1_000_000_000 + nsec

-- t.Before(u)
abbrev pub before : ℕ → ℕ → Bool
before t u = ltb t u

date_tests :
    (date 2024 3 1 0 0 0 0 - date 2024 2 28 0 0 0 0 ≡ 2 * 86_400_000_000_000)
    × (date 2023 1 1 0 0 0 0 - date 2022 12 31 23 59 59 0 ≡ 1_000_000_000)
    × (date 2000 3 1 0 0 0 0 - date 1970 1 1 0 0 0 0 ≡ 951_868_800_000_000_000)
unfolding date
date_tests = (refl, refl, refl)
