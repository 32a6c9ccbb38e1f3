-- ===== src/Base/Time.antt =====
-- Go's `time` package. A `Time` is the number of nanoseconds since Go's zero time (the first instant
-- of year 1), so the zero time is 0. A `Duration` is an `int64` number of nanoseconds.
use argocd_tag_updater.Base.Tests.{ltb, eqb, if◌then◌else◌}
use argocd_tag_updater.Base.Int.{ℤ, pos, sub_ℕ, ltb_ℤ, max_int64, min_int64}
use Prim.Native.Nat.{ℕ, ◌*◌}
use mathlib.Core.Bool.{Bool}

abbrev pub Time : Type 0
Time = ℕ

abbrev pub Duration : Type 0
Duration = ℤ

-- `t.IsZero()`
abbrev pub is_zero : Time → Bool
is_zero t = eqb t 0

-- `t.After(u)`
abbrev pub after : Time → Time → Bool
after t u = ltb u t

-- `t.Sub(u)`, which saturates at the ends of `int64`.
unfoldable pub sub : Time → Time → Duration
sub t u =
    let d = sub_ℕ t u in
    if ltb_ℤ max_int64 d then max_int64 else if ltb_ℤ d min_int64 then min_int64 else d

abbrev pub second : ℕ
second = 1_000_000_000

-- `n * time.Second` and `n * time.Minute`.
abbrev pub seconds : ℕ → Duration
seconds n = pos (n * second)

abbrev pub minutes : ℕ → Duration
minutes n = pos (n * 60_000_000_000)
