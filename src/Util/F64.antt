-- ===== src/Util/F64.antt =====
-- Arithmetic on numbers of type `f64` that are not negative: each is a fraction whose denominator is a
-- power of 2, and each operation rounds to 53 bits.
use faf_rust_replayserver.Base.{
  ℕ, zero, suc, ◌+◌, ◌*◌, ◌/◌, ◌%◌, ◌^◌, ltb, leb, ◌==◌, if◌then◌else◌,
}

-- The whole number that is nearest to a fraction, the even one of two.
unfoldable pub nearest : ℕ → ℕ → ℕ
nearest m d =
    let q = m / d in
    let r = m % d in
    if ltb (2 * r) d then q else if ltb d (2 * r) then q + 1 else if q % 2 == 0 then q else q + 1

-- How often `m` is doubled to reach `low`, on fuel.
unfoldable pub doublings : ℕ → ℕ → ℕ → ℕ
doublings zero low m = 0
doublings (suc fuel) low m =
    let more = doublings fuel low (2 * m) + 1 in if leb low m then 0 else more

-- The `f64` that is nearest to a fraction. Times are less than 2 ^ 64 seconds and at least one
-- nanosecond, so that 200 doublings are enough.
unfoldable pub rounded : ℕ → ℕ → ℕ × ℕ
rounded m d =
    let down = doublings 200 (2 ^ 52 * d) m in
    let up = doublings 200 (m + 1) (2 ^ 53 * d) in
    if m == 0 then (0, 1) else (nearest (m * 2 ^ down) (d * 2 ^ up) * 2 ^ up, 2 ^ down)

-- `Duration::as_secs_f64`, of a number of nanoseconds.
unfoldable pub as_secs : ℕ → ℕ × ℕ
as_secs nanos =
    let (s, t) = rounded (nanos / 1_000_000_000) 1 in
    let (a, b) = rounded (nanos % 1_000_000_000) 1_000_000_000 in rounded (s * b + a * t) (t * b)
