-- ===== src/Time.antt =====
-- The instants of the `time` crate, as nanoseconds since the epoch, and their millisecond columns
-- (`dt_to_millis`, `millis_to_dt` in each file of crates/storage/src). An `OffsetDateTime` ends
-- with the year 9999; arithmetic that leaves its range panics. No instant that the program makes
-- lies before 1970 but the cut-off of `purge_expired`, which is compared and not kept.
use fips_dropbox.Prelude.{
  ℕ, ◌+◌, ◌*◌, ◌/◌, ◌≡◌, true, Option, none, some, arith, ltb, if◌then◌else◌,
}

abbrev pub Instant : Type 0
Instant = ℕ

-- 10000-01-01T00:00:00Z, the first instant out of range.
abbrev pub end_of_time : Instant
end_of_time = 253402300800 * 1000000000

-- Seconds from -9999-01-01T00:00:00Z, the first instant in range, to the epoch.
abbrev pub seconds_before_epoch : ℕ
seconds_before_epoch = 377705116800

unfoldable pub dt_to_millis : Instant → ℕ
dt_to_millis dt = dt / 1000000

unfoldable pub millis_to_dt : ℕ → Instant
millis_to_dt ms = if ltb (ms * 1000000) end_of_time then ms * 1000000 else 0

-- `now + Duration::hours(h)`; `none` is the panic "resulting value is out of range".
unfoldable pub add_hours : Instant → ℕ → Option Instant
add_hours now h =
    let later = now + h * 3600 * 1000000000 in if ltb later end_of_time then some later else none

-- A column gives back the instant that was stored, to the millisecond.
millis_to_dt-dt_to_millis :
    (dt : Instant)
    → ltb dt end_of_time ≡ true
    → millis_to_dt (dt_to_millis dt) ≡ dt / 1000000 * 1000000
unfolding millis_to_dt dt_to_millis
millis_to_dt-dt_to_millis dt h = ground arith
