-- ===== src/Licensing/Clock.antt =====
-- crates/licensing/src/clock.rs: a clock that does not go back. It is the time that it holds; the
-- system's time is an argument.
use terrasync_rs.Base.{ℕ, Option, none, some, ltb, if◌then◌else◌}
use terrasync_rs.Licensing.{Result, ok, err, clock_regression}

abbrev pub LicenseClock : Type 0
LicenseClock = ℕ

unfoldable pub from_persisted : ℕ → ℕ → Result LicenseClock
from_persisted system_now persisted =
    if ltb system_now persisted then err clock_regression else ok system_now

unfoldable pub initialize : ℕ → LicenseClock
initialize system_now = system_now

unfoldable pub advance : ℕ → LicenseClock → Result LicenseClock
advance system_now value = if ltb system_now value then err clock_regression else ok system_now

-- The clock at the start of a verification.
unfoldable pub start_clock : ℕ → Option ℕ → Result LicenseClock
unfolding from_persisted initialize
start_clock system_now (some persisted) = from_persisted system_now persisted
start_clock system_now none = ok (initialize system_now)
