-- ===== src/Licensing.antt =====
-- crates/licensing/src: the types of types.rs and error.rs, and what the crate takes from outside.
-- A time is a number that grows with it, in nanoseconds; a text is a byte string. A file is
-- missing, does not parse, or holds the value that serde_json wrote.
pub mod Crypto
pub mod Clock
pub mod Sentinel
pub mod Verify
pub mod Activate
mod Examples
use terrasync_rs.Base.{ℕ, List, Option, none, some}

pub data LicenseError : Type 0 where
  file_not_found invalid_format signature_invalid : LicenseError
  expired : (expires_at : ℕ) → LicenseError
  activation_window_expired : (issued_at window_days : ℕ) → LicenseError
  machine_binding_mismatch : LicenseError
  max_machines_reached : (max : ℕ) → LicenseError
  binding_hmac_invalid clock_regression : LicenseError
  license_file_restored : (sentinel_clock license_clock : ℕ) → LicenseError
  sentinel_mismatch fingerprint_error : LicenseError
  feature_not_licensed : (feature : List ℕ) → LicenseError
  not_activated io_error json_error crypto_error : LicenseError

pub data Result (A : Type 0) : Type 0 where
  ok : A → Result A
  err : LicenseError → Result A

pub record Payload : Type 0 where
  pub license_id : List ℕ
  pub licensee : List ℕ
  pub issued_at : ℕ
  pub expires_at : Option ℕ
  pub activation_window_days : ℕ
  pub max_machines : ℕ

pub record MachineBinding : Type 0 where
  pub machine_fingerprint : List ℕ
  pub activated_at : ℕ
  pub last_verified : ℕ

pub record Activation : Type 0 where
  pub machines : List MachineBinding
  pub binding_hmac : List ℕ

pub record LicenseFile : Type 0 where
  pub payload : Payload
  pub signature : List ℕ
  pub activation : Option Activation
  pub license_clock : Option ℕ

pub record SentinelData : Type 0 where
  pub id : List ℕ
  pub fp : List ℕ
  pub ts : ℕ
  pub ck : ℕ
  pub hm : List ℕ

pub data File (A : Type 0) : Type 0 where
  absent garbled : File A
  holds : A → File A

-- The license file, and the sentinels by their file names.
pub record Machine : Type 0 where
  pub license_file : File LicenseFile
  pub sentinels : List ℕ → File SentinelData

-- What one call meets: two readings of the system's clock, the machine's fingerprint, and the
-- errors of its writes.
pub record World : Type 0 where
  pub now : ℕ
  pub later : ℕ
  pub fingerprint : Result (List ℕ)
  pub write_license : Option LicenseError
  pub write_sentinel : Option LicenseError

-- A call's result and the machine that it leaves.
abbrev pub Outcome : Type 0 → Type 0
Outcome A = Result A × Machine

-- The `?` operator on a check: its error ends the call with nothing changed.
unfoldable pub guard : {A : Type 0} → Option LicenseError → Machine → Outcome A → Outcome A
guard (some e) m rest = (err e, m)
guard none m rest = rest
