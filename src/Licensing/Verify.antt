-- ===== src/Licensing/Verify.antt =====
-- crates/licensing/src/verify.rs. What a success means is in Verify/Sound.
pub mod Checks
pub mod Sound
pub mod Quick
use terrasync_rs.Base.{
  ℕ, ◌&&◌, ◌||◌, not, Bool, true, false, List, [], ◌∷◌, Option, none, some, ltb, ◌==◌, bytes_eq,
  if◌then◌else◌,
}
use terrasync_rs.Licensing.{
  LicenseError, file_not_found, invalid_format, expired, machine_binding_mismatch,
  binding_hmac_invalid, not_activated, Result, ok, err, Payload, MachineBinding, Activation,
  LicenseFile, SentinelData, File, absent, garbled, holds, Machine, World, Outcome, guard,
}
use terrasync_rs.Licensing.Crypto.{Primitives, compute_binding_hmac, compute_sentinel_hmac}
use terrasync_rs.Licensing.Clock.{LicenseClock, from_persisted, advance, start_clock}
use terrasync_rs.Licensing.Sentinel.{short_hash, read_sentinel, write_sentinel, verify_sentinel}

unfoldable pub past : Option ℕ → ℕ → Option LicenseError
past none now = none
past (some expires_at) now = if ltb expires_at now then some (expired expires_at) else none

unfoldable pub check_expiry_with_clock : LicenseFile → LicenseClock → Option LicenseError
unfolding past
check_expiry_with_clock license clock = past license.payload.expires_at clock

-- The form without a clock takes the system's time.
unfoldable pub check_expiry : LicenseFile → ℕ → Option LicenseError
unfolding past
check_expiry license system_now = past license.payload.expires_at system_now

unfoldable pub opened : File LicenseFile → Result LicenseFile
opened absent = err file_not_found
opened garbled = err invalid_format
opened (holds license) = ok license

unfoldable pub read_license : Machine → Result LicenseFile
unfolding opened
read_license m = opened m.license_file

-- Whether a machine is among the bindings.
unfoldable pub is_bound : List ℕ → List MachineBinding → Bool
unfolding bytes_eq
is_bound fingerprint [] = false
is_bound fingerprint (m ∷ ms) =
    bytes_eq m.machine_fingerprint fingerprint || is_bound fingerprint ms

-- `last_verified` of the first binding of the machine.
unfoldable pub touch : List ℕ → ℕ → List MachineBinding → Option (List MachineBinding)
unfolding bytes_eq
touch fingerprint now [] = none
touch fingerprint now (m ∷ ms) =
    let rest = touch fingerprint now ms in
    if bytes_eq m.machine_fingerprint fingerprint
    then some (record m { last_verified = now } ∷ ms)
    else elim rest [ none ↦ none | some l ↦ some (m ∷ l) ]

module _ (prims : Primitives) where
  -- With the clock first, then in the form that older versions wrote.
  unfoldable pub verify_binding_hmac_compat : LicenseFile → Activation → Option LicenseError
  unfolding compute_binding_hmac bytes_eq
  verify_binding_hmac_compat license activation =
      if bytes_eq
        (compute_binding_hmac prims license.signature activation.machines license.license_clock)
        activation.binding_hmac
      then none
      else if bytes_eq (compute_binding_hmac prims license.signature activation.machines none)
          activation.binding_hmac
      then none
      else some binding_hmac_invalid

  -- The sentinel of the migration, when none was found.
  migrate :
      World → Machine → LicenseFile → Option (List ℕ) → Option ℕ → Option LicenseError × Machine
  unfolding short_hash compute_sentinel_hmac
  migrate world m license (some fp) (some clock) = write_sentinel prims world m (record {
    id = short_hash prims license.payload.license_id;
    fp = fp;
    ts = clock;
    ck = clock;
    hm = compute_sentinel_hmac prims license.payload.license_id fp clock;
  })
  migrate world m license fp clock = (none, m)

  set_clock : SentinelData → Option ℕ → SentinelData
  set_clock s none = s
  set_clock s (some clock) = record s { ck = clock }

  with_found :
      World
      → Machine
      → LicenseFile
      → Option (List ℕ)
      → Result (Option SentinelData)
      → Option LicenseError × Machine
  unfolding migrate set_clock
  with_found world m license fp (err e) = (some e, m)
  with_found world m license fp (ok none) = migrate world m license fp license.license_clock
  with_found world m license fp (ok (some s)) =
      write_sentinel prims world m (set_clock s license.license_clock)

  unfoldable pub update_sentinel_clock :
      World → Machine → LicenseFile → Option (List ℕ) → Option LicenseError × Machine
  unfolding with_found read_sentinel write_sentinel
  update_sentinel_clock world m license fp =
      with_found world m license fp (read_sentinel prims m license.payload.license_id)

  saved : LicenseFile → Option LicenseError × Machine → Outcome LicenseFile
  saved license (some e, m) = (err e, m)
  saved license (none, m) = (ok license, m)

  -- The last steps: the license file, then the sentinel.
  save : World → Machine → LicenseFile → Option (List ℕ) → Outcome LicenseFile
  unfolding saved update_sentinel_clock guard
  save world m license fp = guard world.write_license m (
      saved license
        (update_sentinel_clock world (record m { license_file = holds license }) license fp))

  verify_unlimited : World → Machine → LicenseFile → LicenseClock → Outcome LicenseFile
  unfolding guard save check_expiry_with_clock
  verify_unlimited world m license clock =
      guard (check_expiry_with_clock license clock) m
        (save world m (record license { license_clock = some clock }) none)

  rebind :
      World
      → Machine
      → LicenseFile
      → List ℕ
      → ℕ
      → Option (List MachineBinding)
      → Outcome LicenseFile
  unfolding save compute_binding_hmac
  rebind world m license fp now none = (err machine_binding_mismatch, m)
  rebind world m license fp now (some machines) =
      save world m
        (record license {
          license_clock = some now;
          activation = some (record {
            machines = machines;
            binding_hmac = compute_binding_hmac prims license.signature machines (some now);
          });
        })
        (some fp)

  verify_advance :
      World
      → Machine
      → LicenseFile
      → Activation
      → List ℕ
      → Result LicenseClock
      → Outcome LicenseFile
  unfolding rebind touch
  verify_advance world m license activation fp (err e) = (err e, m)
  verify_advance world m license activation fp (ok now) =
      rebind world m license fp now (touch fp now activation.machines)

  sentinel_error : Result (Option SentinelData) → LicenseFile → List ℕ → Option LicenseError
  unfolding verify_sentinel
  sentinel_error (err e) license fp = some e
  sentinel_error (ok none) license fp = none
  sentinel_error (ok (some s)) license fp = verify_sentinel prims s fp license.license_clock

  verify_machine :
      World
      → Machine
      → LicenseFile
      → Activation
      → LicenseClock
      → Result (List ℕ)
      → Outcome LicenseFile
  unfolding guard verify_advance sentinel_error is_bound advance read_sentinel
  verify_machine world m license activation clock (err e) = (err e, m)
  verify_machine world m license activation clock (ok fp) =
      guard (if is_bound fp activation.machines then none else some machine_binding_mismatch) m (
        guard (sentinel_error (read_sentinel prims m license.payload.license_id) license fp) m
          (verify_advance world m license activation fp (advance world.later clock)))

  verify_activated :
      World → Machine → LicenseFile → LicenseClock → Option Activation → Outcome LicenseFile
  unfolding guard verify_machine verify_binding_hmac_compat check_expiry_with_clock
  verify_activated world m license clock none = (err not_activated, m)
  verify_activated world m license clock (some activation) =
      guard (verify_binding_hmac_compat license activation) m (
        guard (check_expiry_with_clock license clock) m
          (verify_machine world m license activation clock world.fingerprint))

  verify_clocked : World → Machine → LicenseFile → Result LicenseClock → Outcome LicenseFile
  unfolding verify_unlimited verify_activated
  verify_clocked world m license (err e) = (err e, m)
  verify_clocked world m license (ok clock) =
      if license.payload.max_machines == 0
      then verify_unlimited world m license clock
      else verify_activated world m license clock license.activation

  verify_read : World → Machine → Result LicenseFile → Outcome LicenseFile
  unfolding guard verify_clocked start_clock
  verify_read world m (err e) = (err e, m)
  verify_read world m (ok license) =
      guard (prims.signature_error (prims.payload_json license.payload) license.signature) m
        (verify_clocked world m license (start_clock world.now license.license_clock))

  unfoldable pub verify_license : World → Machine → Outcome LicenseFile
  unfolding verify_read read_license
  verify_license world m = verify_read world m (read_license m)

  -- The expiry with the clock of the license, or with the system's time if it has none.
  quick_expiry : ℕ → LicenseFile → Option ℕ → Option LicenseError
  unfolding check_expiry check_expiry_with_clock from_persisted
  quick_expiry now license none = check_expiry license now
  quick_expiry now license (some persisted) = elim (from_persisted now persisted) [
    | err e ↦ some e
    | ok clock ↦ check_expiry_with_clock license clock
  ]

  quick_bound : Activation → Result (List ℕ) → Option LicenseError
  unfolding is_bound
  quick_bound activation (err e) = some e
  quick_bound activation (ok fp) =
      if not (is_bound fp activation.machines) then some machine_binding_mismatch else none

  -- The first error of two checks.
  abbrev first_error : Option LicenseError → Option LicenseError → Option LicenseError
  first_error (some e) rest = some e
  first_error none rest = rest

  quick_activated : World → LicenseFile → Option Activation → Option LicenseError
  unfolding quick_bound verify_binding_hmac_compat
  quick_activated world license none = some not_activated
  quick_activated world license (some activation) =
      first_error (verify_binding_hmac_compat license activation)
        (quick_bound activation world.fingerprint)

  -- The error of the second check of a license, if it has one; it writes nothing.
  unfoldable pub quick_verify : World → LicenseFile → Option LicenseError
  unfolding quick_expiry quick_activated
  quick_verify world license =
      first_error (prims.signature_error (prims.payload_json license.payload) license.signature) (
        first_error (quick_expiry world.now license license.license_clock) (
          if license.payload.max_machines == 0
          then none
          else quick_activated world license license.activation))
