-- ===== src/Licensing/Activate.antt =====
-- crates/licensing/src/activate.rs. The proofs are in the children.
pub mod Branches
pub mod Limit
pub mod Seal
use terrasync_rs.Base.{
  ℕ, ◌-◌, ◌*◌, ◌^◌, ◌&&◌, List, [], ◌∷◌, ◌++◌, Option, none, some, ltb, leb, ◌==◌, length, bytes_eq,
  if◌then◌else◌,
}
use terrasync_rs.Licensing.{
  LicenseError, activation_window_expired, max_machines_reached, Result, ok, err, MachineBinding,
  Activation, LicenseFile, SentinelData, File, holds, Machine, World, Outcome, guard,
}
use terrasync_rs.Licensing.Crypto.{Primitives, compute_binding_hmac, compute_sentinel_hmac}
use terrasync_rs.Licensing.Sentinel.{short_hash, read_sentinel, write_sentinel}
use terrasync_rs.Licensing.Verify.{read_license, is_bound, verify_binding_hmac_compat}

-- `Duration::days` in nanoseconds. A license from the future is in the window.
unfoldable pub window_error : LicenseFile → ℕ → Option LicenseError
window_error license now =
    if ltb (license.payload.activation_window_days * (86400 * 10 ^ 9))
      (now - license.payload.issued_at)
    then some
        (activation_window_expired license.payload.issued_at license.payload.activation_window_days)
    else none

unfoldable pub clock_or : Option ℕ → ℕ → ℕ
clock_or none now = now
clock_or (some clock) now = clock

abbrev pub binding : List ℕ → ℕ → MachineBinding
binding fp now = record { machine_fingerprint = fp; activated_at = now; last_verified = now }

module _ (prims : Primitives) where
  pub sealed : Option LicenseError × Machine → Outcome Unit
  sealed (some e, m) = (err e, m)
  sealed (none, m) = (ok tt, m)

  seal : LicenseFile → List ℕ → ℕ → SentinelData
  unfolding short_hash compute_sentinel_hmac clock_or
  seal license fp now = record {
    id = short_hash prims license.payload.license_id;
    fp = fp;
    ts = now;
    ck = clock_or license.license_clock now;
    hm = compute_sentinel_hmac prims (short_hash prims license.payload.license_id) fp now;
  }

  -- The license file, then the sentinel.
  pub finish : World → Machine → LicenseFile → List ℕ → Outcome Unit
  unfolding guard sealed seal write_sentinel
  finish world m license fp = guard world.write_license m (
      sealed (
        write_sentinel prims world (record m { license_file = holds license })
          (seal license fp world.now)))

  -- The license with the given bindings, and their HMAC with the clock.
  pub rebound : LicenseFile → List MachineBinding → ℕ → LicenseFile
  unfolding compute_binding_hmac
  rebound license machines clock = record license {
    license_clock = some clock;
    activation = some (record {
      machines = machines;
      binding_hmac = compute_binding_hmac prims license.signature machines (some clock);
    });
  }

  bind : World → Machine → LicenseFile → List ℕ → Option Activation → Outcome Unit
  unfolding guard finish rebound is_bound verify_binding_hmac_compat clock_or
  bind world m license fp none =
      finish world m (rebound license (binding fp world.now ∷ []) world.now) fp
  bind world m license fp (some activation) =
      guard (verify_binding_hmac_compat prims license activation) m (
        if is_bound fp activation.machines
        then (ok tt, m)
        else if leb license.payload.max_machines (length activation.machines)
        then (err (max_machines_reached license.payload.max_machines), m)
        else finish world m
            (rebound license (activation.machines ++ binding fp world.now ∷ [])
              (clock_or license.license_clock world.now))
            fp)

  check_seal : World → Machine → LicenseFile → List ℕ → Result (Option SentinelData) → Outcome Unit
  unfolding bind bytes_eq short_hash
  check_seal world m license fp (err e) = (err e, m)
  check_seal world m license fp (ok none) = bind world m license fp license.activation
  check_seal world m license fp (ok (some s)) =
      if bytes_eq s.fp fp && bytes_eq s.id (short_hash prims license.payload.license_id)
      then (ok tt, m)
      else bind world m license fp license.activation

  with_fingerprint : World → Machine → LicenseFile → Result (List ℕ) → Outcome Unit
  unfolding check_seal read_sentinel
  with_fingerprint world m license (err e) = (err e, m)
  with_fingerprint world m license (ok fp) =
      check_seal world m license fp (read_sentinel prims m license.payload.license_id)

  activate_read : World → Machine → Result LicenseFile → Outcome Unit
  unfolding guard with_fingerprint window_error
  activate_read world m (err e) = (err e, m)
  activate_read world m (ok license) =
      guard (prims.signature_error (prims.payload_json license.payload) license.signature) m (
        if license.payload.max_machines == 0
        then (ok tt, m)
        else guard (window_error license world.now) m
            (with_fingerprint world m license world.fingerprint))

  unfoldable pub activate_license : World → Machine → Outcome Unit
  unfolding activate_read read_license
  activate_license world m = activate_read world m (read_license m)
