-- ===== src/Licensing/Examples.antt =====
-- Runs and instances of the theorems about crates/licensing, with primitives that keep what they
-- are given.
use terrasync_rs.Base.{◌≡◌, ◌≢◌, refl, ap, [], ◌∷◌, ◌++◌, none, some, bytes_eq, arith}
use terrasync_rs.Licensing.{ok, LicenseFile, absent, holds, Machine, World}
use terrasync_rs.Licensing.Crypto.{Primitives, verify_sentinel_hmac}
use terrasync_rs.Licensing.Sentinel.{short_hash, sentinel_path, read_sentinel}
use terrasync_rs.Licensing.Verify.{verify_license, quick_verify, past}
use terrasync_rs.Licensing.Verify.Sound.{IsVerified, verify_license-IsVerified}
use terrasync_rs.Licensing.Verify.Quick.{quick_verify-verify_license}
use terrasync_rs.Licensing.Activate.{activate_license}
use terrasync_rs.Licensing.Activate.Seal.{activate_license-read_sentinel}
use terrasync_rs.Licensing.Activate.Limit.{IsWithin, activate_license-IsWithin}

abbrev toy : Primitives
toy = record {
  signature_error = λ json signature. none;
  payload_json = λ payload. payload.license_id;
  sha256_hex = λ bytes. 1 ∷ bytes;
  derive_hmac_key = λ signature. signature;
  hmac_binding_secret = [];
  hmac = λ key message. key ++ message;
  to_rfc3339 = λ time. time ∷ [];
}

abbrev world : World
world = record {
  now = 5;
  later = 6;
  fingerprint = ok (3 ∷ []);
  write_license = none;
  write_sentinel = none;
}

abbrev issued : LicenseFile
issued = record {
  payload = record {
    license_id = 7 ∷ [];
    licensee = [];
    issued_at = 1;
    expires_at = some 100;
    activation_window_days = 7;
    max_machines = 1;
  };
  signature = 2 ∷ [];
  activation = none;
  license_clock = none;
}

abbrev fresh : Machine
fresh = record { license_file = holds issued; sentinels = λ path. absent }

-- The license after its activation on this machine, and after a verification.
abbrev activated : LicenseFile
activated = record issued {
  license_clock = some 5;
  activation = some (record {
    machines = record { machine_fingerprint = 3 ∷ []; activated_at = 5; last_verified = 5 } ∷ [];
    binding_hmac = 2 ∷ 3 ∷ 58 ∷ 5 ∷ 58 ∷ 5 ∷ 124 ∷ 99 ∷ 108 ∷ 111 ∷ 99 ∷ 107 ∷ 58 ∷ 5 ∷ [];
  });
}

abbrev verified : LicenseFile
verified = record issued {
  license_clock = some 6;
  activation = some (record {
    machines = record { machine_fingerprint = 3 ∷ []; activated_at = 5; last_verified = 6 } ∷ [];
    binding_hmac = 2 ∷ 3 ∷ 58 ∷ 5 ∷ 58 ∷ 6 ∷ 124 ∷ 99 ∷ 108 ∷ 111 ∷ 99 ∷ 107 ∷ 58 ∷ 6 ∷ [];
  });
}

abbrev after_activation : Machine
after_activation = (activate_license toy world fresh).1

abbrev after_verification : Machine
after_verification = (verify_license toy world after_activation).1

activate_run : after_activation.license_file ≡ holds activated
unfolding activate_license
activate_run = refl

verify_license-IsVerified_example : IsVerified toy world activated verified after_verification
unfolding activate_license verify_license
verify_license-IsVerified_example =
    verify_license-IsVerified toy world after_activation after_verification activated verified refl
      refl

activate_license-IsWithin_example : IsWithin after_activation.license_file
unfolding IsWithin
activate_license-IsWithin_example =
    activate_license-IsWithin toy world fresh (λ a e. absurd (ground arith))

moved : sentinel_path toy (short_hash toy (7 ∷ [])) ≢ sentinel_path toy (7 ∷ [])
unfolding sentinel_path bytes_eq
moved e = ground (arith, ap (bytes_eq (sentinel_path toy (7 ∷ []))) e)

activate_license-read_sentinel_example : read_sentinel toy after_activation (7 ∷ []) ≡ ok none
unfolding read_sentinel
activate_license-read_sentinel_example =
    activate_license-read_sentinel toy world fresh issued refl moved

abbrev later : World
later = record world { now = 50; later = 51 }

quick_verify-verify_license_example : quick_verify toy later verified ≡ none
unfolding activate_license verify_license past
quick_verify-verify_license_example =
    quick_verify-verify_license toy world later after_activation after_verification activated
      verified 6 refl refl refl refl (omega arith) refl

-- The sentinel that a migration writes does not pass the check of its own HMAC.
migrate_run :
    verify_sentinel_hmac toy
      (record { id = 1 ∷ 7 ∷ []; fp = 3 ∷ []; ts = 6; ck = 6; hm = 7 ∷ 58 ∷ 3 ∷ 58 ∷ 6 ∷ [] })
    ≢ none
unfolding verify_sentinel_hmac
migrate_run e = ground arith
