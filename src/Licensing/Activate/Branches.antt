-- ===== src/Licensing/Activate/Branches.antt =====
-- crates/licensing/src/activate.rs: the branches of `activate_license`.
use terrasync_rs.Base.{
  ℕ, ◌≤◌, ◌<◌, ◌≡◌, refl, Bool, true, false, ◌&&◌, List, [], ◌∷◌, ◌++◌, Option, none, some, leb,
  ◌==◌, length, length-append, bytes_eq, if◌then◌else◌, Bool-cases, leb-false, leb→le, ==_iff, inl,
  inr, arith,
}
use terrasync_rs.Licensing.{
  LicenseError, Result, ok, err, MachineBinding, Activation, LicenseFile, SentinelData, File,
  absent, garbled, holds, Machine, World, Outcome, guard,
}
use terrasync_rs.Licensing.Crypto.{Primitives}
use terrasync_rs.Licensing.Sentinel.{read_sentinel, short_hash}
use terrasync_rs.Licensing.Verify.{read_license, is_bound, verify_binding_hmac_compat}
use terrasync_rs.Licensing.Verify
use terrasync_rs.Licensing.Activate.{
  finish, rebound, binding, bind, check_seal, with_fingerprint, activate_read, activate_license,
  window_error, clock_or,
}

some_max : (n : ℕ) → (n == 0) ≡ false → 1 ≤ n
some_max n h = elim (Bool-cases (leb 1 n)) [
  | inl large ↦ leb→le 1 n large
  | inr small ↦
      let none_left : n ≡ 0 = omega (arith, leb-false 1 n small) in
      absurd (let same = (==_iff n 0).1 none_left in ground arith)
]

one_more :
    (ms : List MachineBinding) (b : MachineBinding) (n : ℕ)
    → length ms < n
    → length (ms ++ b ∷ []) ≤ n
one_more ms b n h = omega (arith, length-append ms (b ∷ []))

module _ (P : Machine → Type 0) where
  guard-keeps :
      {A : Type 0} (e : Option LicenseError) (m : Machine) (rest : Outcome A)
      → P m
      → P rest.1
      → P (guard e m rest).1
  unfolding guard
  guard-keeps none m rest h k = k
  guard-keeps (some e) m rest h k = h

  if-keeps :
      {A : Type 0} (b : Bool) (x y : Outcome A)
      → P x.1
      → (b ≡ false → P y.1)
      → P (if b then x else y).1
  if-keeps true x y h k = h
  if-keeps false x y h k = k refl

  module _ (prims : Primitives) (world : World) (m : Machine) (kept : P m) where
    module _ (license : LicenseFile)
        (ends : (machines : List MachineBinding) (clock : ℕ) (fp : List ℕ)
          → length machines ≤ license.payload.max_machines
          → P (finish prims world m (rebound prims license machines clock) fp).1)
        (bounded : (license.payload.max_machines == 0) ≡ false) where
      bind-keeps : (fp : List ℕ) (a : Option Activation) → P (bind prims world m license fp a).1
      unfolding bind
      bind-keeps fp none =
          ends (binding fp world.now ∷ []) world.now fp
            (some_max license.payload.max_machines bounded)
      bind-keeps fp (some a) = guard-keeps (verify_binding_hmac_compat prims license a) m _ kept (
          if-keeps (is_bound fp a.machines) _ _ kept (λ fresh.
            if-keeps (leb license.payload.max_machines (length a.machines)) _ _ kept (λ room.
              ends (a.machines ++ binding fp world.now ∷ [])
                (clock_or license.license_clock world.now) fp
                (one_more a.machines (binding fp world.now) license.payload.max_machines
                  (leb-false license.payload.max_machines (length a.machines) room)))))

      check_seal-keeps :
          (fp : List ℕ) (r : Result (Option SentinelData))
          → P (check_seal prims world m license fp r).1
      unfolding check_seal
      check_seal-keeps fp (err e) = kept
      check_seal-keeps fp (ok none) = bind-keeps fp license.activation
      check_seal-keeps fp (ok (some s)) =
          if-keeps (bytes_eq s.fp fp && bytes_eq s.id (short_hash prims license.payload.license_id))
            _ _ kept (λ fresh. bind-keeps fp license.activation)

      fingerprint-keeps : (r : Result (List ℕ)) → P (with_fingerprint prims world m license r).1
      unfolding with_fingerprint
      fingerprint-keeps (err e) = kept
      fingerprint-keeps (ok fp) =
          check_seal-keeps fp (read_sentinel prims m license.payload.license_id)

    -- What holds of the machine before an activation, and after its last steps, holds after it.
    pub activate_license-keeps :
        ((license : LicenseFile)
          → m.license_file ≡ holds license
          → (machines : List MachineBinding) (clock : ℕ) (fp : List ℕ)
          → length machines ≤ license.payload.max_machines
          → P (finish prims world m (rebound prims license machines clock) fp).1)
        → P (activate_license prims world m).1
    unfolding activate_license activate_read read_license
    activate_license-keeps ends = go m.license_file refl
      where
        go :
            (f : File LicenseFile)
            → m.license_file ≡ f
            → P (activate_read prims world m (Verify.opened f)).1
        go absent e = kept
        go garbled e = kept
        go (holds license) e =
            guard-keeps
              (prims.signature_error (prims.payload_json license.payload) license.signature) m _
              kept
              (if-keeps (license.payload.max_machines == 0) _ _ kept (λ bounded.
                guard-keeps (window_error license world.now) m _ kept
                  (fingerprint-keeps license (ends license e) bounded world.fingerprint)))
