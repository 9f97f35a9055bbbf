-- ===== src/Licensing/Activate/Limit.antt =====
-- crates/licensing/src/activate.rs: the number of machines that activations can bind.
use terrasync_rs.Base.{ℕ, ◌≤◌, ◌≡◌, ap, sym, ◌∙◌, subst, List, Option, none, some, some_eq, length}
use terrasync_rs.Licensing.{
  LicenseError, Activation, LicenseFile, File, absent, garbled, holds, Machine, World, guard,
}
use terrasync_rs.Licensing.Crypto.{Primitives}
use terrasync_rs.Licensing.Sentinel.{write_sentinel, write_sentinel-license_file}
use terrasync_rs.Licensing.Activate.{sealed, seal, finish, rebound, activate_license}
use terrasync_rs.Licensing.Activate.Branches.{activate_license-keeps}
use terrasync_rs.Licensing.Activate.Seal.{sealed-machine}

-- The license in a file is bound to as many machines as it allows at most.
unfoldable pub IsWithin : File LicenseFile → Type 0
IsWithin absent = Unit
IsWithin garbled = Unit
IsWithin (holds license) =
    (a : Activation)
    → license.activation ≡ some a
    → length a.machines ≤ license.payload.max_machines

module _ (prims : Primitives) where
  finish-IsWithin :
      (world : World) (m : Machine) (license : LicenseFile) (fp : List ℕ)
      → IsWithin m.license_file
      → IsWithin (holds license)
      → IsWithin (finish prims world m license fp).1.license_file
  unfolding finish
  finish-IsWithin world m license fp before after = go world.write_license
    where
      last : Option LicenseError × Machine
      last =
          write_sentinel prims world (record m { license_file = holds license })
            (seal prims license fp world.now)

      go : (o : Option LicenseError) → IsWithin (guard o m (sealed prims last)).1.license_file
      go (some e) = unfold guard in before
      go none =
          subst IsWithin
            (sym (
              (unfold guard in ap (λ n. n.license_file) (sealed-machine prims last))
              ∙ write_sentinel-license_file prims world (record m { license_file = holds license })
                  (seal prims license fp world.now)))
            after

  -- An activation, on every branch and with every failure of its writes, leaves in the license
  -- file a license that is bound to as many machines as it allows at most, if that held before.
  pub activate_license-IsWithin :
      (world : World) (m : Machine)
      → IsWithin m.license_file
      → IsWithin (activate_license prims world m).1.license_file
  unfolding IsWithin
  activate_license-IsWithin world m within =
      activate_license-keeps (λ n. IsWithin n.license_file) prims world m within
        (λ license e machines clock fp small.
          finish-IsWithin world m (rebound prims license machines clock) fp within (λ a same.
            unfold rebound in
            subst (λ b. length b.machines ≤ license.payload.max_machines) (some_eq same) small))
