-- ===== src/Licensing/Activate/Seal.antt =====
-- crates/licensing/src/activate.rs: where `activate_license` leaves its sentinel, and where it is
-- looked for.
use terrasync_rs.Base.{ℕ, ◌≡◌, ◌≢◌, refl, ap, sym, ◌∙◌, subst, List, Option, none, some}
use terrasync_rs.Licensing.{
  LicenseError, LicenseFile, File, absent, garbled, holds, Machine, World, guard,
}
use terrasync_rs.Licensing.Crypto.{Primitives}
use terrasync_rs.Licensing.Sentinel.{
  short_hash, sentinel_path, read_sentinel, write_sentinel, read-write_sentinel,
}
use terrasync_rs.Licensing.Activate.{sealed, seal, finish, rebound, activate_license}
use terrasync_rs.Licensing.Activate.Branches.{activate_license-keeps}

license_of : LicenseFile → File LicenseFile → LicenseFile
license_of l absent = l
license_of l garbled = l
license_of l (holds k) = k

module _ (prims : Primitives) where
  pub sealed-machine : (r : Option LicenseError × Machine) → (sealed prims r).1 ≡ r.1
  unfolding sealed
  sealed-machine (none, m) = refl
  sealed-machine (some e, m) = refl

  finish-read_sentinel :
      (world : World) (m : Machine) (license : LicenseFile) (fp : List ℕ)
      → sentinel_path prims (short_hash prims license.payload.license_id)
        ≢ sentinel_path prims license.payload.license_id
      → read_sentinel prims (finish prims world m license fp).1 license.payload.license_id
        ≡ read_sentinel prims m license.payload.license_id
  unfolding finish
  finish-read_sentinel world m license fp other = go world.write_license
    where
      last : Option LicenseError × Machine
      last =
          write_sentinel prims world (record m { license_file = holds license })
            (seal prims license fp world.now)

      go :
          (o : Option LicenseError)
          → read_sentinel prims (guard o m (sealed prims last)).1 license.payload.license_id
            ≡ read_sentinel prims m license.payload.license_id
      go (some e) = unfold guard in refl
      go none =
          ap (λ n. read_sentinel prims n license.payload.license_id)
            ((unfold guard in refl) ∙ sealed-machine last)
          ∙ read-write_sentinel prims world (record m { license_file = holds license })
              (seal prims license fp world.now) license.payload.license_id (unfold seal in other)
          ∙ (unfold read_sentinel in refl)

  -- If hashing the short hash of a license's id again gives another file name, an activation, on
  -- every branch, leaves what is read as the sentinel of that license as it was: the sentinel
  -- that it writes is not found.
  pub activate_license-read_sentinel :
      (world : World) (m : Machine) (license : LicenseFile)
      → m.license_file ≡ holds license
      → sentinel_path prims (short_hash prims license.payload.license_id)
        ≢ sentinel_path prims license.payload.license_id
      → read_sentinel prims (activate_license prims world m).1 license.payload.license_id
        ≡ read_sentinel prims m license.payload.license_id
  unfolding license_of
  activate_license-read_sentinel world m license held other =
      activate_license-keeps
        (λ n.
          read_sentinel prims n license.payload.license_id
          ≡ read_sentinel prims m license.payload.license_id)
        prims world m refl
        (λ l e machines clock fp small.
          let same : l ≡ license = sym (ap (license_of l) e) ∙ ap (license_of l) held in
          subst
            (λ k.
              read_sentinel prims (finish prims world m (rebound prims k machines clock) fp).1
                license.payload.license_id
              ≡ read_sentinel prims m license.payload.license_id)
            (sym same)
            (unfold rebound in
              finish-read_sentinel world m (rebound prims license machines clock) fp other))
