-- ===== src/Licensing/Verify/Quick.antt =====
-- crates/licensing/src/verify.rs: the second check of a license that was verified.
use terrasync_rs.Base.{
  ℕ, ◌≤◌, ◌≡◌, refl, ap, ◌∙◌, Bool, true, false, Option, none, some, List, ltb, ◌==◌, if◌then◌else◌,
  le→ltb-false, ==_iff, inl, inr,
}
use terrasync_rs.Licensing.{LicenseError, ok, LicenseFile, holds, Machine, World}
use terrasync_rs.Licensing.Crypto.{Primitives}
use terrasync_rs.Licensing.Clock.{from_persisted}
use terrasync_rs.Licensing.Verify.{
  past, check_expiry_with_clock, verify_binding_hmac_compat, verify_license, quick_expiry,
  quick_bound, first_error, quick_activated, quick_verify,
}
use terrasync_rs.Licensing.Verify.Sound.{IsRebound, verify_license-IsVerified}

module _ (prims : Primitives) where
  first_error-none :
      (a b : Option LicenseError) → a ≡ none → b ≡ none → first_error prims a b ≡ none
  first_error-none a b h k = rw (h, k) refl

  -- A license whose clock is not ahead of the time, and that does not expire before it.
  expiry-none :
      (now kept : ℕ) (l : LicenseFile)
      → l.license_clock ≡ some kept
      → kept ≤ now
      → past l.payload.expires_at now ≡ none
      → quick_expiry prims now l l.license_clock ≡ none
  unfolding quick_expiry from_persisted check_expiry_with_clock
  expiry-none now kept l at le fresh =
      let forth : ltb now kept ≡ false = le→ltb-false now kept le in
      ap (quick_expiry prims now l) at ∙ rw (forth, quick_expiry) fresh

  activated-none :
      (world : World) (fp : List ℕ) (l : LicenseFile)
      → world.fingerprint ≡ ok fp
      → IsRebound prims fp l
      → quick_activated prims world l l.activation ≡ none
  unfolding quick_activated quick_bound
  activated-none world fp l is_fp (a, at, bound, hmac) =
      ap (quick_activated prims world l) at
      ∙ first_error-none (verify_binding_hmac_compat prims l a)
          (quick_bound prims a world.fingerprint) hmac
          (ap (quick_bound prims a) is_fp ∙ rw bound refl)

  -- A license that verify_license returned passes quick_verify on a machine with the same
  -- fingerprint at every later time before it expires, with no time before its own clock.
  pub quick_verify-verify_license :
      (world later : World) (m n : Machine) (license l : LicenseFile) (kept : ℕ)
      → m.license_file ≡ holds license
      → verify_license prims world m ≡ (ok l, n)
      → later.fingerprint ≡ world.fingerprint
      → l.license_clock ≡ some kept
      → kept ≤ later.now
      → past l.payload.expires_at later.now ≡ none
      → quick_verify prims later l ≡ none
  unfolding quick_verify
  quick_verify-verify_license world later m n license l kept held done same at le fresh =
      let v = verify_license-IsVerified prims world m n license l held done in
      first_error-none (prims.signature_error (prims.payload_json l.payload) l.signature) _
        (ap (λ p. prims.signature_error (prims.payload_json p) l.signature) v.payload
          ∙ ap (prims.signature_error (prims.payload_json license.payload)) v.signature
          ∙ v.signed)
        (first_error-none (quick_expiry prims later.now l l.license_clock) _
          (expiry-none later.now kept l at le fresh)
          (elim v.again [
            | inl free ↦
                let free' =
                  (==_iff l.payload.max_machines 0).1 (ap (λ p. p.max_machines) v.payload ∙ free) in
                rw free' refl
            | inr (fp, is_fp, left) ↦
                limited (l.payload.max_machines == 0)
                  (activated-none later fp l (same ∙ is_fp) left)
          ]))
    where
      limited :
          (b : Bool)
          → quick_activated prims later l l.activation ≡ none
          → (if b then none else quick_activated prims later l l.activation) ≡ none
      limited true h = refl
      limited false h = h
