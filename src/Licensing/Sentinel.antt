-- ===== src/Licensing/Sentinel.antt =====
-- crates/licensing/src/sentinel.rs. A sentinel's path is its file name, which is all of it that
-- varies.
use terrasync_rs.Base.{
  ℕ, List, [], ◌∷◌, ◌++◌, Option, none, some, take, not, ltb, bytes_eq, if◌then◌else◌, ◌≡◌, ◌≢◌,
  refl, ap, Bool-cases, bytes_eq→eq, inl, inr,
}
use terrasync_rs.Licensing.{
  LicenseError, invalid_format, sentinel_mismatch, license_file_restored, Result, ok, err,
  SentinelData, File, absent, garbled, holds, Machine, World,
}
use terrasync_rs.Licensing.Crypto.{Primitives, verify_sentinel_hmac}

-- The check of the clocks: the sentinel's may not be ahead of the license file's.
unfoldable pub check_clocks : SentinelData → Option ℕ → Option LicenseError
check_clocks sentinel none = none
check_clocks sentinel (some file_clock) =
    if ltb file_clock sentinel.ck then some (license_file_restored sentinel.ck file_clock) else none

unfoldable pub store :
    (List ℕ → File SentinelData) → List ℕ → SentinelData → List ℕ → File SentinelData
unfolding bytes_eq
store sentinels path s other = if bytes_eq path other then holds s else sentinels other

module _ (prims : Primitives) where
  -- The first 16 digits of the hash.
  unfoldable pub short_hash : List ℕ → List ℕ
  short_hash license_id = take 16 (prims.sha256_hex license_id)

  -- ".rt_" and ".dat"
  unfoldable pub sentinel_path : List ℕ → List ℕ
  unfolding short_hash
  sentinel_path license_id =
      46 ∷ 114 ∷ 116 ∷ 95 ∷ (short_hash license_id ++ 46 ∷ 100 ∷ 97 ∷ 116 ∷ [])

  found : File SentinelData → Result (Option SentinelData)
  found absent = ok none
  found garbled = err invalid_format
  found (holds s) = ok (some s)

  unfoldable pub read_sentinel : Machine → List ℕ → Result (Option SentinelData)
  unfolding found sentinel_path
  read_sentinel m license_id = found (m.sentinels (sentinel_path license_id))

  unfoldable pub written :
      Option LicenseError → Machine → SentinelData → Option LicenseError × Machine
  unfolding store sentinel_path
  written (some e) m s = (some e, m)
  written none m s = (none, record m { sentinels = store m.sentinels (sentinel_path s.id) s })

  -- The temporary file is renamed over the old one, so a failure leaves the old one.
  unfoldable pub write_sentinel : World → Machine → SentinelData → Option LicenseError × Machine
  unfolding written
  write_sentinel world m s = written world.write_sentinel m s

  unfoldable pub verify_sentinel : SentinelData → List ℕ → Option ℕ → Option LicenseError
  unfolding verify_sentinel_hmac bytes_eq check_clocks
  verify_sentinel sentinel current_fingerprint license_clock =
      elim (verify_sentinel_hmac prims sentinel) [
        | some e ↦ some e
        | none ↦
            if not (bytes_eq sentinel.fp current_fingerprint)
            then some sentinel_mismatch
            else check_clocks sentinel license_clock
      ]

  -- A write leaves the license file alone.
  pub write_sentinel-license_file :
      (world : World) (m : Machine) (s : SentinelData)
      → (write_sentinel world m s).1.license_file ≡ m.license_file
  unfolding write_sentinel written
  write_sentinel-license_file world m s = go world.write_sentinel
    where
      go : (o : Option LicenseError) → (written o m s).1.license_file ≡ m.license_file
      go none = refl
      go (some e) = refl

  -- A write under another file name does not show in what is read.
  pub read-write_sentinel :
      (world : World) (m : Machine) (s : SentinelData) (license_id : List ℕ)
      → sentinel_path s.id ≢ sentinel_path license_id
      → read_sentinel (write_sentinel world m s).1 license_id ≡ read_sentinel m license_id
  unfolding read_sentinel write_sentinel written store
  read-write_sentinel world m s license_id other = go world.write_sentinel
    where
      go :
          (o : Option LicenseError)
          → read_sentinel (written o m s).1 license_id ≡ read_sentinel m license_id
      go (some e) = refl
      go none = elim (Bool-cases (bytes_eq (sentinel_path s.id) (sentinel_path license_id))) [
        | inl same ↦
            absurd (other (bytes_eq→eq (sentinel_path s.id) (sentinel_path license_id) same))
        | inr apart ↦
            ap (λ b. found (if b then holds s else m.sentinels (sentinel_path license_id))) apart
      ]
