-- ===== src/Licensing/Crypto.antt =====
-- crates/licensing/src/crypto_utils.rs. The primitives are the record `Primitives`; what is
-- written here is which messages they get.
use terrasync_rs.Base.{
  ℕ, List, [], ◌∷◌, ◌++◌, Option, none, some, map, not, if◌then◌else◌, bytes_eq,
}
use terrasync_rs.Licensing.{
  LicenseError, binding_hmac_invalid, Payload, MachineBinding, SentinelData,
}

-- `verify_signature` with the embedded key, serde_json on a payload, SHA-256 in hex digits, HKDF
-- with the secret and the label of the binding, HMAC in hex digits, and the printing of a time.
pub record Primitives : Type 0 where
  pub signature_error : (payload_json signature : List ℕ) → Option LicenseError
  pub payload_json : Payload → List ℕ
  pub sha256_hex : List ℕ → List ℕ
  pub derive_hmac_key : List ℕ → List ℕ
  pub hmac_binding_secret : List ℕ
  pub hmac : (key message : List ℕ) → List ℕ
  pub to_rfc3339 : ℕ → List ℕ

-- parts.join("|")
unfoldable pub join : List (List ℕ) → List ℕ
join [] = []
join (p ∷ []) = p
join (p ∷ q ∷ ps) = p ++ 124 ∷ join (q ∷ ps)

module _ (prims : Primitives) where
  unfoldable pub machine_part : MachineBinding → List ℕ
  machine_part m =
      m.machine_fingerprint
      ++ 58 ∷ (prims.to_rfc3339 m.activated_at ++ 58 ∷ prims.to_rfc3339 m.last_verified)

  -- "clock:" and the time, if there is one.
  unfoldable pub clock_part : Option ℕ → List (List ℕ)
  clock_part none = []
  clock_part (some clock) = (99 ∷ 108 ∷ 111 ∷ 99 ∷ 107 ∷ 58 ∷ prims.to_rfc3339 clock) ∷ []

  unfoldable pub build_hmac_message : List MachineBinding → Option ℕ → List ℕ
  unfolding join machine_part clock_part
  build_hmac_message machines license_clock =
      join (map machine_part machines ++ clock_part license_clock)

  unfoldable pub compute_binding_hmac : List ℕ → List MachineBinding → Option ℕ → List ℕ
  unfolding build_hmac_message
  compute_binding_hmac signature machines license_clock =
      prims.hmac (prims.derive_hmac_key signature) (build_hmac_message machines license_clock)

  unfoldable pub compute_sentinel_hmac : List ℕ → List ℕ → ℕ → List ℕ
  compute_sentinel_hmac license_id fingerprint activated_at =
      prims.hmac prims.hmac_binding_secret
        (license_id ++ 58 ∷ (fingerprint ++ 58 ∷ prims.to_rfc3339 activated_at))

  unfoldable pub verify_sentinel_hmac : SentinelData → Option LicenseError
  unfolding compute_sentinel_hmac bytes_eq
  verify_sentinel_hmac sentinel =
      if not (bytes_eq (compute_sentinel_hmac sentinel.id sentinel.fp sentinel.ts) sentinel.hm)
      then some binding_hmac_invalid
      else none
