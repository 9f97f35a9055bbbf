-- ===== src/Transport/Handshake.antt =====
-- crates/transport/src/message.rs: `FeatureFlags`, `ProtocolHandshake` and their negotiation. The
-- two reasons of a rejection are constructors with the versions that their texts name.
mod Examples
use terrasync_rs.Base.{
  ℕ, ◌≤◌, ◌<◌, ◌≡◌, ◌↔◌, ◌⊎◌, refl, sym, ap, ◌∙◌, inl, inr, Bool, true, false, ◌&&◌, ltb,
  if◌then◌else◌, Bool-cases, ltb-false, ltb→lt, le→ltb-false, subst, arith,
}

abbrev pub protocol_version : ℕ
protocol_version = 12

abbrev pub min_supported_protocol_version : ℕ
min_supported_protocol_version = 12

pub data HashAlgorithm : Type 0 where
  blake3 : HashAlgorithm

pub record FeatureFlags : Type 0 where
  pub delta : Bool
  pub acl : Bool
  pub delete : Bool
  pub resume : Bool
  pub xattr : Bool
  pub rename : Bool
  pub compression : Bool

abbrev pub current_features : FeatureFlags
current_features = record {
  delta = true;
  acl = true;
  delete = true;
  resume = true;
  xattr = false;
  rename = false;
  compression = false;
}

unfoldable pub intersect : FeatureFlags → FeatureFlags → FeatureFlags
intersect self remote = record {
  delta = self.delta && remote.delta;
  acl = self.acl && remote.acl;
  delete = self.delete && remote.delete;
  resume = self.resume && remote.resume;
  xattr = false;
  rename = false;
  compression = false;
}

pub record ProtocolHandshake : Type 0 where
  pub version : ℕ
  pub min_supported_version : ℕ
  pub features : FeatureFlags
  pub hash_algorithm : HashAlgorithm

abbrev pub current : ProtocolHandshake
current = record {
  version = protocol_version;
  min_supported_version = min_supported_protocol_version;
  features = current_features;
  hash_algorithm = blake3;
}

pub data HandshakeResult : Type 0 where
  accepted : (features : FeatureFlags) (copy_tags : Bool) → HandshakeResult
  peer_too_old : (version supported : ℕ) → HandshakeResult
  local_too_old : (version supported : ℕ) → HandshakeResult

unfoldable pub negotiate : ProtocolHandshake → ProtocolHandshake → HandshakeResult
unfolding intersect
negotiate self remote =
    if ltb remote.version self.min_supported_version
    then peer_too_old remote.version self.min_supported_version
    else if ltb self.version remote.min_supported_version
    then local_too_old self.version remote.min_supported_version
    else accepted (intersect self.features remote.features) false

-- Each end is new enough for the other.
abbrev pub IsCompatible : ProtocolHandshake → ProtocolHandshake → Type 0
IsCompatible a b = (a.min_supported_version ≤ b.version) × (b.min_supported_version ≤ a.version)

-- A feature that is on exactly if both ends have it.
abbrev pub IsBoth : Bool → Bool → Bool → Type 0
IsBoth a b c = (c ≡ true) ↔ ((a ≡ true) × (b ≡ true))

-- Of the features that this version implements those of both ends, and none of the reserved ones.
abbrev pub IsShared : FeatureFlags → FeatureFlags → FeatureFlags → Type 0
IsShared a b f =
    IsBoth a.delta b.delta f.delta
    × IsBoth a.acl b.acl f.acl
    × IsBoth a.delete b.delete f.delete
    × IsBoth a.resume b.resume f.resume
    × (f.xattr ≡ false)
    × (f.rename ≡ false)
    × (f.compression ≡ false)

and-IsBoth : (a b : Bool) → IsBoth a b (a && b)
and-IsBoth true true = (λ h. (refl, refl), λ h. refl)
and-IsBoth true false = (λ h. absurd (ground arith), λ h. h.1)
and-IsBoth false true = (λ h. absurd (ground arith), λ h. h.0)
and-IsBoth false false = (λ h. absurd (ground arith), λ h. h.0)

IsBoth-and : (a b c : Bool) → IsBoth a b c → (a && b) ≡ c
IsBoth-and true true c h = sym (h.1 (refl, refl))
IsBoth-and true false true h = (h.0 refl).1
IsBoth-and false true true h = (h.0 refl).0
IsBoth-and false false true h = (h.0 refl).0
IsBoth-and true false false h = refl
IsBoth-and false true false h = refl
IsBoth-and false false false h = refl

intersect-IsShared : (a b : FeatureFlags) → IsShared a b (intersect a b)
unfolding intersect
intersect-IsShared a b = (
  and-IsBoth a.delta b.delta,
  and-IsBoth a.acl b.acl,
  and-IsBoth a.delete b.delete,
  and-IsBoth a.resume b.resume,
  refl,
  refl,
  refl,
)

IsShared-intersect : (a b f : FeatureFlags) → IsShared a b f → intersect a b ≡ f
unfolding intersect
IsShared-intersect a b f h =
    rw
      (
        IsBoth-and a.delta b.delta f.delta h.0,
        IsBoth-and a.acl b.acl f.acl h.1,
        IsBoth-and a.delete b.delete f.delete h.2,
        IsBoth-and a.resume b.resume f.resume h.3,
        h.4,
        h.5,
        h.6,
      )
      refl

features_of : FeatureFlags → HandshakeResult → FeatureFlags
features_of f (accepted g copy_tags) = g
features_of f (peer_too_old v s) = f
features_of f (local_too_old v s) = f

negotiate-accepted :
    (a b : ProtocolHandshake) (f : FeatureFlags)
    → (negotiate a b ≡ accepted f false)
      ↔ (IsCompatible a b × (intersect a.features b.features ≡ f))
unfolding negotiate features_of
negotiate-accepted a b f = elim (Bool-cases (ltb b.version a.min_supported_version)) [
  | inl old ↦ (
    λ h. absurd (ground arith),
    λ c. absurd (
        let below = ltb→lt b.version a.min_supported_version old in
        let above = c.0.0 in omega arith),
  )
  | inr recent ↦ elim (Bool-cases (ltb a.version b.min_supported_version)) [
    | inl old ↦ (
      λ h. absurd (ground arith),
      λ c. absurd (
          let below = ltb→lt a.version b.min_supported_version old in
          let above = c.0.1 in omega arith),
    )
    | inr new ↦ (
      λ h. (
        (
          ltb-false b.version a.min_supported_version recent,
          ltb-false a.version b.min_supported_version new,
        ),
        ap (features_of f) (rw (recent, new) at h),
      ),
      λ c. rw (recent, new, negotiate) (ap (λ g. accepted g false) c.1),
    )
  ]
]

-- A negotiation accepts with given features, and without copying tags, exactly if each end's
-- version is at least the oldest one that the other supports, delta, acl, delete and resume are
-- each on exactly if both ends have them on, and xattr, rename and compression are off.
pub negotiate_iff :
    (a b : ProtocolHandshake) (f : FeatureFlags)
    → (negotiate a b ≡ accepted f false) ↔ (IsCompatible a b × IsShared a.features b.features f)
negotiate_iff a b f = (
  λ h.
      let c = (negotiate-accepted a b f).0 h in
      (c.0, subst (IsShared a.features b.features) c.1 (intersect-IsShared a.features b.features)),
  λ c. (negotiate-accepted a b f).1 (c.0, IsShared-intersect a.features b.features f c.1),
)

and_comm : (x y : Bool) → (x && y) ≡ (y && x)
and_comm x y = ground arith

intersect_comm : (f g : FeatureFlags) → intersect f g ≡ intersect g f
unfolding intersect
intersect_comm f g =
    rw
      (
        and_comm f.delta g.delta,
        and_comm f.acl g.acl,
        and_comm f.delete g.delete,
        and_comm f.resume g.resume,
      )
      refl

-- The negotiation does not depend on the end that runs it: if one end accepts the other with
-- given features, the other accepts it with the same features.
pub negotiate_comm :
    (a b : ProtocolHandshake) (f : FeatureFlags)
    → negotiate a b ≡ accepted f false
    → negotiate b a ≡ accepted f false
negotiate_comm a b f h =
    let ((ab, ba), same) = (negotiate-accepted a b f).0 h in
    (negotiate-accepted b a f).1 ((ba, ab), intersect_comm b.features a.features ∙ same)
