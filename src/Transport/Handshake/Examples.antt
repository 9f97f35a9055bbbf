-- ===== src/Transport/Handshake/Examples.antt =====
-- Instances of the theorems about the handshake, for this version and a newer one.
use terrasync_rs.Base.{◌≡◌, ◌↔◌, refl, false}
use terrasync_rs.Transport.Handshake.{
  ProtocolHandshake, current, current_features, negotiate, accepted, IsCompatible, IsShared,
  negotiate_iff, negotiate_comm,
}

abbrev newer : ProtocolHandshake
newer = record current { version = 13 }

negotiate_iff_example :
    (negotiate current newer ≡ accepted current_features false)
    ↔ (IsCompatible current newer × IsShared current_features current_features current_features)
negotiate_iff_example = negotiate_iff current newer current_features

negotiate_comm_example : negotiate newer current ≡ accepted current_features false
unfolding negotiate
negotiate_comm_example = negotiate_comm current newer current_features refl
