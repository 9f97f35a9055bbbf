-- ===== src/Transport/Framing.antt =====
-- crates/transport/src/quic/framing.rs: messages as frames of a stream. bincode and zstd are the
-- parameter `Codec`; a stream is the list of its bytes up to its end, and writing does not fail.
pub mod Stream
mod Examples
use terrasync_rs.Base.{
  ℕ, zero, suc, ◌+◌, ◌-◌, ◌*◌, ◌/◌, ◌%◌, ◌^◌, ◌≤◌, ◌<◌, Bool, true, false, not, ◌&&◌, Option, none,
  some, List, [], ◌∷◌, ◌++◌, length, take, drop, ltb, leb, ◌==◌, if◌then◌else◌, u32, ◌≡◌, refl,
  arith,
}

abbrev pub max_message_size : ℕ
max_message_size = 256 * 1024 * 1024

abbrev pub compression_threshold : ℕ
compression_threshold = 1024

abbrev pub flag_zstd : ℕ
flag_zstd = 1

-- The messages' codec and the compression, each of which may fail.
pub record Codec (M : Type 0) : Type 0 where
  pub encode : M → Option (List ℕ)
  pub decode : List ℕ → Option M
  pub compress : List ℕ → Option (List ℕ)
  pub decompress : List ℕ → Option (List ℕ)

pub data FrameError : Type 0 where
  serialization_error read_error : FrameError

pub data Written : Type 0 where
  frame : List ℕ → Written
  failed : FrameError → Written

pub data Got (M : Type 0) : Type 0 where
  finished : Got M
  message : M → List ℕ → Got M
  refused : FrameError → Got M

-- u32::to_le_bytes and from_le_bytes
unfoldable pub to_le_bytes : ℕ → List ℕ
to_le_bytes n = n % 256 ∷ n / 256 % 256 ∷ n / 65536 % 256 ∷ n / 16777216 % 256 ∷ []

unfoldable pub from_le_bytes : (a b c d : ℕ) → ℕ
from_le_bytes a b c d = a + 256 * b + 65536 * c + 16777216 * d

-- The length, the flags and the payload.
unfoldable pub framed : List ℕ → ℕ → List ℕ
unfolding to_le_bytes
framed payload flags = to_le_bytes (u32 (1 + length payload)) ++ flags ∷ payload

unfoldable pub smaller : List ℕ → Option (List ℕ) → Written
unfolding framed
smaller raw none = failed serialization_error
smaller raw (some compressed) =
    if ltb (length compressed) (length raw)
    then frame (framed compressed flag_zstd)
    else frame (framed raw 0)

module _ {M : Type 0} (codec : Codec M) where
  unfoldable pub write_raw : Option (List ℕ) → Written
  unfolding smaller framed
  write_raw none = failed serialization_error
  write_raw (some raw) =
      if leb compression_threshold (length raw)
      then smaller raw (codec.compress raw)
      else frame (framed raw 0)

  unfoldable pub write_msg : M → Written
  unfolding write_raw
  write_msg m = write_raw (codec.encode m)

  unfoldable pub decoded : Option M → List ℕ → Got M
  decoded none rest = refused serialization_error
  decoded (some m) rest = message m rest

  unfoldable pub inflated : Option (List ℕ) → List ℕ → Got M
  unfolding decoded
  inflated none rest = refused serialization_error
  inflated (some raw) rest =
      if ltb max_message_size (length raw)
      then refused serialization_error
      else decoded (codec.decode raw) rest

  -- `flags & FLAG_ZSTD != 0`
  unfoldable pub read_payload : ℕ → List ℕ → List ℕ → Got M
  unfolding inflated decoded
  read_payload flags payload rest =
      if not (flags % 2 == 0)
      then inflated (codec.decompress payload) rest
      else decoded (codec.decode payload) rest

  -- The stream behind the length.
  unfoldable pub read_body : ℕ → List ℕ → Got M
  unfolding read_payload
  read_body total_len [] = refused read_error
  read_body total_len (flags ∷ stream) =
      if ltb (length stream) (total_len - 1)
      then refused read_error
      else read_payload flags (take (total_len - 1) stream) (drop (total_len - 1) stream)

  -- A stream that ends within the length counts as finished.
  unfoldable pub read_msg : List ℕ → Got M
  unfolding read_body from_le_bytes
  read_msg [] = finished
  read_msg (a ∷ []) = finished
  read_msg (a ∷ b ∷ []) = finished
  read_msg (a ∷ b ∷ c ∷ []) = finished
  read_msg (a ∷ b ∷ c ∷ d ∷ stream) =
      let total_len = from_le_bytes a b c d in
      if not (leb 1 total_len && leb total_len max_message_size)
      then refused serialization_error
      else read_body total_len stream
