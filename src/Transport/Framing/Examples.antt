-- ===== src/Transport/Framing/Examples.antt =====
-- Runs and instances of the theorems about crates/transport/src/quic/framing.rs.
use terrasync_rs.Base.{ℕ, some, some_eq, List, [], ◌∷◌, length, ◌<◌, ◌≡◌, refl, sym, subst, arith}
use terrasync_rs.Transport.Framing.{Codec, write_msg, read_msg, refused, serialization_error}
use terrasync_rs.Transport.Framing.Stream.{CodecLaws, write_all, read_all, write_all-read_all}

-- A message is its bytes, and nothing gets smaller.
abbrev bytes_codec : Codec (List ℕ)
bytes_codec = record {
  encode = λ m. some m;
  decode = λ raw. some raw;
  compress = λ raw. some raw;
  decompress = λ raw. some raw;
}

bytes_codec-laws : CodecLaws bytes_codec
bytes_codec-laws = record {
  decode-encode = λ m raw e. sym e;
  decompress-compress = λ raw compressed e. sym e;
}

abbrev two : List (List ℕ)
two = (7 ∷ []) ∷ [] ∷ []

abbrev wire : List ℕ
wire = 2 ∷ 0 ∷ 0 ∷ 0 ∷ 0 ∷ 7 ∷ 1 ∷ 0 ∷ 0 ∷ 0 ∷ 0 ∷ []

write_all-read_all_example : read_all bytes_codec 3 wire ≡ some two
unfolding write_all write_msg
write_all-read_all_example =
    write_all-read_all bytes_codec bytes_codec-laws two wire 3 refl
      (
        λ raw e. subst (λ r. length r < 268435456) (some_eq e) (omega arith),
        (λ raw e. subst (λ r. length r < 268435456) (some_eq e) (omega arith), tt),
      )
      (omega arith)

-- A frame of no length is refused.
no_length : read_msg bytes_codec (0 ∷ 0 ∷ 0 ∷ 0 ∷ []) ≡ refused serialization_error
unfolding read_msg
no_length = refl
