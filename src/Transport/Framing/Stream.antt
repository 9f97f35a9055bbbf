-- ===== src/Transport/Framing/Stream.antt =====
-- crates/transport/src/quic/framing.rs: proofs about a stream of messages, written and read.
use terrasync_rs.Base.{
  ℕ, zero, suc, ◌+◌, ◌-◌, ◌/◌, ◌%◌, ◌^◌, ◌<◌, true, false, Option, none, some, some_eq, ◌⊎◌, List,
  [], ◌∷◌, ◌++◌, length, length-append, take, drop, take-append, take_all, drop-append, drop_all,
  ltb, ltb→lt, le→ltb-false, leb, le→leb, if-cases, Option-cases, inl, inr, u32, ◌≡◌, refl, sym, ap,
  ◌∙◌, All, arith,
}
use terrasync_rs.Transport.Framing.{
  max_message_size, flag_zstd, compression_threshold, Codec, Written, frame, failed, FrameError,
  serialization_error, Got, finished, message, refused, to_le_bytes, from_le_bytes, framed, smaller,
  write_raw, write_msg, decoded, inflated, read_payload, read_body, read_msg,
}

from_le_bytes-to_le_bytes :
    (n : ℕ)
    → n < 2 ^ 32
    → from_le_bytes (n % 256) (n / 256 % 256) (n / 65536 % 256) (n / 16777216 % 256) ≡ n
unfolding from_le_bytes
from_le_bytes-to_le_bytes n h = omega arith

-- What the source relies on in bincode and zstd: they undo what they did.
pub record CodecLaws {M : Type 0} (codec : Codec M) : Type 0 where
  pub decode-encode : (m : M) (raw : List ℕ) → codec.encode m ≡ some raw → codec.decode raw ≡ some m
  pub decompress-compress :
      (raw compressed : List ℕ)
      → codec.compress raw ≡ some compressed
      → codec.decompress compressed ≡ some raw

module _ {M : Type 0} (codec : Codec M) (laws : CodecLaws codec) where
  read_body-whole :
      (payload rest : List ℕ) (flags total : ℕ)
      → total ≡ suc (length payload)
      → read_body codec total (flags ∷ payload ++ rest) ≡ read_payload codec flags payload rest
  unfolding read_body
  read_body-whole payload rest flags total is =
      let enough : ltb (length (payload ++ rest)) (total - 1) ≡ false =
        le→ltb-false _ _ (omega (arith, is, length-append payload rest)) in
      let taken : take (total - 1) (payload ++ rest) ≡ payload =
        take-append (total - 1) payload rest (omega (arith, is))
        ∙ take_all (total - 1) payload (omega (arith, is)) in
      let left : drop (total - 1) (payload ++ rest) ≡ rest =
        drop-append (total - 1) payload rest (omega (arith, is))
        ∙ ap (λ d. d ++ rest) (drop_all (total - 1) payload (omega (arith, is))) in
      rw (enough, taken, left) refl

  read-framed :
      (payload rest : List ℕ) (flags : ℕ)
      → length payload < max_message_size
      → read_msg codec (framed payload flags ++ rest) ≡ read_payload codec flags payload rest
  unfolding read_msg framed to_le_bytes
  read-framed payload rest flags fits =
      let total = from_le_bytes-to_le_bytes (u32 (1 + length payload)) (omega arith) in
      let low : leb 1 (u32 (1 + length payload)) ≡ true = le→leb _ _ (omega (arith, fits)) in
      let high : leb (u32 (1 + length payload)) max_message_size ≡ true =
        le→leb _ _ (omega (arith, fits)) in
      rw (total, low, high)
        (read_body-whole payload rest flags (u32 (1 + length payload)) (omega (arith, fits)))

  -- What a written frame is read as; a failed write says nothing.
  abbrev Reads : M → List ℕ → Written → Type 0
  Reads m rest w =
      (bytes : List ℕ) → w ≡ frame bytes → read_msg codec (bytes ++ rest) ≡ message m rest

  frame_bytes : List ℕ → Written → List ℕ
  frame_bytes bytes (frame other) = other
  frame_bytes bytes (failed e) = bytes

  frame_eq : (a b : List ℕ) → frame a ≡ frame b → a ≡ b
  unfolding frame_bytes
  frame_eq a b e = ap (frame_bytes a) e

  Reads-framed :
      (m : M) (rest payload : List ℕ) (flags : ℕ)
      → length payload < max_message_size
      → read_payload codec flags payload rest ≡ message m rest
      → Reads m rest (frame (framed payload flags))
  Reads-framed m rest payload flags fits reads bytes e =
      ap (λ b. read_msg codec (b ++ rest)) (sym (frame_eq _ _ e))
      ∙ read-framed payload rest flags fits
      ∙ reads

  Reads-raw :
      (m : M) (rest raw : List ℕ)
      → codec.decode raw ≡ some m
      → length raw < max_message_size
      → Reads m rest (frame (framed raw 0))
  unfolding read_payload decoded
  Reads-raw m rest raw decodes fits = Reads-framed m rest raw 0 fits (rw decodes refl)

  Reads-smaller :
      (m : M) (rest raw : List ℕ) (o : Option (List ℕ))
      → codec.compress raw ≡ o
      → codec.decode raw ≡ some m
      → length raw < max_message_size
      → Reads m rest (smaller raw o)
  unfolding smaller read_payload inflated decoded
  Reads-smaller m rest raw none c decodes fits bytes e = absurd (ground (arith, e))
  Reads-smaller m rest raw (some compressed) c decodes fits bytes e =
      if-cases (Reads m rest) (ltb (length compressed) (length raw)) _ _
        (λ less.
          Reads-framed m rest compressed flag_zstd
            (omega (arith, fits, ltb→lt (length compressed) (length raw) less))
            (let small : ltb max_message_size (length raw) ≡ false =
                le→ltb-false _ _ (omega (arith, fits)) in
              rw (laws.decompress-compress raw compressed c, small, decodes) refl))
        (λ more. Reads-raw m rest raw decodes fits) bytes e

  pub write_msg-read_msg :
      (m : M) (raw rest bytes : List ℕ)
      → codec.encode m ≡ some raw
      → length raw < max_message_size
      → write_msg codec m ≡ frame bytes
      → read_msg codec (bytes ++ rest) ≡ message m rest
  unfolding write_msg write_raw
  write_msg-read_msg m raw rest bytes encodes fits written =
      if-cases (Reads m rest) (leb compression_threshold (length raw)) _ _
        (λ long.
          Reads-smaller m rest raw (codec.compress raw) refl (laws.decode-encode m raw encodes)
            fits)
        (λ short. Reads-raw m rest raw (laws.decode-encode m raw encodes) fits) bytes
        (sym (ap (write_raw codec) encodes) ∙ written)

-- One message after the other, on one stream.
abbrev pub appended : Written → Option (List ℕ) → Option (List ℕ)
appended (frame bytes) (some later) = some (bytes ++ later)
appended (frame bytes) none = none
appended (failed e) later = none

abbrev pub consed : {M : Type 0} → M → Option (List M) → Option (List M)
consed m none = none
consed m (some ms) = some (m ∷ ms)

module _ {M : Type 0} (codec : Codec M) where
  unfoldable pub write_all : List M → Option (List ℕ)
  write_all [] = some []
  write_all (m ∷ ms) = appended (write_msg codec m) (write_all ms)

  abbrev pub read_next : (List ℕ → Option (List M)) → Got M → Option (List M)
  read_next later finished = some []
  read_next later (message m rest) = consed m (later rest)
  read_next later (refused e) = none

  -- The messages of a stream, with fuel for that many and its end.
  unfoldable pub read_all : ℕ → List ℕ → Option (List M)
  read_all zero stream = none
  read_all (suc fuel) stream = read_next (read_all fuel) (read_msg codec stream)

  -- A message whose encoding fits in a frame.
  abbrev pub Fits : M → Type 0
  Fits m = (raw : List ℕ) → codec.encode m ≡ some raw → length raw < max_message_size

module _ {M : Type 0} (codec : Codec M) (laws : CodecLaws codec) where
  written_or :
      (w : Written) → ((bytes : List ℕ) × (w ≡ frame bytes)) ⊎ ((e : FrameError) × (w ≡ failed e))
  written_or (frame bytes) = inl (bytes, refl)
  written_or (failed e) = inr (e, refl)

  encoded_or :
      (m : M) (bytes : List ℕ)
      → write_msg codec m ≡ frame bytes
      → (raw : List ℕ) × (codec.encode m ≡ some raw)
  unfolding write_msg write_raw
  encoded_or m bytes e = elim (Option-cases (codec.encode m)) [
    | inl fails ↦
        absurd
          (let clash : failed serialization_error ≡ frame bytes = rw fails at e in ground arith)
    | inr found ↦ found
  ]

  write_all-cons :
      (m : M) (ms : List M) (bytes : List ℕ)
      → write_all codec (m ∷ ms) ≡ some bytes
      → (first : List ℕ) × (later : List ℕ) × (write_msg codec m ≡ frame first)
        × (write_all codec ms ≡ some later)
        × (bytes ≡ first ++ later)
  unfolding write_all
  write_all-cons m ms bytes e = elim (written_or (write_msg codec m)) [
    | inr (bad, fails) ↦ absurd (let clash : none ≡ some bytes = rw fails at e in ground arith)
    | inl (first, written) ↦ elim (Option-cases (write_all codec ms)) [
      | inl fails ↦
          absurd (let clash : none ≡ some bytes = rw (written, fails) at e in ground arith)
      | inr (later, wrote) ↦
          (first, later, written, wrote, sym (some_eq (rw (written, wrote) at e)))
    ]
  ]

  read_msg-end : read_msg codec [] ≡ finished
  unfolding read_msg
  read_msg-end = refl

  -- Messages whose encodings are shorter than the largest frame, written one after the other, are
  -- read back from the stream as they were, with fuel for more reads than there are messages, if
  -- the codec and the compression undo what they did.
  pub write_all-read_all :
      (ms : List M) (bytes : List ℕ) (fuel : ℕ)
      → write_all codec ms ≡ some bytes
      → All (Fits codec) ms
      → length ms < fuel
      → read_all codec fuel bytes ≡ some ms
  unfolding write_all read_all
  write_all-read_all ms bytes zero e fits enough = absurd (omega arith)
  write_all-read_all [] bytes (suc fuel) e fits enough =
      ap (λ b. read_next codec (read_all codec fuel) (read_msg codec b)) (sym (some_eq e))
      ∙ ap (read_next codec (read_all codec fuel)) read_msg-end
  write_all-read_all (m ∷ ms) bytes (suc fuel) e fits enough =
      let parts = write_all-cons m ms bytes e in
      let encoded = encoded_or m parts.0 parts.2 in
      ap (λ b. read_next codec (read_all codec fuel) (read_msg codec b)) parts.4
      ∙ ap (read_next codec (read_all codec fuel)) (
          write_msg-read_msg codec laws m encoded.0 parts.1 parts.0 encoded.1
            (fits.0 encoded.0 encoded.1) parts.2)
      ∙ ap (consed m) (write_all-read_all ms parts.1 fuel parts.3 fits.1 (omega (arith, enough)))
