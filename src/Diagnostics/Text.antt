-- ===== src/Diagnostics/Text.antt =====
-- crates/app/src/consumer/stats/diagnostics.rs: `safe_diagnostic_text`, `safe_diagnostic_label` and
-- `text_prefix`. A text is the list of its characters, each a Unicode scalar value.
pub mod Search
pub mod Redaction
use terrasync_rs.Base.{
  ℕ, zero, suc, ◌+◌, ◌-◌, ◌≤◌, min, List, [], ◌∷◌, ◌++◌, Bool, true, false, ◌&&◌, ◌||◌, ltb, leb,
  leb→le, ◌==◌, if◌then◌else◌, ◌∙◌, ap, inl, inr, Bool-cases, arith,
}

abbrev pub max_diagnostic_text_bytes : ℕ
max_diagnostic_text_bytes = 2048

abbrev pub max_diagnostic_label_bytes : ℕ
max_diagnostic_label_bytes = 128

-- char::len_utf8
abbrev pub char_len : ℕ → ℕ
char_len c = if ltb c 128 then 1 else if ltb c 2048 then 2 else if ltb c 65536 then 3 else 4

-- str::len: the bytes of the UTF-8 text.
abbrev pub text_len : List ℕ → ℕ
text_len [] = 0
text_len (c ∷ cs) = char_len c + text_len cs

-- str::is_char_boundary
unfoldable pub is_char_boundary : List ℕ → ℕ → Bool
is_char_boundary [] n = n == 0
is_char_boundary (c ∷ cs) n =
    let rest = is_char_boundary cs (n - char_len c) in n == 0 || (leb (char_len c) n && rest)

-- `end -= 1` until a character starts there; it stops at 0 at the latest.
unfoldable pub boundary : List ℕ → ℕ → ℕ
boundary text zero = 0
boundary text (suc n) =
    let earlier = boundary text n in if is_char_boundary text (suc n) then suc n else earlier

-- The slice `&text[..end]`, for an `end` at which a character starts.
unfoldable pub sliced : List ℕ → ℕ → List ℕ
sliced [] n = []
sliced (c ∷ cs) n =
    let rest = sliced cs (n - char_len c) in if leb (char_len c) n then c ∷ rest else []

unfoldable pub text_prefix : List ℕ → ℕ → List ℕ
unfolding boundary
text_prefix text limit = sliced text (boundary text (min (text_len text) limit))

-- char::is_whitespace
unfoldable pub is_whitespace : ℕ → Bool
is_whitespace c =
    (leb 9 c && leb c 13)
    || c == 32
    || c == 133
    || c == 160
    || c == 5760
    || (leb 8192 c && leb c 8202)
    || c == 8232
    || c == 8233
    || c == 8239
    || c == 8287
    || c == 12288

-- char::is_control
unfoldable pub is_control : ℕ → Bool
is_control c = leb c 31 || (leb 127 c && leb c 159)

emitted : List ℕ → List (List ℕ) → List (List ℕ)
emitted [] rest = rest
emitted (c ∷ cs) rest = (c ∷ cs) ∷ rest

-- The characters up to the first white space, and the tokens behind it.
tokens : List ℕ → List ℕ × List (List ℕ)
unfolding emitted
tokens [] = ([], [])
tokens (c ∷ cs) =
    let later = tokens cs in
    if is_whitespace c then ([], emitted later.0 later.1) else (c ∷ later.0, later.1)

-- str::split_whitespace
unfoldable pub split_whitespace : List ℕ → List (List ℕ)
unfolding tokens
split_whitespace text = emitted (tokens text).0 (tokens text).1

-- char::to_ascii_lowercase
unfoldable pub lower_char : ℕ → ℕ
lower_char c = if leb 65 c && leb c 90 then c + 32 else c

unfoldable pub mapped : (ℕ → ℕ) → List ℕ → List ℕ
mapped f [] = []
mapped f (c ∷ cs) = f c ∷ mapped f cs

unfoldable pub starts_with : List ℕ → List ℕ → Bool
starts_with [] text = true
starts_with (k ∷ ks) [] = false
starts_with (k ∷ ks) (c ∷ cs) = k == c && starts_with ks cs

-- str::contains
unfoldable pub contains : List ℕ → List ℕ → Bool
unfolding starts_with
contains key [] = starts_with key []
contains key (c ∷ cs) = starts_with key (c ∷ cs) || contains key cs

-- "password", "passwd", "secret", "token", "credential", "authorization", "access_key",
-- "secret_key"
abbrev pub secret_keys : List (List ℕ)
secret_keys =
    (112 ∷ 97 ∷ 115 ∷ 115 ∷ 119 ∷ 111 ∷ 114 ∷ 100 ∷ [])
    ∷ (112 ∷ 97 ∷ 115 ∷ 115 ∷ 119 ∷ 100 ∷ [])
    ∷ (115 ∷ 101 ∷ 99 ∷ 114 ∷ 101 ∷ 116 ∷ [])
    ∷ (116 ∷ 111 ∷ 107 ∷ 101 ∷ 110 ∷ [])
    ∷ (99 ∷ 114 ∷ 101 ∷ 100 ∷ 101 ∷ 110 ∷ 116 ∷ 105 ∷ 97 ∷ 108 ∷ [])
    ∷ (97 ∷ 117 ∷ 116 ∷ 104 ∷ 111 ∷ 114 ∷ 105 ∷ 122 ∷ 97 ∷ 116 ∷ 105 ∷ 111 ∷ 110 ∷ [])
    ∷ (97 ∷ 99 ∷ 99 ∷ 101 ∷ 115 ∷ 115 ∷ 95 ∷ 107 ∷ 101 ∷ 121 ∷ [])
    ∷ (115 ∷ 101 ∷ 99 ∷ 114 ∷ 101 ∷ 116 ∷ 95 ∷ 107 ∷ 101 ∷ 121 ∷ [])
    ∷ []

-- "://"
abbrev pub url_mark : List ℕ
url_mark = 58 ∷ 47 ∷ 47 ∷ []

-- "[redacted]"
abbrev pub redacted : List ℕ
redacted = 91 ∷ 114 ∷ 101 ∷ 100 ∷ 97 ∷ 99 ∷ 116 ∷ 101 ∷ 100 ∷ 93 ∷ []

unfoldable pub any_contained : List (List ℕ) → List ℕ → Bool
any_contained [] text = false
any_contained (key ∷ keys) text = contains key text || any_contained keys text

unfoldable pub secret_key : List ℕ → Bool
unfolding any_contained mapped lower_char
secret_key token = any_contained secret_keys (mapped lower_char token)

unfoldable pub printable : ℕ → ℕ
printable c = if is_control c then 65533 else c

unfoldable pub shown : List ℕ → List ℕ
unfolding mapped
shown token =
    if contains url_mark token || secret_key token then redacted else mapped printable token

-- `result` with the next piece behind a space, the first one without.
unfoldable pub spaced : List ℕ → List ℕ → List ℕ
spaced [] piece = piece
spaced (c ∷ cs) piece = (c ∷ cs) ++ 32 ∷ piece

unfoldable pub redact_loop : List ℕ → List (List ℕ) → List ℕ
unfolding spaced shown
redact_loop result [] = result
redact_loop result (token ∷ rest) =
    let next = spaced result (shown token) in
    let later = redact_loop next rest in
    if secret_key token
    then next
    else if ltb max_diagnostic_text_bytes (text_len next)
    then next
    else later

unfoldable pub safe_diagnostic_text : List ℕ → List ℕ
unfolding text_prefix split_whitespace redact_loop
safe_diagnostic_text text =
    text_prefix (redact_loop [] (split_whitespace (text_prefix text max_diagnostic_text_bytes)))
      max_diagnostic_text_bytes

unfoldable pub safe_diagnostic_label : List ℕ → List ℕ
unfolding text_prefix safe_diagnostic_text
safe_diagnostic_label text = text_prefix (safe_diagnostic_text text) max_diagnostic_label_bytes

sliced_len : (text : List ℕ) (n : ℕ) → text_len (sliced text n) ≤ n
unfolding sliced
sliced_len [] n = omega arith
sliced_len (c ∷ cs) n = elim (Bool-cases (leb (char_len c) n)) [
  | inl fits ↦ rw (fits) (omega (arith, sliced_len cs (n - char_len c), leb→le (char_len c) n fits))
  | inr over ↦ rw (over) (omega arith)
]

boundary-le : (text : List ℕ) (n : ℕ) → boundary text n ≤ n
unfolding boundary
boundary-le text zero = omega arith
boundary-le text (suc n) = elim (Bool-cases (is_char_boundary text (suc n))) [
  | inl starts ↦ rw (starts) (omega arith)
  | inr inside ↦ rw (inside) (omega (arith, boundary-le text n))
]

pub text_prefix_len : (text : List ℕ) (limit : ℕ) → text_len (text_prefix text limit) ≤ limit
unfolding text_prefix
text_prefix_len text limit = omega (
  arith,
  sliced_len text (boundary text (min (text_len text) limit)),
  boundary-le text (min (text_len text) limit),
)
