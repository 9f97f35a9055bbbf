-- ===== src/Diagnostics/Text/Redaction.antt =====
-- crates/app/src/consumer/stats/diagnostics.rs: proofs about what `safe_diagnostic_text` shows of a
-- text.
use terrasync_rs.Base.{
  ℕ, zero, suc, List, [], ◌∷◌, ◌++◌, Bool, true, false, not, some, some_eq, get_elem?, ◌&&◌, ◌||◌,
  ltb, ◌==◌, if◌then◌else◌, ◌≡◌, ◌≢◌, refl, sym, ◌∙◌, ap, subst, inl, inr, Bool-cases, All, arith,
}
use terrasync_rs.Diagnostics.Text.{
  max_diagnostic_text_bytes, text_len, text_prefix, split_whitespace, lower_char, mapped,
  starts_with, contains, secret_keys, url_mark, redacted, any_contained, secret_key, shown, spaced,
  redact_loop, safe_diagnostic_text,
}
use terrasync_rs.Diagnostics.Text.Search.{
  IsPlain, or_right, or_left, contains-space, mapped-append, contains-sliced, contains-printable,
}

-- A key that is not in the text that replaces a secret, nor in a token that is shown as it is.
record IsHidden (f : ℕ → ℕ) (key : List ℕ) : Type 0 where
  space : f 32 ≡ 32
  replacement : f 65533 ≡ 65533
  plain : All IsPlain key
  mark : contains key (mapped f redacted) ≢ true
  token :
      (t : List ℕ)
      → (contains url_mark t || secret_key t) ≡ false
      → contains key (mapped f t) ≢ true

shown-hides :
    (f : ℕ → ℕ) (key t : List ℕ) → IsHidden f key → contains key (mapped f (shown t)) ≢ true
unfolding shown
shown-hides f key t hidden h = elim (Bool-cases (contains url_mark t || secret_key t)) [
  | inl secret ↦ hidden.mark (rw secret at h)
  | inr clear ↦
      hidden.token t clear
        (contains-printable f key t hidden.replacement hidden.plain (rw clear at h))
]

spaced-hides :
    (f : ℕ → ℕ) (k : ℕ) (ks result t : List ℕ)
    → IsHidden f (k ∷ ks)
    → contains (k ∷ ks) (mapped f result) ≢ true
    → contains (k ∷ ks) (mapped f (spaced result (shown t))) ≢ true
unfolding spaced mapped
spaced-hides f k ks [] t hidden before h = shown-hides f (k ∷ ks) t hidden h
spaced-hides f k ks (c ∷ cs) t hidden before h =
    elim (contains-space k ks (mapped f (c ∷ cs)) (mapped f (shown t)) hidden.plain
      (subst (λ text. contains (k ∷ ks) text ≡ true) pieces h)) [
        | inl left ↦ before left
        | inr right ↦ shown-hides f (k ∷ ks) t hidden right
      ]
  where
    pieces : mapped f ((c ∷ cs) ++ 32 ∷ shown t) ≡ mapped f (c ∷ cs) ++ 32 ∷ mapped f (shown t)
    pieces =
        mapped-append f (c ∷ cs) (32 ∷ shown t)
        ∙ ap (λ d. mapped f (c ∷ cs) ++ d ∷ mapped f (shown t)) hidden.space

if-both : {A : Type 0} (P : A → Type 0) (b : Bool) (x y : A) → P x → P y → P (if b then x else y)
if-both P true x y px py = px
if-both P false x y px py = py

redact_loop-hides :
    (f : ℕ → ℕ) (k : ℕ) (ks result : List ℕ) (ts : List (List ℕ))
    → IsHidden f (k ∷ ks)
    → contains (k ∷ ks) (mapped f result) ≢ true
    → contains (k ∷ ks) (mapped f (redact_loop result ts)) ≢ true
unfolding redact_loop
redact_loop-hides f k ks result [] hidden before = before
redact_loop-hides f k ks result (t ∷ ts) hidden before =
    let hides : List ℕ → Type 0 = λ text. contains (k ∷ ks) (mapped f text) ≢ true in
    let next = spaced result (shown t) in
    let clean = spaced-hides f k ks result t hidden before in
    if-both hides (secret_key t) next _ clean (
      if-both hides (ltb max_diagnostic_text_bytes (text_len next)) next _ clean
        (redact_loop-hides f k ks next ts hidden clean))

safe-hides :
    (f : ℕ → ℕ) (k : ℕ) (ks text : List ℕ)
    → IsHidden f (k ∷ ks)
    → contains (k ∷ ks) (mapped f (safe_diagnostic_text text)) ≡ false
unfolding safe_diagnostic_text text_prefix mapped contains starts_with
safe-hides f k ks text hidden =
    elim (Bool-cases (contains (k ∷ ks) (mapped f (safe_diagnostic_text text)))) [
      | inl found ↦ absurd (
          redact_loop-hides f k ks []
            (split_whitespace (text_prefix text max_diagnostic_text_bytes)) hidden
            (λ e. ground arith) (contains-sliced f (k ∷ ks) _ _ found))
      | inr clear ↦ clear
    ]

unfoldable plain_chars : List ℕ → Bool
plain_chars [] = true
plain_chars (c ∷ cs) = not (c == 32) && not (c == 65533) && plain_chars cs

plain_chars-IsPlain : (key : List ℕ) → plain_chars key ≡ true → All IsPlain key
unfolding plain_chars
plain_chars-IsPlain [] h = tt
plain_chars-IsPlain (c ∷ cs) h =
    ((λ e. ground arith, λ e. ground arith), plain_chars-IsPlain cs (ground arith))

any_contained-get_elem? :
    (keys : List (List ℕ)) (i : ℕ) (key text : List ℕ)
    → get_elem? keys i ≡ some key
    → contains key text ≡ true
    → any_contained keys text ≡ true
unfolding any_contained
any_contained-get_elem? [] i key text e h = absurd (ground arith)
any_contained-get_elem? (x ∷ keys) zero key text e h =
    or_left (contains x text) (any_contained keys text)
      (subst (λ y. contains y text ≡ true) (sym (some_eq e)) h)
any_contained-get_elem? (x ∷ keys) (suc i) key text e h =
    or_right (contains x text) (any_contained keys text)
      (any_contained-get_elem? keys i key text e h)

safe-hides-key :
    (text : List ℕ) (i k : ℕ) (ks : List ℕ)
    → get_elem? secret_keys i ≡ some (k ∷ ks)
    → plain_chars (k ∷ ks) ≡ true
    → contains (k ∷ ks) (mapped lower_char redacted) ≡ false
    → contains (k ∷ ks) (mapped lower_char (safe_diagnostic_text text)) ≡ false
unfolding lower_char secret_key
safe-hides-key text i k ks at plain mark = safe-hides lower_char k ks text (record {
  space = refl;
  replacement = refl;
  plain = plain_chars-IsPlain (k ∷ ks) plain;
  mark = λ found. ground arith;
  token = λ t clear found.
      let listed = any_contained-get_elem? secret_keys i (k ∷ ks) (mapped lower_char t) at found in
      ground arith;
})

mapped-same : (text : List ℕ) → mapped (λ c. c) text ≡ text
unfolding mapped
mapped-same [] = refl
mapped-same (c ∷ cs) = ap (◌∷◌ c) (mapped-same cs)

safe-hides-url : (text : List ℕ) → contains url_mark (safe_diagnostic_text text) ≡ false
unfolding plain_chars contains starts_with mapped
safe-hides-url text =
    ap (contains url_mark) (sym (mapped-same (safe_diagnostic_text text)))
    ∙ safe-hides (λ c. c) 58 (47 ∷ 47 ∷ []) text
        (record {
          space = refl;
          replacement = refl;
          plain = plain_chars-IsPlain url_mark refl;
          mark = λ found. ground arith;
          token = λ t clear found.
              let marked : contains url_mark t ≡ true =
                ap (contains url_mark) (sym (mapped-same t)) ∙ found in
              ground arith;
        })

any_contained-hides :
    (keys : List (List ℕ)) (text : List ℕ)
    → All (λ key. contains key text ≡ false) keys
    → any_contained keys text ≡ false
unfolding any_contained
any_contained-hides [] text h = refl
any_contained-hides (key ∷ keys) text h = rw (h.0) (any_contained-hides keys text h.1)

safe-hides-secret : (text : List ℕ) → secret_key (safe_diagnostic_text text) ≡ false
unfolding secret_key plain_chars contains starts_with mapped lower_char
safe-hides-secret text =
    any_contained-hides secret_keys (mapped lower_char (safe_diagnostic_text text)) (
      safe-hides-key text 0 _ _ refl refl refl,
      (
        safe-hides-key text 1 _ _ refl refl refl,
        (
          safe-hides-key text 2 _ _ refl refl refl,
          (
            safe-hides-key text 3 _ _ refl refl refl,
            (
              safe-hides-key text 4 _ _ refl refl refl,
              (
                safe-hides-key text 5 _ _ refl refl refl,
                (
                  safe-hides-key text 6 _ _ refl refl refl,
                  (safe-hides-key text 7 _ _ refl refl refl, tt),
                ),
              ),
            ),
          ),
        ),
      ),
    )

-- The text that safe_diagnostic_text returns holds no mark of a URL and, in lower case, none of
-- the words that stand for a secret.
pub safe_diagnostic_text-hides :
    (text : List ℕ)
    → (contains url_mark (safe_diagnostic_text text) || secret_key (safe_diagnostic_text text))
      ≡ false
safe_diagnostic_text-hides text = rw (safe-hides-url text) (safe-hides-secret text)
