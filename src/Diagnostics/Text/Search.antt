-- ===== src/Diagnostics/Text/Search.antt =====
-- crates/app/src/consumer/stats/diagnostics.rs: where a key can be found in a text that is put
-- together, cut or made printable.
use terrasync_rs.Base.{
  ℕ, ◌-◌, List, [], ◌∷◌, ◌++◌, Bool, true, false, ◌&&◌, ◌||◌, leb, ◌==◌, ◌≡◌, ◌≢◌, ◌⊎◌, refl, ap,
  inl, inr, Bool-cases, All, arith,
}
use terrasync_rs.Diagnostics.Text.{
  char_len, sliced, mapped, starts_with, contains, is_control, printable,
}

-- Not a character that the redaction puts in itself, the space between the tokens or U+FFFD.
abbrev pub IsPlain : ℕ → Type 0
IsPlain c = (c ≢ 32) × (c ≢ 65533)

or_true : (a b : Bool) → (a || b) ≡ true → (a ≡ true) ⊎ (b ≡ true)
or_true true b h = inl refl
or_true false b h = inr h

pub or_right : (a b : Bool) → b ≡ true → (a || b) ≡ true
or_right true b h = refl
or_right false b h = h

pub or_left : (a b : Bool) → a ≡ true → (a || b) ≡ true
or_left true b h = refl
or_left false b h = absurd (ground arith)

starts_with-space :
    (key a b : List ℕ)
    → All IsPlain key
    → starts_with key (a ++ 32 ∷ b) ≡ true
    → starts_with key a ≡ true
unfolding starts_with
starts_with-space [] a b plain h = refl
starts_with-space (k ∷ ks) [] b plain h = absurd (plain.0.0 (ground arith))
starts_with-space (k ∷ ks) (c ∷ cs) b plain h = ground (arith, starts_with-space ks cs b plain.1)

pub contains-space :
    (k : ℕ) (ks a b : List ℕ)
    → All IsPlain (k ∷ ks)
    → contains (k ∷ ks) (a ++ 32 ∷ b) ≡ true
    → (contains (k ∷ ks) a ≡ true) ⊎ (contains (k ∷ ks) b ≡ true)
unfolding contains starts_with
contains-space k ks [] b plain h =
    elim (or_true (starts_with (k ∷ ks) (32 ∷ b)) (contains (k ∷ ks) b) h) [
      | inl starts ↦ absurd (plain.0.0 (ground arith))
      | inr later ↦ inr later
    ]
contains-space k ks (c ∷ cs) b plain h =
    elim (or_true (starts_with (k ∷ ks) (c ∷ cs ++ 32 ∷ b)) (contains (k ∷ ks) (cs ++ 32 ∷ b)) h) [
      | inl starts ↦ inl (
          or_left (starts_with (k ∷ ks) (c ∷ cs)) (contains (k ∷ ks) cs)
            (starts_with-space (k ∷ ks) (c ∷ cs) b plain starts))
      | inr later ↦ elim (contains-space k ks cs b plain later) [
        | inl left ↦ inl (or_right (starts_with (k ∷ ks) (c ∷ cs)) (contains (k ∷ ks) cs) left)
        | inr right ↦ inr right
      ]
    ]

pub mapped-append : (f : ℕ → ℕ) (a b : List ℕ) → mapped f (a ++ b) ≡ mapped f a ++ mapped f b
unfolding mapped
mapped-append f [] b = refl
mapped-append f (c ∷ cs) b = ap (◌∷◌ (f c)) (mapped-append f cs b)

starts_with-sliced :
    (f : ℕ → ℕ) (key a : List ℕ) (n : ℕ)
    → starts_with key (mapped f (sliced a n)) ≡ true
    → starts_with key (mapped f a) ≡ true
unfolding starts_with mapped sliced
starts_with-sliced f [] a n h = refl
starts_with-sliced f (k ∷ ks) [] n h = h
starts_with-sliced f (k ∷ ks) (c ∷ cs) n h = elim (Bool-cases (leb (char_len c) n)) [
  | inl fits ↦
      let found : (k == f c && starts_with ks (mapped f (sliced cs (n - char_len c)))) ≡ true =
        rw fits at h in
      ground (arith, starts_with-sliced f ks cs (n - char_len c))
  | inr over ↦
      absurd (let none_left : starts_with (k ∷ ks) [] ≡ true = rw over at h in ground arith)
]

pub contains-sliced :
    (f : ℕ → ℕ) (key a : List ℕ) (n : ℕ)
    → contains key (mapped f (sliced a n)) ≡ true
    → contains key (mapped f a) ≡ true
unfolding contains mapped sliced starts_with
contains-sliced f key [] n h = h
contains-sliced f key (c ∷ cs) n h = elim (Bool-cases (leb (char_len c) n)) [
  | inl fits ↦
      elim (or_true (starts_with key (f c ∷ mapped f (sliced cs (n - char_len c))))
        (contains key (mapped f (sliced cs (n - char_len c)))) (rw fits at h)) [
          | inl starts ↦
              or_left (starts_with key (f c ∷ mapped f cs)) (contains key (mapped f cs))
                (starts_with-sliced f key (c ∷ cs) n (rw fits starts))
          | inr later ↦
              or_right (starts_with key (f c ∷ mapped f cs)) (contains key (mapped f cs))
                (contains-sliced f key cs (n - char_len c) later)
        ]
  | inr over ↦
      or_left (starts_with key (f c ∷ mapped f cs)) (contains key (mapped f cs))
        (nothing key (rw over at h))
]
  where
    nothing :
        (key : List ℕ) → starts_with key [] ≡ true → starts_with key (f c ∷ mapped f cs) ≡ true
    nothing [] e = refl
    nothing (k ∷ ks) e = absurd (ground arith)

starts_with-printable :
    (f : ℕ → ℕ) (key a : List ℕ)
    → f 65533 ≡ 65533
    → All IsPlain key
    → starts_with key (mapped f (mapped printable a)) ≡ true
    → starts_with key (mapped f a) ≡ true
unfolding starts_with mapped printable
starts_with-printable f [] a fixed plain h = refl
starts_with-printable f (k ∷ ks) [] fixed plain h = h
starts_with-printable f (k ∷ ks) (c ∷ cs) fixed plain h = elim (Bool-cases (is_control c)) [
  | inl control ↦ absurd (
      plain.0.1 (
        let hit : (k == f 65533 && starts_with ks (mapped f (mapped printable cs))) ≡ true =
          rw control at h in
        ground arith))
  | inr kept ↦
      let hit : (k == f c && starts_with ks (mapped f (mapped printable cs))) ≡ true =
        rw kept at h in
      ground (arith, starts_with-printable f ks cs fixed plain.1)
]

pub contains-printable :
    (f : ℕ → ℕ) (key a : List ℕ)
    → f 65533 ≡ 65533
    → All IsPlain key
    → contains key (mapped f (mapped printable a)) ≡ true
    → contains key (mapped f a) ≡ true
unfolding contains mapped
contains-printable f key [] fixed plain h = h
contains-printable f key (c ∷ cs) fixed plain h =
    elim (or_true (starts_with key (mapped f (mapped printable (c ∷ cs))))
      (contains key (mapped f (mapped printable cs))) h) [
        | inl starts ↦
            or_left (starts_with key (mapped f (c ∷ cs))) (contains key (mapped f cs))
              (starts_with-printable f key (c ∷ cs) fixed plain starts)
        | inr later ↦
            or_right (starts_with key (mapped f (c ∷ cs))) (contains key (mapped f cs))
              (contains-printable f key cs fixed plain later)
      ]
