-- ===== src/Licensing/Verify/Checks.antt =====
-- crates/licensing/src/verify.rs and clock.rs: lemmas on single checks that succeed.
use terrasync_rs.Base.{
  ℕ, ◌≤◌, ◌≡◌, refl, ap, sym, ◌∙◌, true, List, Option, none, some, ltb, Bool-cases, ltb-false, inl,
  inr, arith, bytes_eq, some_eq, Option-cases, [], ◌∷◌, subst,
}
use terrasync_rs.Licensing.{LicenseError, Result, ok, err, MachineBinding, Machine, Outcome, guard}
use terrasync_rs.Licensing.Clock.{from_persisted, advance, start_clock, initialize}
use terrasync_rs.Licensing.Verify.{is_bound, touch}

-- A clock that was kept is not ahead of the new time.
unfoldable pub NotBefore : Option ℕ → ℕ → Type 0
NotBefore none now = Unit
NotBefore (some kept) now = kept ≤ now

-- A touched binding is still there.
pub touch-is_bound :
    (fp : List ℕ) (now : ℕ) (ms ns : List MachineBinding)
    → touch fp now ms ≡ some ns
    → is_bound fp ns ≡ true
unfolding touch is_bound
touch-is_bound fp now [] ns h = absurd (ground arith)
touch-is_bound fp now (m ∷ ms) ns h = elim (Bool-cases (bytes_eq m.machine_fingerprint fp)) [
  | inl same ↦ subst (λ l. is_bound fp l ≡ true) (some_eq (rw same at h)) (rw same refl)
  | inr other ↦ elim (Option-cases (touch fp now ms)) [
    | inl nothing ↦ absurd (ground arith)
    | inr (l, found) ↦
        subst (λ k. is_bound fp k ≡ true) (some_eq (rw (other, found) at h))
          (rw other (touch-is_bound fp now ms l found))
  ]
]

module _ {A : Type 0} where
  pub err-ok :
      (e : LicenseError) (a : A) (m n : Machine)
      → (r : Outcome A) → r ≡ (err e, m)
      → r ≡ (ok a, n)
      → ⊥
  err-ok e a m n r x y = ground (arith, ap (λ o. o.0) (sym x ∙ y))

  pub guard-ok :
      (e : Option LicenseError) (m n : Machine) (rest : Outcome A) (a : A)
      → guard e m rest ≡ (ok a, n)
      → (e ≡ none) × (rest ≡ (ok a, n))
  unfolding guard
  guard-ok none m n rest a h = (refl, h)
  guard-ok (some e) m n rest a h = absurd (err-ok e a m n (err e, m) refl h)

ok_or : {A : Type 0} → A → Result A → A
ok_or a (ok b) = b
ok_or a (err e) = a

pub ok_eq : {A : Type 0} (a b : A) → ok a ≡ ok b → a ≡ b
unfolding ok_or
ok_eq a b h = ap (ok_or a) h

pub advance-ok : (later clock now : ℕ) → advance later clock ≡ ok now → clock ≤ now
unfolding advance
advance-ok later clock now h = elim (Bool-cases (ltb later clock)) [
  | inl back ↦ absurd (ground arith)
  | inr forth ↦
      let same : later ≡ now = ok_eq later now (rw forth at h) in
      omega (arith, ltb-false later clock forth)
]

-- The clock at the start is the system's time, and the clock that was kept is not ahead of it.
pub start_clock-ok :
    (now clock : ℕ) (kept : Option ℕ)
    → start_clock now kept ≡ ok clock
    → (clock ≡ now) × NotBefore kept clock
unfolding start_clock NotBefore
start_clock-ok now clock none h = (sym (ok_eq now clock (unfold initialize in h)), tt)
start_clock-ok now clock (some kept) h = elim (Bool-cases (ltb now kept)) [
  | inl back ↦ absurd (unfold from_persisted in ground arith)
  | inr forth ↦
      let same : now ≡ clock = ok_eq now clock (unfold from_persisted in rw forth at h) in
      (sym same, omega (arith, ltb-false now kept forth))
]

pub NotBefore-mono : (kept : Option ℕ) (a b : ℕ) → a ≤ b → NotBefore kept a → NotBefore kept b
unfolding NotBefore
NotBefore-mono none a b h n = tt
NotBefore-mono (some kept) a b h n = omega arith
