-- ===== src/Base/Lists.antt =====
-- Lists measured, indexed and cut by native numbers.
use Prim.Native.Nat.{ℕ, zero, suc, ◌+◌, ◌-◌, ◌≤◌, ◌<◌, min}
use mathlib.Core.Path.{◌≡◌, refl, ap, ap₂, ◌∙◌}
use mathlib.Core.List.{List, [], ◌∷◌, ◌++◌}
use mathlib.Core.Option.{Option, none, some}
use native.Mathlib.Omega.{arith}

-- A predicate of every element.
abbrev pub All {ℓ κ} : {A : Type ℓ} → (A → Type κ) → List A → Type κ
All P [] = Unit
All P (x ∷ xs) = P x × All P xs

module _ {ℓ} {A : Type ℓ} where
  abbrev pub length : List A → ℕ
  length [] = 0
  length (x ∷ xs) = suc (length xs)

  abbrev pub get_elem? : List A → ℕ → Option A
  get_elem? [] i = none
  get_elem? (x ∷ xs) zero = some x
  get_elem? (x ∷ xs) (suc i) = get_elem? xs i

  abbrev pub take : ℕ → List A → List A
  take zero xs = []
  take (suc n) [] = []
  take (suc n) (x ∷ xs) = x ∷ take n xs

  abbrev pub drop : ℕ → List A → List A
  drop zero xs = xs
  drop (suc n) [] = []
  drop (suc n) (x ∷ xs) = drop n xs

  abbrev pub get_or : List A → ℕ → A → A
  get_or [] i d = d
  get_or (x ∷ xs) zero d = x
  get_or (x ∷ xs) (suc i) d = get_or xs i d

  -- The pieces one after another.
  abbrev pub concat : List (List A) → List A
  concat [] = []
  concat (x ∷ xs) = x ++ concat xs

  -- The slice `xs[start..end]`.
  abbrev pub slice : ℕ → ℕ → List A → List A
  slice start end xs = take (end - start) (drop start xs)

module _ {ℓ} {A : Type ℓ} where
  pub length-append : (xs ys : List A) → length (xs ++ ys) ≡ length xs + length ys
  length-append [] ys = omega arith
  length-append (x ∷ xs) ys = omega (arith, length-append xs ys)

  pub take-append-drop : (n : ℕ) (xs : List A) → take n xs ++ drop n xs ≡ xs
  take-append-drop zero xs = refl
  take-append-drop (suc n) [] = refl
  take-append-drop (suc n) (x ∷ xs) = ap (◌∷◌ x) (take-append-drop n xs)

  pub length-take : (n : ℕ) (xs : List A) → length (take n xs) ≡ min n (length xs)
  length-take zero xs = omega arith
  length-take (suc n) [] = omega arith
  length-take (suc n) (x ∷ xs) = omega (arith, length-take n xs)

  pub length-drop : (n : ℕ) (xs : List A) → length (drop n xs) ≡ length xs - n
  length-drop zero xs = omega arith
  length-drop (suc n) [] = omega arith
  length-drop (suc n) (x ∷ xs) = omega (arith, length-drop n xs)

  pub get_elem?-append :
      (xs : List A) (y : A) (ys : List A) (i : ℕ)
      → i ≡ length xs
      → get_elem? (xs ++ y ∷ ys) i ≡ some y
  get_elem?-append [] y ys zero e = refl
  get_elem?-append [] y ys (suc i) e = absurd (omega arith)
  get_elem?-append (x ∷ xs) y ys zero e = absurd (omega arith)
  get_elem?-append (x ∷ xs) y ys (suc i) e = get_elem?-append xs y ys i (omega arith)

  pub take-append : (n : ℕ) (xs ys : List A) → n ≤ length xs → take n (xs ++ ys) ≡ take n xs
  take-append zero xs ys h = refl
  take-append (suc n) [] ys h = absurd (omega arith)
  take-append (suc n) (x ∷ xs) ys h = ap (◌∷◌ x) (take-append n xs ys (omega arith))

  pub drop-append : (n : ℕ) (xs ys : List A) → n ≤ length xs → drop n (xs ++ ys) ≡ drop n xs ++ ys
  drop-append zero xs ys h = refl
  drop-append (suc n) [] ys h = absurd (omega arith)
  drop-append (suc n) (x ∷ xs) ys h = drop-append n xs ys (omega arith)

  pub take_all : (n : ℕ) (xs : List A) → length xs ≤ n → take n xs ≡ xs
  take_all zero [] h = refl
  take_all zero (x ∷ xs) h = absurd (omega arith)
  take_all (suc n) [] h = refl
  take_all (suc n) (x ∷ xs) h = ap (◌∷◌ x) (take_all n xs (omega arith))

  pub drop_all : (n : ℕ) (xs : List A) → length xs ≤ n → drop n xs ≡ []
  drop_all zero [] h = refl
  drop_all zero (x ∷ xs) h = absurd (omega arith)
  drop_all (suc n) [] h = refl
  drop_all (suc n) (x ∷ xs) h = drop_all n xs (omega arith)

  pub take-nil : (n : ℕ) → take {A = A} n [] ≡ []
  take-nil zero = refl
  take-nil (suc n) = refl

  pub take-min : (n : ℕ) (xs : List A) → take (min n (length xs)) xs ≡ take n xs
  take-min n xs = take_upto n (min n (length xs)) xs refl
    where
      take_upto : (n k : ℕ) (xs : List A) → k ≡ min n (length xs) → take k xs ≡ take n xs
      take_upto zero zero xs e = refl
      take_upto zero (suc k) xs e = absurd (omega arith)
      take_upto (suc n) zero [] e = refl
      take_upto (suc n) (suc k) [] e = refl
      take_upto (suc n) zero (x ∷ xs) e = absurd (omega arith)
      take_upto (suc n) (suc k) (x ∷ xs) e = ap (◌∷◌ x) (take_upto n k xs (omega arith))

  pub drop-nil : (n : ℕ) → drop {A = A} n [] ≡ []
  drop-nil zero = refl
  drop-nil (suc n) = refl

  -- The sum is a variable with an equation, since `m + n` does not compute.
  pub drop-drop : (m n k : ℕ) (xs : List A) → m + n ≡ k → drop n (drop m xs) ≡ drop k xs
  drop-drop zero n k xs e = let e' : n ≡ k = omega arith in ap (λ j. drop j xs) e'
  drop-drop (suc m) n zero xs e = absurd (omega arith)
  drop-drop (suc m) n (suc k) [] e = drop-nil n
  drop-drop (suc m) n (suc k) (x ∷ xs) e = drop-drop m n k xs (omega arith)

  -- `chunks n` of Rust's slices: pieces of `n`, the last one shorter. Fuel: the length.
  pub chunks_fuel : ℕ → ℕ → List A → List (List A)
  chunks_fuel zero n xs = []
  chunks_fuel (suc f) n [] = []
  chunks_fuel (suc f) n (x ∷ xs) = take n (x ∷ xs) ∷ chunks_fuel f n (drop n (x ∷ xs))

  unfoldable pub chunks : ℕ → List A → List (List A)
  unfolding chunks_fuel
  chunks n xs = chunks_fuel (length xs) n xs

  chunks_fuel-irrelevant :
      (f g n : ℕ) (xs : List A)
      → 0 < n
      → length xs ≤ f
      → length xs ≤ g
      → chunks_fuel f n xs ≡ chunks_fuel g n xs
  unfolding chunks_fuel
  chunks_fuel-irrelevant zero zero n xs p hf hg = refl
  chunks_fuel-irrelevant zero (suc g) n [] p hf hg = refl
  chunks_fuel-irrelevant zero (suc g) n (x ∷ xs) p hf hg = absurd (omega arith)
  chunks_fuel-irrelevant (suc f) zero n [] p hf hg = refl
  chunks_fuel-irrelevant (suc f) zero n (x ∷ xs) p hf hg = absurd (omega arith)
  chunks_fuel-irrelevant (suc f) (suc g) n [] p hf hg = refl
  chunks_fuel-irrelevant (suc f) (suc g) zero (x ∷ xs) p hf hg = absurd (omega arith)
  chunks_fuel-irrelevant (suc f) (suc g) (suc n) (x ∷ xs) p hf hg = ap (◌∷◌ (x ∷ take n xs)) (
      chunks_fuel-irrelevant f g (suc n) (drop n xs) p (omega (arith, length-drop n xs))
        (omega (arith, length-drop n xs)))

  -- With pieces of at least one element the fuel is enough: `chunks` cuts off one piece at a time.
  pub chunks-cons :
      (n : ℕ) (x : A) (xs : List A)
      → 0 < n
      → chunks n (x ∷ xs) ≡ take n (x ∷ xs) ∷ chunks n (drop n (x ∷ xs))
  unfolding chunks
  chunks-cons zero x xs p = absurd (omega arith)
  chunks-cons (suc n) x xs p = ap (◌∷◌ (x ∷ take n xs)) (
      chunks_fuel-irrelevant (length xs) (length (drop n xs)) (suc n) (drop n xs) p
        (omega (arith, length-drop n xs)) (omega arith))

  pub concat-chunks :
      (fuel n : ℕ) (xs : List A) → 0 < n → length xs ≤ fuel → concat (chunks n xs) ≡ xs
  unfolding chunks
  concat-chunks fuel n [] p h = refl
  concat-chunks zero n (x ∷ xs) p h = absurd (omega arith)
  concat-chunks (suc fuel) n (x ∷ xs) p h =
      ap concat (chunks-cons n x xs p)
      ∙ ap (◌++◌ (take n (x ∷ xs)))
          (concat-chunks fuel n (drop n (x ∷ xs)) p (omega (arith, length-drop n (x ∷ xs))))
      ∙ take-append-drop n (x ∷ xs)

  pub chunks-append :
      (n : ℕ) (c xs : List A) → 0 < n → length c ≡ n → chunks n (c ++ xs) ≡ c ∷ chunks n xs
  chunks-append n [] xs p e = absurd (omega arith)
  chunks-append n (x ∷ c) xs p e =
      chunks-cons n x (c ++ xs) p
      ∙ ap₂ (λ l r. l ∷ chunks n r)
          (take-append n (x ∷ c) xs (omega arith) ∙ take_all n (x ∷ c) (omega arith))
          (drop-append n (x ∷ c) xs (omega arith)
            ∙ ap (λ d. d ++ xs) (drop_all n (x ∷ c) (omega arith)))

  pub chunks_short :
      (n : ℕ) (x : A) (xs : List A) → length (x ∷ xs) ≤ n → chunks n (x ∷ xs) ≡ (x ∷ xs) ∷ []
  unfolding chunks
  chunks_short n x xs h =
      chunks-cons n x xs (omega arith)
      ∙ ap₂ (λ l r. l ∷ chunks n r) (take_all n (x ∷ xs) h) (drop_all n (x ∷ xs) h)

  pub All-append {κ} : (P : A → Type κ) (xs ys : List A) → All P xs → All P ys → All P (xs ++ ys)
  All-append P [] ys hx hy = hy
  All-append P (x ∷ xs) ys hx hy = (hx.0, All-append P xs ys hx.1 hy)

  pub All-left {κ} : (P : A → Type κ) (xs ys : List A) → All P (xs ++ ys) → All P xs
  All-left P [] ys h = tt
  All-left P (x ∷ xs) ys h = (h.0, All-left P xs ys h.1)

  pub All-right {κ} : (P : A → Type κ) (xs ys : List A) → All P (xs ++ ys) → All P ys
  All-right P [] ys h = h
  All-right P (x ∷ xs) ys h = All-right P xs ys h.1

  pub All-take {κ} : (P : A → Type κ) (n : ℕ) (xs : List A) → All P xs → All P (take n xs)
  All-take P zero xs h = tt
  All-take P (suc n) [] h = tt
  All-take P (suc n) (x ∷ xs) h = (h.0, All-take P n xs h.1)

  pub All-drop {κ} : (P : A → Type κ) (n : ℕ) (xs : List A) → All P xs → All P (drop n xs)
  All-drop P zero xs h = h
  All-drop P (suc n) [] h = tt
  All-drop P (suc n) (x ∷ xs) h = All-drop P n xs h.1
