-- ===== src/Base/Lists.antt =====
-- Lists measured and indexed by native numbers, under the library's names.
use Prim.Native.Nat.{ℕ, zero, suc, ◌+◌, ◌-◌, ◌≤◌, min}
use mathlib.Core.Path.{◌≡◌, refl, sym, ap, ◌∙◌}
use mathlib.Core.List.{List, [], ◌∷◌, ◌++◌}
use mathlib.Core.Option.{Option, none, some}
use native.Mathlib.Omega.{arith}

module _ {ℓ} {A : Type ℓ} where
  abbrev pub length : List A → ℕ
  length [] = 0
  length (x ∷ xs) = suc (length xs)

  abbrev pub get_elem? : List A → ℕ → Option A
  get_elem? [] i = none
  get_elem? (x ∷ xs) zero = some x
  get_elem? (x ∷ xs) (suc i) = get_elem? xs i

  unfoldable pub take : ℕ → List A → List A
  take zero xs = []
  take (suc n) [] = []
  take (suc n) (x ∷ xs) = x ∷ take n xs

  unfoldable pub drop : ℕ → List A → List A
  drop zero xs = xs
  drop (suc n) [] = []
  drop (suc n) (x ∷ xs) = drop n xs

  unfoldable pub replicate : ℕ → A → List A
  replicate zero a = []
  replicate (suc n) a = a ∷ replicate n a

  unfoldable pub concat : List (List A) → List A
  concat [] = []
  concat (x ∷ xs) = x ++ concat xs

  abbrev pub All {κ} : (A → Type κ) → List A → Type κ
  All P [] = Unit
  All P (x ∷ xs) = P x × All P xs

module _ {ℓ} {A : Type ℓ} where
  pub length-append : (xs ys : List A) → length (xs ++ ys) ≡ length xs + length ys
  length-append [] ys = omega arith
  length-append (x ∷ xs) ys = omega (arith, length-append xs ys)

  pub take-append-drop : (n : ℕ) (xs : List A) → take n xs ++ drop n xs ≡ xs
  unfolding take drop
  take-append-drop zero xs = refl
  take-append-drop (suc n) [] = refl
  take-append-drop (suc n) (x ∷ xs) = rw (take-append-drop n xs)

  pub length-take : (n : ℕ) (xs : List A) → length (take n xs) ≡ min n (length xs)
  unfolding take
  length-take zero xs = omega arith
  length-take (suc n) [] = omega arith
  length-take (suc n) (x ∷ xs) = omega (arith, length-take n xs)

  pub length-drop : (n : ℕ) (xs : List A) → length (drop n xs) ≡ length xs - n
  unfolding drop
  length-drop zero xs = omega arith
  length-drop (suc n) [] = omega arith
  length-drop (suc n) (x ∷ xs) = omega (arith, length-drop n xs)

  pub length-replicate : (n : ℕ) (a : A) → length (replicate n a) ≡ n
  unfolding replicate
  length-replicate zero a = refl
  length-replicate (suc n) a = ap suc (length-replicate n a)

  pub take-nil : (n : ℕ) → take {A = A} n [] ≡ []
  unfolding take
  take-nil zero = refl
  take-nil (suc n) = refl

  pub take-zero : (xs : List A) → take 0 xs ≡ []
  unfolding take
  take-zero xs = refl

  pub drop-nil : (n : ℕ) → drop {A = A} n [] ≡ []
  unfolding drop
  drop-nil zero = refl
  drop-nil (suc n) = refl

  pub take-eq_of_length-le : (n : ℕ) (xs : List A) → length xs ≤ n → take n xs ≡ xs
  unfolding take
  take-eq_of_length-le zero [] h = refl
  take-eq_of_length-le zero (x ∷ xs) h = absurd (omega arith)
  take-eq_of_length-le (suc n) [] h = refl
  take-eq_of_length-le (suc n) (x ∷ xs) h = ap (◌∷◌ x) (take-eq_of_length-le n xs (omega arith))

  pub drop-eq-nil : (n : ℕ) (xs : List A) → length xs ≤ n → drop n xs ≡ []
  unfolding drop
  drop-eq-nil zero [] h = refl
  drop-eq-nil zero (x ∷ xs) h = absurd (omega arith)
  drop-eq-nil (suc n) [] h = refl
  drop-eq-nil (suc n) (x ∷ xs) h = drop-eq-nil n xs (omega arith)

  pub drop-drop : (m n : ℕ) (xs : List A) → drop m (drop n xs) ≡ drop (n + m) xs
  unfolding drop
  drop-drop m zero xs = ap (λ k. drop k xs) (omega arith)
  drop-drop m (suc n) [] = drop-nil m ∙ sym (drop-nil (suc n + m))
  drop-drop m (suc n) (x ∷ xs) = drop-drop m n xs ∙ ap (λ k. drop k (x ∷ xs)) step
    where
      step : suc (n + m) ≡ suc n + m
      step = omega arith

-- A byte is a number below 256; the code only compares bytes and moves them.
abbrev pub Bytes : Type 0
Bytes = List ℕ
