-- ===== src/Base/ListLaws.antt =====
-- Laws of `take`, `drop`, `concat` and the indexed lookup.
use Prim.Native.Nat.{ℕ, zero, suc, ◌+◌, ◌-◌, ◌*◌, ◌≤◌, ◌<◌, min}
use mathlib.Core.Option.{some}
use mathlib.Core.Path.{subst, ◌≡◌, refl, sym, ap, ap₂, ◌∙◌}
use mathlib.Core.List.{List, [], ◌∷◌, ◌++◌, append_assoc}
use native.Mathlib.Omega.{arith}
use faf_rust_replayserver.Base.Lists.{
  length, get_elem?, take, drop, concat, All, length-append, take-nil, drop-nil,
}

module _ {ℓ} {A : Type ℓ} where
  pub take-append :
      (n : ℕ) (xs ys : List A) → take n (xs ++ ys) ≡ take n xs ++ take (n - length xs) ys
  unfolding take
  take-append zero xs ys = ap (λ k. take k ys) {x = zero} (omega arith)
  take-append (suc n) [] ys = ap (λ k. take k ys) {x = suc n} (omega arith)
  take-append (suc n) (x ∷ xs) ys =
      ap (◌∷◌ x)
        (take-append n xs ys ∙ ap (λ k. take n xs ++ take k ys) {x = n - length xs} (omega arith))

  pub drop-append :
      (n : ℕ) (xs ys : List A) → drop n (xs ++ ys) ≡ drop n xs ++ drop (n - length xs) ys
  unfolding drop
  drop-append zero xs ys = ap (λ k. xs ++ drop k ys) {x = zero} (omega arith)
  drop-append (suc n) [] ys = ap (λ k. drop k ys) {x = suc n} (omega arith)
  drop-append (suc n) (x ∷ xs) ys =
      drop-append n xs ys ∙ ap (λ k. drop n xs ++ drop k ys) {x = n - length xs} (omega arith)

  -- Within the first list, `drop` does not reach the second.
  pub drop-append_of_le :
      (n : ℕ) (xs ys : List A) → n ≤ length xs → drop n (xs ++ ys) ≡ drop n xs ++ ys
  unfolding drop
  drop-append_of_le zero xs ys h = refl
  drop-append_of_le (suc n) [] ys h = absurd (omega arith)
  drop-append_of_le (suc n) (x ∷ xs) ys h = drop-append_of_le n xs ys (omega arith)

  pub take-append_of_le : (n : ℕ) (xs ys : List A) → n ≤ length xs → take n (xs ++ ys) ≡ take n xs
  unfolding take
  take-append_of_le zero xs ys h = refl
  take-append_of_le (suc n) [] ys h = absurd (omega arith)
  take-append_of_le (suc n) (x ∷ xs) ys h = ap (◌∷◌ x) (take-append_of_le n xs ys (omega arith))

  -- Past the first list, `take` and `drop` work on the second.
  pub take-append_of_ge :
      (n m : ℕ) (xs ys : List A) → n ≡ length xs + m → take n (xs ++ ys) ≡ xs ++ take m ys
  unfolding take
  take-append_of_ge n m [] ys h = ap (λ k. take k ys) (omega arith)
  take-append_of_ge zero m (x ∷ xs) ys h = absurd (omega arith)
  take-append_of_ge (suc n) m (x ∷ xs) ys h = ap (◌∷◌ x) (take-append_of_ge n m xs ys (omega arith))

  pub drop-append_of_ge :
      (n m : ℕ) (xs ys : List A) → n ≡ length xs + m → drop n (xs ++ ys) ≡ drop m ys
  unfolding drop
  drop-append_of_ge n m [] ys h = ap (λ k. drop k ys) (omega arith)
  drop-append_of_ge zero m (x ∷ xs) ys h = absurd (omega arith)
  drop-append_of_ge (suc n) m (x ∷ xs) ys h = drop-append_of_ge n m xs ys (omega arith)

  pub take-take : (m n : ℕ) (xs : List A) → take m (take n xs) ≡ take (min m n) xs
  unfolding take
  take-take m n [] = ap (take m) (take-nil n) ∙ take-nil m ∙ sym (take-nil (min m n))
  take-take zero n (x ∷ xs) = ap (λ k. take k (x ∷ xs)) {x = zero} (omega arith)
  take-take (suc m) zero (x ∷ xs) = ap (λ k. take k (x ∷ xs)) {x = zero} (omega arith)
  take-take (suc m) (suc n) (x ∷ xs) =
      ap (◌∷◌ x) (take-take m n xs) ∙ ap (λ k. take k (x ∷ xs)) {x = suc (min m n)} (omega arith)

  pub drop-take : (m n : ℕ) (xs : List A) → drop m (take n xs) ≡ take (n - m) (drop m xs)
  unfolding take drop
  drop-take m n [] =
      ap (drop m) (take-nil n)
      ∙ drop-nil m
      ∙ sym (take-nil (n - m))
      ∙ ap (take (n - m)) (sym (drop-nil m))
  drop-take zero n (x ∷ xs) = ap (λ k. take k (x ∷ xs)) (omega arith)
  drop-take (suc m) zero (x ∷ xs) = ap (λ k. take k (drop m xs)) {x = zero} (omega arith)
  drop-take (suc m) (suc n) (x ∷ xs) =
      drop-take m n xs ∙ ap (λ k. take k (drop m xs)) {x = n - m} (omega arith)

  pub get_elem?-drop : (n i : ℕ) (xs : List A) → get_elem? (drop n xs) i ≡ get_elem? xs (n + i)
  unfolding drop
  get_elem?-drop zero i xs = ap (get_elem? xs) (omega arith)
  get_elem?-drop (suc n) i [] = refl
  get_elem?-drop (suc n) i (x ∷ xs) = get_elem?-drop n i xs ∙ ap (get_elem? (x ∷ xs)) step
    where
      step : suc (n + i) ≡ suc n + i
      step = omega arith

  pub get_elem?-append :
      (xs ys : List A) (i : ℕ) → i < length xs → get_elem? (xs ++ ys) i ≡ get_elem? xs i
  get_elem?-append [] ys i h = absurd (omega arith)
  get_elem?-append (x ∷ xs) ys zero h = refl
  get_elem?-append (x ∷ xs) ys (suc i) h = get_elem?-append xs ys i (omega arith)

  -- Lists of equal-sized pieces.
  pub length-concat :
      (k : ℕ) (xss : List (List A))
      → All (λ xs. length xs ≡ k) xss
      → length (concat xss) ≡ length xss * k
  unfolding concat
  length-concat k [] a = omega arith
  length-concat k (xs ∷ xss) a =
      grind (arith, length-append xs (concat xss), length-concat k xss a.1)

  pub concat-append : (xss yss : List (List A)) → concat (xss ++ yss) ≡ concat xss ++ concat yss
  unfolding concat
  concat-append [] yss = refl
  concat-append (xs ∷ xss) yss =
      ap (◌++◌ xs) (concat-append xss yss) ∙ sym (append_assoc xs (concat xss) (concat yss))

  pub All-append {κ} : (P : A → Type κ) (xs ys : List A) → All P xs → All P ys → All P (xs ++ ys)
  All-append P [] ys a b = b
  All-append P (x ∷ xs) ys a b = (a.0, All-append P xs ys a.1 b)

  pub take-add : (m n : ℕ) (xs : List A) → take (m + n) xs ≡ take m xs ++ take n (drop m xs)
  unfolding take drop
  take-add zero n xs = ap (λ k. take k xs) {y = n} (omega arith)
  take-add (suc m) n [] = ap (λ k. take k []) {y = suc (m + n)} (omega arith) ∙ sym (take-nil n)
  take-add (suc m) n (x ∷ xs) =
      ap (λ k. take k (x ∷ xs)) {y = suc (m + n)} (omega arith) ∙ ap (◌∷◌ x) (take-add m n xs)

  pub All-drop {κ} : (P : A → Type κ) (n : ℕ) (xs : List A) → All P xs → All P (drop n xs)
  unfolding drop
  All-drop P zero xs a = a
  All-drop P (suc n) [] a = a
  All-drop P (suc n) (x ∷ xs) a = All-drop P n xs a.1

  -- Dropping whole pieces of a list of equal-sized pieces.
  pub drop-concat :
      (k n : ℕ) (xss : List (List A))
      → All (λ xs. length xs ≡ k) xss
      → drop (n * k) (concat xss) ≡ concat (drop n xss)
  unfolding drop concat
  drop-concat k n [] a = drop-nil (n * k) ∙ sym (ap concat (drop-nil n))
  drop-concat k zero (xs ∷ xss) a = ap (λ m. drop m (xs ++ concat xss)) {y = zero} (grind arith)
  drop-concat k (suc n) (xs ∷ xss) a =
      drop-append_of_ge (suc n * k) (n * k) xs (concat xss) (grind (arith, a.0))
      ∙ drop-concat k n xss a.1

  pub get_elem?-some :
      (xs : List A) (i : ℕ)
      → i < length xs
      → (x : A) × (get_elem? xs i ≡ some x) × (drop i xs ≡ x ∷ drop (suc i) xs)
  unfolding drop
  get_elem?-some [] i h = absurd (omega arith)
  get_elem?-some (x ∷ xs) zero h = (x, refl, refl)
  get_elem?-some (x ∷ xs) (suc i) h = get_elem?-some xs i (omega arith)

  pub All-get_elem? {κ} :
      (P : A → Type κ) (xs : List A) (i : ℕ) (y : A) → All P xs → get_elem? xs i ≡ some y → P y
  All-get_elem? P [] i y a e = cc
  All-get_elem? P (x ∷ xs) zero y a e = let e' : x ≡ y = cc in subst P e' a.0
  All-get_elem? P (x ∷ xs) (suc i) y a e = All-get_elem? P xs i y a.1 e

  pub get_elem?-take : (n i : ℕ) (xs : List A) → i < n → get_elem? (take n xs) i ≡ get_elem? xs i
  unfolding take
  get_elem?-take zero i xs h = absurd (omega arith)
  get_elem?-take (suc n) i [] h = refl
  get_elem?-take (suc n) zero (x ∷ xs) h = refl
  get_elem?-take (suc n) (suc i) (x ∷ xs) h = get_elem?-take n i xs (omega arith)

  -- Lists that agree below `n` have the same first `n` elements.
  pub take-ext :
      (n : ℕ) (xs ys : List A)
      → n ≤ length xs
      → n ≤ length ys
      → ((i : ℕ) → i < n → get_elem? xs i ≡ get_elem? ys i)
      → take n xs ≡ take n ys
  unfolding take
  take-ext zero xs ys h k e = refl
  take-ext (suc n) [] ys h k e = absurd (omega arith)
  take-ext (suc n) (x ∷ xs) [] h k e = absurd (omega arith)
  take-ext (suc n) (x ∷ xs) (y ∷ ys) h k e =
      let head : x ≡ y = cc (e 0 (omega arith)) in
      ap₂ ◌∷◌ head (take-ext n xs ys (omega arith) (omega arith) (λ i lt. e (suc i) (omega arith)))

  pub All-take {κ} : (P : A → Type κ) (n : ℕ) (xs : List A) → All P xs → All P (take n xs)
  unfolding take
  All-take P zero xs a = tt
  All-take P (suc n) [] a = a
  All-take P (suc n) (x ∷ xs) a = (a.0, All-take P n xs a.1)
