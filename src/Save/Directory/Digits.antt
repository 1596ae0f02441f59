-- ===== src/Save/Directory/Digits.antt =====
-- The last decimal digits of a number, when it is printed and padded with zeros.
use faf_rust_replayserver.Base.{
  Bytes, ℕ, zero, suc, ◌+◌, ◌-◌, ◌*◌, ◌/◌, ◌%◌, ◌<◌, ◌≡◌, refl, sym, ap, ap₂, ◌∙◌, inl, inr, [],
  ◌∷◌, ◌++◌, append-nil, append_assoc, arith, ltb, length, length-append, drop, replicate,
  length-replicate, drop-append_of_le, drop-eq-nil, Bool-cases,
}
use faf_rust_replayserver.Util.Text.{digits}

-- The last `k` digits of `n`, zeros included.
abbrev pub fixed : ℕ → ℕ → Bytes
fixed zero n = []
fixed (suc k) n = fixed k (n / 10) ++ (b'0' + n % 10) ∷ []

abbrev padded : ℕ → Bytes → Bytes
padded k s = replicate (k - length s) b'0' ++ s

abbrev last : ℕ → Bytes → Bytes
last k s = drop (length s - k) s

replicate-snoc : (k : ℕ) (b : ℕ) → replicate k b ++ b ∷ [] ≡ replicate (suc k) b
unfolding replicate
replicate-snoc zero b = refl
replicate-snoc (suc k) b = ap (◌∷◌ b) (replicate-snoc k b)

fixed-zero : (k : ℕ) → fixed k 0 ≡ replicate k b'0'
unfolding replicate
fixed-zero zero = refl
fixed-zero (suc k) = ap (λ xs. xs ++ b'0' ∷ []) (fixed-zero k) ∙ replicate-snoc k b'0'

length-fixed : (k n : ℕ) → length (fixed k n) ≡ k
length-fixed zero n = refl
length-fixed (suc k) n =
    length-append (fixed k (n / 10)) ((b'0' + n % 10) ∷ []) ∙ omega (arith, length-fixed k (n / 10))

-- A last digit stays last.
padded-snoc : (k : ℕ) (xs : Bytes) (d : ℕ) → padded (suc k) (xs ++ d ∷ []) ≡ padded k xs ++ d ∷ []
padded-snoc k xs d =
    let fewer : suc k - length (xs ++ d ∷ []) ≡ k - length xs =
      omega (arith, length-append xs (d ∷ [])) in
    ap (λ n. replicate n b'0' ++ (xs ++ d ∷ [])) fewer
    ∙ sym (append_assoc (replicate (k - length xs) b'0') xs (d ∷ []))

last-snoc : (k : ℕ) (xs : Bytes) (d : ℕ) → last (suc k) (xs ++ d ∷ []) ≡ last k xs ++ d ∷ []
last-snoc k xs d =
    let start : length (xs ++ d ∷ []) - suc k ≡ length xs - k =
      omega (arith, length-append xs (d ∷ [])) in
    ap (λ n. drop n (xs ++ d ∷ [])) start
    ∙ drop-append_of_le (length xs - k) xs (d ∷ []) (omega arith)

abbrev pub power10 : ℕ → ℕ
power10 zero = 1
power10 (suc k) = 10 * power10 k

last-zero : (xs : Bytes) → last 0 xs ≡ []
last-zero xs = drop-eq-nil (length xs - 0) xs (omega arith)

last-exact : (k : ℕ) (xs : Bytes) → length xs ≡ k → last k xs ≡ xs
unfolding drop
last-exact k xs e = let all : length xs - k ≡ 0 = omega arith in ap (λ n. drop n xs) all

padded-nil : (k : ℕ) → last k (padded k []) ≡ fixed k 0
padded-nil k =
    let whole : k - 0 ≡ k = omega arith in
    let zeros : padded k [] ≡ replicate k b'0' =
      append-nil (replicate (k - 0) b'0') ∙ ap (λ n. replicate n b'0') whole in
    ap (last k) zeros
    ∙ last-exact k (replicate k b'0') (length-replicate k b'0')
    ∙ sym (fixed-zero k)

one_digit : (k n : ℕ) → n < 10 → last (suc k) (padded (suc k) ((b'0' + n) ∷ [])) ≡ fixed (suc k) n
one_digit k n small =
    let high : n / 10 ≡ 0 = omega arith in
    let low : n % 10 ≡ n = omega arith in
    ap (last (suc k)) (padded-snoc k [] (b'0' + n))
    ∙ last-snoc k (padded k []) (b'0' + n)
    ∙ ap (λ xs. xs ++ (b'0' + n) ∷ []) (padded-nil k)
    ∙ ap₂ (λ h l. fixed k h ++ (b'0' + l) ∷ []) (sym high) (sym low)

-- The last `k` digits of a printed number, padded to `k`.
pub last-digits : (fuel k n : ℕ) → n < power10 fuel → last k (padded k (digits fuel n)) ≡ fixed k n
unfolding digits
last-digits zero k n enough =
    let none_left : n ≡ 0 = omega arith in padded-nil k ∙ ap (fixed k) (sym none_left)
last-digits (suc fuel) zero n enough = last-zero (padded 0 (digits (suc fuel) n))
last-digits (suc fuel) (suc k) n enough = elim (Bool-cases (ltb n 10)) [
  | inl one ↦ rw one (one_digit k n (ground arith))
  | inr more ↦ rw more (
      ap (last (suc k)) (padded-snoc k (digits fuel (n / 10)) (b'0' + n % 10))
      ∙ last-snoc k (padded k (digits fuel (n / 10))) (b'0' + n % 10)
      ∙ ap (λ xs. xs ++ (b'0' + n % 10) ∷ []) (last-digits fuel k (n / 10) (omega arith)))
]
