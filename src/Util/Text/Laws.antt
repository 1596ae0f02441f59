-- ===== src/Util/Text/Laws.antt =====
-- Printed numbers and their digits.
use mathlib.Core.Bool.{false≢true}
use faf_rust_replayserver.Base.{
  Bytes, ℕ, zero, suc, ◌+◌, ◌*◌, ◌/◌, ◌%◌, ◌≤◌, ◌<◌, ◌≡◌, refl, sym, ap, ◌∙◌, inl, inr, true, false,
  [], ◌∷◌, ◌++◌, Option, none, some, arith, ◌==◌, ◌>>=◌, bind-eq-some, ltb, length, length-append,
  Bool-cases, All, ==_iff,
}
use faf_rust_replayserver.Util.StringMap.{same_string}
use faf_rust_replayserver.Util.StringMap.Laws.{same_string_refl, same_string-eq}
use faf_rust_replayserver.Util.Text.{
  utf8_lead, utf8_next, utf8_from, from_utf8, u64_mod, push_digit, parse_digits, parse_u64, digits,
  show_u64,
}

abbrev power10 : ℕ → ℕ
power10 zero = 1
power10 (suc k) = 10 * power10 k

parse_digits-append :
    (n : ℕ) (xs ys : Bytes)
    → parse_digits n (xs ++ ys) ≡ (parse_digits n xs >>= λ m. parse_digits m ys)
unfolding parse_digits
parse_digits-append n [] ys = refl
parse_digits-append n (x ∷ xs) ys = then_append (push_digit n x) (λ m. parse_digits-append m xs ys)
  where
    then_append :
        (o : Option ℕ)
        → ((m : ℕ) → parse_digits m (xs ++ ys) ≡ (parse_digits m xs >>= λ k. parse_digits k ys))
        → (o >>= λ m. parse_digits m (xs ++ ys))
          ≡ ((o >>= λ m. parse_digits m xs) >>= λ m. parse_digits m ys)
    then_append none f = refl
    then_append (some m) f = f m

pub push_digit-some :
    (n d : ℕ) → d < 10 → n * 10 + d < u64_mod → push_digit n (b'0' + d) ≡ some (n * 10 + d)
unfolding push_digit
push_digit-some n d small fits = ground arith

parse_digits-digits :
    (fuel n : ℕ) → n < power10 fuel → n < u64_mod → parse_digits 0 (digits fuel n) ≡ some n
unfolding parse_digits digits
parse_digits-digits zero n enough fits = ap some (omega arith)
parse_digits-digits (suc fuel) n enough fits = elim (Bool-cases (ltb n 10)) [
  | inl one ↦ rw one (
      let pushed = push_digit-some 0 n (ground arith) (omega arith) in
      rw pushed (ap some (omega arith)))
  | inr more ↦ rw more (
      let high = parse_digits-digits fuel (n / 10) (omega arith) (omega arith) in
      let pushed = push_digit-some (n / 10) (n % 10) (omega arith) (omega arith) in
      parse_digits-append 0 (digits fuel (n / 10)) ((b'0' + n % 10) ∷ [])
      ∙ rw high (rw pushed (ap some (omega arith))))
]

-- What is read as digits has only digits.
abbrev pub IsDigit : ℕ → Type 0
IsDigit b = (48 ≤ b) × (b ≤ 57)

push_digit-IsDigit : (n b m : ℕ) → push_digit n b ≡ some m → IsDigit b
unfolding push_digit
push_digit-IsDigit n b m h = ground arith

parse_digits-IsDigit : (n : ℕ) (xs : Bytes) (m : ℕ) → parse_digits n xs ≡ some m → All IsDigit xs
unfolding parse_digits
parse_digits-IsDigit n [] m h = tt
parse_digits-IsDigit n (x ∷ xs) m h =
    let (n', e, f) = bind-eq-some (push_digit n x) (λ k. parse_digits k xs) h in
    (push_digit-IsDigit n x n' e, parse_digits-IsDigit n' xs m f)

length-digits : (fuel n : ℕ) → 0 < fuel → 1 ≤ length (digits fuel n)
unfolding digits
length-digits zero n h = absurd (omega arith)
length-digits (suc fuel) n h = elim (Bool-cases (ltb n 10)) [
  | inl one ↦ rw one (omega arith)
  | inr more ↦ rw more (omega (arith, length-append (digits fuel (n / 10)) ((b'0' + n % 10) ∷ [])))
]

-- A string of digits has no sign.
parse_u64-unsigned :
    (xs : Bytes) (n : ℕ) → 1 ≤ length xs → parse_digits 0 xs ≡ some n → parse_u64 xs ≡ some n
unfolding parse_u64
parse_u64-unsigned [] n l h = absurd (omega arith)
parse_u64-unsigned (b ∷ []) n l h = h
parse_u64-unsigned (b ∷ c ∷ bs) n l h =
    let d = (parse_digits-IsDigit 0 (b ∷ c ∷ bs) n h).0 in
    let unsigned : (b == b'+') ≡ false = ground arith in rw unsigned h

pub show_u64-digits : (n : ℕ) → n < u64_mod → parse_digits 0 (show_u64 n) ≡ some n
show_u64-digits n h = parse_digits-digits 20 n (omega arith) h

pub parse_u64-show_u64 : (n : ℕ) → n < u64_mod → parse_u64 (show_u64 n) ≡ some n
parse_u64-show_u64 n h =
    parse_u64-unsigned (show_u64 n) n (length-digits 20 n (omega arith)) (show_u64-digits n h)

pub show_u64-IsDigit : (n : ℕ) → n < u64_mod → All IsDigit (show_u64 n)
show_u64-IsDigit n h = parse_digits-IsDigit 0 (show_u64 n) n (show_u64-digits n h)

utf8_lead-digit : (x : ℕ) → IsDigit x → utf8_lead x ≡ some (0, 128, 191)
unfolding utf8_lead
utf8_lead-digit x d = let ascii : ltb x 128 ≡ true = ground (arith, d) in rw ascii refl

digits_valid : (lo hi : ℕ) (xs : Bytes) → All IsDigit xs → utf8_from 0 lo hi xs ≡ true
unfolding utf8_from utf8_next
digits_valid lo hi [] a = refl
digits_valid lo hi (x ∷ xs) a = rw (utf8_from, utf8_lead-digit x a.0) (digits_valid 128 191 xs a.1)

pub from_utf8-digits : (xs : Bytes) → All IsDigit xs → from_utf8 xs ≡ some xs
unfolding from_utf8
from_utf8-digits xs a = rw (digits_valid 128 191 xs a) refl

-- Two numbers with the same text are the same.
pub show_u64-same :
    (m n : ℕ) → m < u64_mod → n < u64_mod → same_string (show_u64 m) (show_u64 n) ≡ (m == n)
show_u64-same m n hm hn = elim (Bool-cases (same_string (show_u64 m) (show_u64 n))) [
  | inl same ↦
      let texts = same_string-eq (show_u64 m) (show_u64 n) same in
      let equal : m ≡ n =
        cc (parse_u64-show_u64 m hm, parse_u64-show_u64 n hn, ap parse_u64 texts) in
      same ∙ sym ((==_iff m n).1 equal)
  | inr apart ↦ elim (Bool-cases (m == n)) [
    | inl equal ↦
        let same : same_string (show_u64 m) (show_u64 n) ≡ true =
          ap (λ k. same_string (show_u64 m) (show_u64 k)) (sym ((==_iff m n).0 equal))
          ∙ same_string_refl (show_u64 m) in
        absurd (false≢true (sym apart ∙ same))
    | inr differ ↦ apart ∙ sym differ
  ]
]
