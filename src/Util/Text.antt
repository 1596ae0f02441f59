-- ===== src/Util/Text.antt =====
-- Text as the list of its bytes: what the code uses of `std` on it, and `pretty_bytes` of util/mod.rs.
pub mod Laws
use Prim.Native.Char.{code}
use Prim.Native.String.{String}
use faf_rust_replayserver.Base.{
  Bytes, ℕ, zero, suc, ◌+◌, ◌-◌, ◌*◌, ◌/◌, ◌%◌, ◌^◌, Bool, true, false, ◌&&◌, List, [], ◌∷◌, ◌++◌,
  Option, none, some, ltb, leb, ◌==◌, if◌then◌else◌, ◌>>=◌,
}

-- The bytes of an ASCII literal.
abbrev pub text : String → Bytes
text String.[] = []
text (String.◌∷◌ c s) = code c ∷ text s

-- What follows a leading byte of UTF-8: how many bytes, and the range of the first of them.
unfoldable pub utf8_lead : ℕ → Option (ℕ × ℕ × ℕ)
utf8_lead b =
    if ltb b 128
    then some (0, 128, 191)
    else if ltb b 0xc2
    then none
    else if ltb b 0xe0
    then some (1, 128, 191)
    else if b == 0xe0
    then some (2, 160, 191)
    else if b == 0xed
    then some (2, 128, 159)
    else if ltb b 0xf0
    then some (2, 128, 191)
    else if b == 0xf0
    then some (3, 144, 191)
    else if ltb b 0xf4
    then some (3, 128, 191)
    else if b == 0xf4
    then some (3, 128, 143)
    else none

-- What is expected after one more byte.
unfoldable pub utf8_next : ℕ → ℕ → ℕ → ℕ → Option (ℕ × ℕ × ℕ)
utf8_next zero lo hi b = utf8_lead b
utf8_next (suc n) lo hi b = if leb lo b && leb b hi then some (n, 128, 191) else none

unfoldable pub utf8_from : ℕ → ℕ → ℕ → Bytes → Bool
utf8_from n lo hi [] = n == 0
utf8_from n lo hi (b ∷ bs) = elim (utf8_next n lo hi b) [
  | none ↦ false
  | some (n', lo', hi') ↦ utf8_from n' lo' hi' bs
]

-- `from_utf8`
unfoldable pub from_utf8 : Bytes → Option Bytes
from_utf8 bs = if utf8_from 0 128 191 bs then some bs else none

abbrev pub u64_mod : ℕ
u64_mod = 2 ^ 64

-- A digit after the number `n`; `none` is a byte that is no digit, or an overflow.
unfoldable pub push_digit : ℕ → ℕ → Option ℕ
push_digit n b =
    if leb b'0' b && leb b b'9' && ltb (n * 10 + (b - b'0')) u64_mod
    then some (n * 10 + (b - b'0'))
    else none

unfoldable pub parse_digits : ℕ → Bytes → Option ℕ
parse_digits n [] = some n
parse_digits n (b ∷ bs) = do n' ← push_digit n b; parse_digits n' bs

-- `str::parse::<u64>`: a `+` may stand before the digits, of which there is at least one.
unfoldable pub parse_u64 : Bytes → Option ℕ
parse_u64 [] = none
parse_u64 (b ∷ []) = parse_digits 0 (b ∷ [])
parse_u64 (b ∷ c ∷ bs) = if b == b'+' then parse_digits 0 (c ∷ bs) else parse_digits 0 (b ∷ c ∷ bs)

-- The decimal digits of a number that has at most as many of them as there is fuel.
unfoldable pub digits : ℕ → ℕ → Bytes
digits zero n = []
digits (suc fuel) n =
    let high = digits fuel (n / 10) in
    if ltb n 10 then (b'0' + n) ∷ [] else high ++ (b'0' + n % 10) ∷ []

-- `Display for u64`, below 10 ^ 20
abbrev pub show_u64 : ℕ → Bytes
show_u64 n = digits 20 n

abbrev pub hex_digit : ℕ → ℕ
hex_digit n = if ltb n 10 then b'0' + n else b'a' + (n - 10)

-- `std::ascii::escape_default`
unfoldable pub escape_default : ℕ → Bytes
escape_default b =
    if b == 9
    then text "\\t"
    else if b == 13
    then text "\\r"
    else if b == 10
    then text "\\n"
    else if b == 39
    then text "\\'"
    else if b == 34
    then text "\\\""
    else if b == 92
    then text "\\\\"
    else if leb 32 b && leb b 126
    then b ∷ []
    else text "\\x" ++ hex_digit (b / 16) ∷ hex_digit (b % 16) ∷ []

unfoldable pub pretty_bytes : Bytes → Bytes
pretty_bytes [] = []
pretty_bytes (b ∷ bs) = escape_default b ++ pretty_bytes bs
