-- ===== src/Database/Mods/Laws.antt =====
-- The query for the versions of a mod, against the characters of its name.
use faf_rust_replayserver.Base.{
  Bytes, ℕ, ◌+◌, ◌≡◌, ◌≤◌, ◌&&◌, false, leb, refl, ◌⊎◌, inl, inr, true, false, List, [], ◌∷◌, ◌++◌,
  Option, none, some, arith, ◌==◌, ==_iff, if◌then◌else◌, Bool-cases,
}
use faf_rust_replayserver.Util.Text.{text}
use faf_rust_replayserver.Util.StringMap.{same_string}
use faf_rust_replayserver.Database.Mods.{
  expected_char, expected_chars, splice, query_pieces, query, mod_version_query,
}

-- A letter, a digit, `_` or `-`, by their numbers in ASCII.
abbrev pub Plain : ℕ → Type 0
Plain b =
    ((97 ≤ b) × (b ≤ 122)) ⊎ ((65 ≤ b) × (b ≤ 90)) ⊎ ((48 ≤ b) × (b ≤ 57)) ⊎ (b ≡ 95) ⊎ (b ≡ 45)

==-false : (a b : ℕ) → (a ≡ b → ⊥) → (a == b) ≡ false
==-false a b ne = elim (Bool-cases (a == b)) [ inl e ↦ absurd (ne ((==_iff a b).0 e)) | inr e ↦ e ]

odd-if-not-Plain : (b : ℕ) → (Plain b → ⊥) → expected_char b ≡ false
unfolding expected_char
odd-if-not-Plain b odd = elim (Bool-cases (leb 97 b && leb b 122)) [
  | inl e ↦ absurd (odd (inl (ground arith, ground arith)))
  | inr e₁ ↦ elim (Bool-cases (leb 65 b && leb b 90)) [
    | inl e ↦ absurd (odd (inr (inl (ground arith, ground arith))))
    | inr e₂ ↦ elim (Bool-cases (leb 48 b && leb b 57)) [
      | inl e ↦ absurd (odd (inr (inr (inl (ground arith, ground arith)))))
      | inr e₃ ↦
          let e₄ : (b == 95) ≡ false = ==-false b 95 (λ e. odd (inr (inr (inr (inl e))))) in
          let e₅ : (b == 45) ≡ false = ==-false b 45 (λ e. odd (inr (inr (inr (inr e))))) in
          rw (e₁, e₂, e₃, e₄, e₅) refl
    ]
  ]
]

-- How often a byte occurs.
abbrev pub occurrences : ℕ → Bytes → ℕ
occurrences b [] = 0
occurrences b (x ∷ xs) = (if x == b then 1 else 0) + occurrences b xs

occurrences-append :
    (b : ℕ) (xs ys : Bytes) → occurrences b (xs ++ ys) ≡ occurrences b xs + occurrences b ys
occurrences-append b [] ys = omega arith
occurrences-append b (x ∷ xs) ys = omega (arith, occurrences-append b xs ys)

-- A name of expected characters has none of the others.
clean :
    (b : ℕ) (m : Bytes) → expected_char b ≡ false → expected_chars m ≡ true → occurrences b m ≡ 0
unfolding expected_chars
clean b [] odd ok_name = refl
clean b (x ∷ xs) odd ok_name = elim (Bool-cases (x == b)) [
  | inl same ↦ let equal : x ≡ b = (==_iff x b).0 same in absurd (cc (ok_name, odd, equal))
  | inr different ↦ elim (Bool-cases (expected_char x)) [
    | inl good ↦ rw different (omega (arith, clean b xs odd (rw good at ok_name)))
    | inr bad ↦ absurd (cc (ok_name, bad))
  ]
]

splice-occurrences :
    (b : ℕ) (ps : List Bytes) (m : Bytes)
    → occurrences b m ≡ 0
    → occurrences b (splice ps m) ≡ occurrences b (splice ps [])
unfolding splice
splice-occurrences b [] m none_in = refl
splice-occurrences b (p ∷ []) m none_in = refl
splice-occurrences b (p ∷ q ∷ ps) m none_in = omega (
  arith,
  none_in,
  splice-occurrences b (q ∷ ps) m none_in,
  occurrences-append b p (m ++ splice (q ∷ ps) m),
  occurrences-append b m (splice (q ∷ ps) m),
  occurrences-append b p (splice (q ∷ ps) []),
)

-- What is asked for a mod: nothing, or a query that has no other special characters than those that
-- it has without a name.
abbrev pub Asks : Bytes → Option Bytes → Type 0
Asks m o =
    (o ≡ none)
    ⊎ ((q : Bytes) × (o ≡ some q)
        × ((b : ℕ) → (Plain b → ⊥) → occurrences b q ≡ occurrences b (query [])))

-- For any bytes that a mod is named by, either the database is asked nothing, or the query that it
-- is asked has every character outside `a-zA-Z0-9_-` as often as the text around the name: a name
-- brings no quote, no backtick and no space of its own into the query.
pub mod_version_query-Asks : (m : Bytes) → Asks m (mod_version_query m)
unfolding mod_version_query query
mod_version_query-Asks m = elim (Bool-cases (expected_chars m)) [
  | inr odd ↦ rw odd (inl refl)
  | inl good ↦ elim (Bool-cases (same_string m (text "ladder1v1"))) [
    | inl base ↦ rw (good, base) (inl refl)
    | inr other ↦
        rw (good, other)
          (inr (
            _,
            refl,
            λ b odd. splice-occurrences b query_pieces m (clean b m (odd-if-not-Plain b odd) good),
          ))
  ]
]
