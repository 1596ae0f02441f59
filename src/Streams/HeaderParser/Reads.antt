-- ===== src/Streams/HeaderParser/Reads.antt =====
-- What each read of a piece of the header keeps.
use faf_rust_replayserver.Base.{
  Bytes, ℕ, ◌+◌, ◌*◌, ◌/◌, ◌%◌, ◌<◌, ◌≡◌, refl, ap, ap₂, ◌∙◌, ◌⊎◌, inl, inr, [], ◌∷◌, ◌++◌, Option,
  none, some, arith, ltb, ◌==◌, ◌>>=◌, length, take, drop, All, All-drop, append_assoc,
  take-append-drop, Bool-cases,
}
use faf_rust_replayserver.Streams.HeaderParser.{
  Input, split_after, read_until_exact, skip, read_u8, le_bytes, take_u8, take_u32, read_u32_le,
}

-- The numbers that a connection delivers are bytes.
abbrev pub AreBytes : Bytes → Type 0
AreBytes = All (λ b. b < 256)

-- What was read and what is left are together what they were.
abbrev pub Kept : Input → Input → Type 0
Kept r r' = (r'.data_read ++ r'.left ≡ r.data_read ++ r.left) × AreBytes r'.left

abbrev pub Parses : Input → Option Input → Type 0
Parses r o = (o ≡ none) ⊎ ((r' : Input) × (o ≡ some r') × Kept r r')

abbrev pub ParsesValue : Input → Option (ℕ × Input) → Type 0
ParsesValue r o = (o ≡ none) ⊎ ((v : ℕ) × (r' : Input) × (o ≡ some (v, r')) × Kept r r')

moved :
    (r r' : Input) (taken : Bytes)
    → r'.data_read ≡ r.data_read ++ taken
    → taken ++ r'.left ≡ r.left
    → r'.data_read ++ r'.left ≡ r.data_read ++ r.left
moved r r' taken e f =
    ap (λ d. d ++ r'.left) e ∙ append_assoc r.data_read taken r'.left ∙ ap (λ l. r.data_read ++ l) f

abbrev Cuts : Bytes → Option (Bytes × Bytes) → Type 0
Cuts bs o =
    (o ≡ none)
    ⊎ ((taken : Bytes) × (left : Bytes) × (o ≡ some (taken, left))
        × (taken ++ left ≡ bs)
        × AreBytes left)

cons_Cuts :
    (b : ℕ) (bs : Bytes) (o : Option (Bytes × Bytes))
    → Cuts bs o
    → Cuts (b ∷ bs) (o >>= λ p. some (b ∷ p.0, p.1))
cons_Cuts b bs o (inl e) = inl (rw e refl)
cons_Cuts b bs o (inr (taken, left, e, f, a)) = inr (b ∷ taken, left, rw e refl, ap (◌∷◌ b) f, a)

split_after-Cuts : (delimiter : ℕ) (bs : Bytes) → AreBytes bs → Cuts bs (split_after delimiter bs)
unfolding split_after
split_after-Cuts delimiter [] a = inl refl
split_after-Cuts delimiter (b ∷ bs) a = elim (Bool-cases (b == delimiter)) [
  | inl hit ↦ rw hit (inr (b ∷ [], bs, refl, refl, a.1))
  | inr miss ↦
      rw miss (cons_Cuts b bs (split_after delimiter bs) (split_after-Cuts delimiter bs a.1))
]

pub read_until_exact-Parses :
    (delimiter : ℕ) (r : Input) → AreBytes r.left → Parses r (read_until_exact delimiter r)
unfolding read_until_exact
read_until_exact-Parses delimiter r a = cut_then (split_after-Cuts delimiter r.left a)
  where
    cut_then : Cuts r.left (split_after delimiter r.left) → Parses r (read_until_exact delimiter r)
    cut_then (inl e) = inl (rw e refl)
    cut_then (inr (taken, left, e, f, b)) =
        let r' : Input = record { data_read = r.data_read ++ taken; left = left } in
        inr (r', rw e refl, (moved r r' taken refl f, b))

pub skip-Parses : (count : ℕ) (r : Input) → AreBytes r.left → Parses r (skip count r)
unfolding skip
skip-Parses count r a = elim (Bool-cases (ltb (length r.left) count)) [
  | inl short ↦ rw short (inl refl)
  | inr enough ↦
      let r' : Input = record {
        data_read = r.data_read ++ take count r.left;
        left = drop count r.left;
      } in
      rw enough (
        inr (
          r',
          refl,
          (
            moved r r' (take count r.left) refl (take-append-drop count r.left),
            All-drop _ count r.left a,
          ),
        ))
]

-- A value, and the bytes that stand for it.
abbrev Takes : (ℕ → Bytes) → Bytes → Option (ℕ × Bytes) → Type 0
Takes print bs o =
    (o ≡ none)
    ⊎ ((v : ℕ) × (left : Bytes) × (o ≡ some (v, left)) × (print v ++ left ≡ bs) × AreBytes left)

value_then :
    (print : ℕ → Bytes) (r : Input) (o : Option (ℕ × Bytes))
    → Takes print r.left o
    → ParsesValue r
        (o >>= λ p. some (p.0, record { data_read = r.data_read ++ print p.0; left = p.1 }))
value_then print r o (inl e) = inl (rw e refl)
value_then print r o (inr (v, left, e, f, a)) =
    let r' : Input = record { data_read = r.data_read ++ print v; left = left } in
    inr (v, r', rw e refl, (moved r r' (print v) refl f, a))

take_u8-Takes : (bs : Bytes) → AreBytes bs → Takes (λ v. v ∷ []) bs (take_u8 bs)
unfolding take_u8
take_u8-Takes [] a = inl refl
take_u8-Takes (b ∷ bs) a = inr (b, bs, refl, refl, a.1)

pub read_u8-ParsesValue : (r : Input) → AreBytes r.left → ParsesValue r (read_u8 r)
unfolding read_u8
read_u8-ParsesValue r a = value_then (λ v. v ∷ []) r (take_u8 r.left) (take_u8-Takes r.left a)

-- Four bytes are the bytes of the number they make.
le_bytes_lem :
    (a b c d : ℕ)
    → a < 256
    → b < 256
    → c < 256
    → d < 256
    → le_bytes (a + 256 * b + 65536 * c + 16777216 * d) ≡ a ∷ b ∷ c ∷ d ∷ []
unfolding le_bytes
le_bytes_lem a b c d p q r s =
    let v = a + 256 * b + 65536 * c + 16777216 * d in
    let e₀ : v % 256 ≡ a = omega (arith, p) in
    let e₁ : v / 256 % 256 ≡ b = omega (arith, p, q) in
    let e₂ : v / 65536 % 256 ≡ c = omega (arith, p, q, r) in
    let e₃ : v / 16777216 % 256 ≡ d = omega (arith, p, q, r, s) in
    ap₂ ◌∷◌ e₀ (ap₂ ◌∷◌ e₁ (ap₂ ◌∷◌ e₂ (ap (λ x. x ∷ []) e₃)))

take_u32-Takes : (bs : Bytes) → AreBytes bs → Takes le_bytes bs (take_u32 bs)
unfolding take_u32
take_u32-Takes (a ∷ b ∷ c ∷ d ∷ bs) (p, (q, (r, (s, rest)))) =
    inr (_, bs, refl, ap (λ t. t ++ bs) (le_bytes_lem a b c d p q r s), rest)
take_u32-Takes [] _ = inl refl
take_u32-Takes (a ∷ []) _ = inl refl
take_u32-Takes (a ∷ b ∷ []) _ = inl refl
take_u32-Takes (a ∷ b ∷ c ∷ []) _ = inl refl

pub read_u32_le-ParsesValue : (r : Input) → AreBytes r.left → ParsesValue r (read_u32_le r)
unfolding read_u32_le
read_u32_le-ParsesValue r a = value_then le_bytes r (take_u32 r.left) (take_u32-Takes r.left a)
