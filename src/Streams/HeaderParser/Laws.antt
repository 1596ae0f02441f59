-- ===== src/Streams/HeaderParser/Laws.antt =====
-- The parser of replay headers, and the bytes that it reads.
use faf_rust_replayserver.Base.{
  Bytes, ℕ, zero, suc, ◌≤◌, ◌<◌, ◌≡◌, refl, sym, ap, ◌∙◌, ◌⊎◌, inl, inr, Bool, true, false, [],
  ◌++◌, Option, none, some, arith, ◌==◌, not, if◌then◌else◌, ◌>>=◌, length, take, drop, All-take,
  append_assoc, length-append, length-take, take-append-drop,
}
use faf_rust_replayserver.Streams.ReplayHeader.{ReplayHeader}
use faf_rust_replayserver.Streams.HeaderParser.{
  Input, read_until_exact, skip, read_u8, read_u32_le, read_players, read_armies,
  do_from_connection, from_connection, max_size,
}
use faf_rust_replayserver.Streams.HeaderParser.Reads.{
  AreBytes, Parses, ParsesValue, read_until_exact-Parses, skip-Parses, read_u8-ParsesValue,
  read_u32_le-ParsesValue,
}

-- Steps one after the other.
module _ (r : Input) where
  after :
      (o : Option Input) (f : Input → Option Input)
      → Parses r o
      → ((r' : Input) → AreBytes r'.left → Parses r' (f r'))
      → Parses r (o >>= f)
  after o f (inl e) later = inl (rw e refl)
  after o f (inr (r', e, (k, a))) later = chain (later r' a)
    where
      chain : Parses r' (f r') → Parses r (o >>= f)
      chain (inl n) = inl (rw (e, n) refl)
      chain (inr (r'', n, (k', a'))) = inr (r'', rw (e, n) refl, (k' ∙ k, a'))

  after_value :
      (o : Option (ℕ × Input)) (f : ℕ → Input → Option Input)
      → ParsesValue r o
      → ((v : ℕ) (r' : Input) → AreBytes r'.left → Parses r' (f v r'))
      → Parses r (o >>= λ p. f p.0 p.1)
  after_value o f (inl e) later = inl (rw e refl)
  after_value o f (inr (v, r', e, (k, a))) later = chain (later v r' a)
    where
      chain : Parses r' (f v r') → Parses r (o >>= λ p. f p.0 p.1)
      chain (inl n) = inl (rw (e, n) refl)
      chain (inr (r'', n, (k', a'))) = inr (r'', rw (e, n) refl, (k' ∙ k, a'))

read_players-Parses : (n : ℕ) (r : Input) → AreBytes r.left → Parses r (read_players n r)
unfolding read_players
read_players-Parses zero r a = inr (r, refl, (refl, a))
read_players-Parses (suc n) r a =
    after r (read_until_exact 0 r) _ (read_until_exact-Parses 0 r a) λ r₁ a₁.
      after_value r₁ (read_u32_le r₁) (λ _ r₂. read_players n r₂) (read_u32_le-ParsesValue r₁ a₁)
        λ _ r₂ a₂. read_players-Parses n r₂ a₂

optional_skip-Parses :
    (b : Bool) (r : Input) → AreBytes r.left → Parses r (if b then skip 1 r else some r)
optional_skip-Parses true r a = skip-Parses 1 r a
optional_skip-Parses false r a = inr (r, refl, (refl, a))

read_armies-Parses : (n : ℕ) (r : Input) → AreBytes r.left → Parses r (read_armies n r)
unfolding read_armies
read_armies-Parses zero r a = inr (r, refl, (refl, a))
read_armies-Parses (suc n) r a =
    after_value r (read_u32_le r) _ (read_u32_le-ParsesValue r a) λ size r₁ a₁.
      after r₁ (skip size r₁) _ (skip-Parses size r₁ a₁) λ r₂ a₂.
        after_value r₂ (read_u8 r₂) _ (read_u8-ParsesValue r₂ a₂) λ player r₃ a₃.
          after r₃ (if not (player == 255) then skip 1 r₃ else some r₃) _
            (optional_skip-Parses _ r₃ a₃) λ r₄ a₄. read_armies-Parses n r₄ a₄

-- What follows a step that keeps the bytes.
abbrev Splits : Input → Option (ReplayHeader × Bytes) → Type 0
Splits r o =
    (o ≡ none)
    ⊎ ((h : ReplayHeader) × (left : Bytes) × (o ≡ some (h, left))
        × (h.bytes ++ left ≡ r.data_read ++ r.left))

-- Steps before the end.
module _ (r : Input) where
  then-Splits :
      (o : Option Input) (f : Input → Option (ReplayHeader × Bytes))
      → Parses r o
      → ((r' : Input) → AreBytes r'.left → Splits r' (f r'))
      → Splits r (o >>= f)
  then-Splits o f (inl e) later = inl (rw e refl)
  then-Splits o f (inr (r', e, (k, a))) later = chain (later r' a)
    where
      chain : Splits r' (f r') → Splits r (o >>= f)
      chain (inl n) = inl (rw (e, n) refl)
      chain (inr (h, left, n, k')) = inr (h, left, rw (e, n) refl, k' ∙ k)

  value-Splits :
      (o : Option (ℕ × Input)) (f : ℕ → Input → Option (ReplayHeader × Bytes))
      → ParsesValue r o
      → ((v : ℕ) (r' : Input) → AreBytes r'.left → Splits r' (f v r'))
      → Splits r (o >>= λ p. f p.0 p.1)
  value-Splits o f (inl e) later = inl (rw e refl)
  value-Splits o f (inr (v, r', e, (k, a))) later = chain (later v r' a)
    where
      chain : Splits r' (f v r') → Splits r (o >>= λ p. f p.0 p.1)
      chain (inl n) = inl (rw (e, n) refl)
      chain (inr (h, left, n, k')) = inr (h, left, rw (e, n) refl, k' ∙ k)

-- The header, and what is left, are together the input.
abbrev pub Headers : Bytes → Option (ReplayHeader × Bytes) → Type 0
Headers bs o =
    (o ≡ none)
    ⊎ ((h : ReplayHeader) × (left : Bytes) × (o ≡ some (h, left)) × (h.bytes ++ left ≡ bs))

do_from_connection-Headers : (bs : Bytes) → AreBytes bs → Headers bs (do_from_connection bs)
unfolding do_from_connection
do_from_connection-Headers bs a =
    then-Splits (record { data_read = []; left = bs })
      (read_until_exact 0 (record { data_read = []; left = bs })) _
      (read_until_exact-Parses 0 (record { data_read = []; left = bs }) a)
      λ r₁ a₁. then-Splits r₁ (skip 3 r₁) _ (skip-Parses 3 r₁ a₁) λ r₂ a₂.
        then-Splits r₂ (read_until_exact 0 r₂) _ (read_until_exact-Parses 0 r₂ a₂) λ r₃ a₃.
          then-Splits r₃ (skip 4 r₃) _ (skip-Parses 4 r₃ a₃) λ r₄ a₄.
            value-Splits r₄ (read_u32_le r₄) _ (read_u32_le-ParsesValue r₄ a₄) λ mods r₅ a₅.
              then-Splits r₅ (skip mods r₅) _ (skip-Parses mods r₅ a₅) λ r₆ a₆.
                value-Splits r₆ (read_u32_le r₆) _ (read_u32_le-ParsesValue r₆ a₆) λ scenario r₇ a₇.
                  then-Splits r₇ (skip scenario r₇) _ (skip-Parses scenario r₇ a₇) λ r₈ a₈.
                    value-Splits r₈ (read_u8 r₈) _ (read_u8-ParsesValue r₈ a₈) λ players r₉ a₉.
                      then-Splits r₉ (read_players players r₉) _ (read_players-Parses players r₉ a₉)
                        λ p b.
                          value-Splits p (read_u8 p) _ (read_u8-ParsesValue p b) λ cheats q₁ b₁.
                            value-Splits q₁ (read_u8 q₁) _ (read_u8-ParsesValue q₁ b₁)
                              λ armies q₂ b₂.
                                then-Splits q₂ (read_armies armies q₂) _
                                  (read_armies-Parses armies q₂ b₂)
                                  λ q₃ b₃.
                                    value-Splits q₃ (read_u32_le q₃)
                                      (λ _ last.
                                        some (record { bytes = last.data_read }, last.left))
                                      (read_u32_le-ParsesValue q₃ b₃)
                                      λ seed last b₄.
                                        inr
                                          (record { bytes = last.data_read }, last.left, refl, refl)

-- A header within the limit, and what is left, are together the input.
abbrev pub Limited : Bytes → Option (ReplayHeader × Bytes) → Type 0
Limited bs o =
    (o ≡ none)
    ⊎ ((h : ReplayHeader) × (left : Bytes) × (o ≡ some (h, left))
        × (h.bytes ++ left ≡ bs)
        × (length h.bytes ≤ max_size))

-- On any list of bytes, reading a header fails, or yields a header and a rest that are together
-- exactly the input, byte by byte, with a header of at most 1 MiB.
pub from_connection-Limited : (c : Bytes) → AreBytes c → Limited c (from_connection c)
unfolding from_connection
from_connection-Limited c a =
    limited (do_from_connection-Headers (take max_size c) (All-take (λ b. b < 256) max_size c a))
  where
    limited :
        Headers (take max_size c) (do_from_connection (take max_size c))
        → Limited c (from_connection c)
    limited (inl e) = inl (rw e refl)
    limited (inr (h, left, e, k)) = inr (
      h,
      left ++ drop max_size c,
      rw e refl,
      sym (append_assoc h.bytes left (drop max_size c))
          ∙ ap (λ t. t ++ drop max_size c) k
          ∙ take-append-drop max_size c,
      omega (arith, ap length k, length-append h.bytes left, length-take max_size c),
    )
