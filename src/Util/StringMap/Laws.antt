-- ===== src/Util/StringMap/Laws.antt =====
-- `insert` and `lookup` of a map.
use mathlib.Core.Bool.{false≢true}
use faf_rust_replayserver.Base.{
  Bytes, ◌≡◌, refl, sym, ap, ap₂, ◌∙◌, inl, inr, true, false, List, [], ◌∷◌, some, arith, ◌==◌,
  ==_iff, if◌then◌else◌, Bool-cases,
}
use faf_rust_replayserver.Util.StringMap.{same_string, string_lt, insert, lookup}

pub same_string_refl : (xs : Bytes) → same_string xs xs ≡ true
same_string_refl [] = refl
same_string_refl (x ∷ xs) =
    let same : (x == x) ≡ true = ground arith in rw same (same_string_refl xs)

pub same_string-eq : (xs ys : Bytes) → same_string xs ys ≡ true → xs ≡ ys
same_string-eq [] [] h = refl
same_string-eq [] (y ∷ ys) h = cc
same_string-eq (x ∷ xs) [] h = cc
same_string-eq (x ∷ xs) (y ∷ ys) h = elim (Bool-cases (x == y)) [
  | inl e ↦ ap₂ ◌∷◌ ((==_iff x y).0 e) (same_string-eq xs ys (rw e at h))
  | inr n ↦ absurd (cc (h, n))
]

-- A key that equals another differs from what that differs from.
same_string_trans : (k j i : Bytes) → same_string k i ≡ true → same_string j i ≡ same_string j k
same_string_trans k j i h = ap (same_string j) (sym (same_string-eq k i h))

pub same_string-apart :
    (k j i : Bytes) → same_string j i ≡ true → same_string k i ≡ false → same_string j k ≡ false
same_string-apart k j i h n = elim (Bool-cases (same_string j k)) [
  | inl e ↦
      let equal : i ≡ k = sym (same_string-eq j i h) ∙ same_string-eq j k e in
      absurd (false≢true (sym n ∙ ap (same_string k) equal ∙ same_string_refl k))
  | inr e ↦ e
]

module _ {ℓ} {V : Type ℓ} where
  pub lookup-insert :
      (k j : Bytes) (v : V) (m : List (Bytes × V))
      → lookup j (insert k v m) ≡ (if same_string j k then some v else lookup j m)
  unfolding lookup insert
  lookup-insert k j v [] = refl
  lookup-insert k j v ((i, w) ∷ m) = elim (Bool-cases (same_string k i)) [
    | inl e ↦
        rw (e, same_string_trans k j i e)
          (elim (Bool-cases (same_string j k)) [ inl f ↦ rw f refl | inr f ↦ rw f refl ])
    | inr n ↦ elim (Bool-cases (string_lt k i)) [
      | inl before ↦ rw (n, before) refl
      | inr after ↦
          rw (n, after)
            (elim (Bool-cases (same_string j i)) [
              | inl f ↦ rw (f, same_string-apart k j i f n) refl
              | inr f ↦ rw f (lookup-insert k j v m)
            ])
    ]
  ]
