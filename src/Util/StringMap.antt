-- ===== src/Util/StringMap.antt =====
-- A `BTreeMap` with strings as keys: its entries in the order of the keys, the strings as bytes.
pub mod Laws
use faf_rust_replayserver.Base.{
  Bytes, ℕ, Bool, true, false, ◌&&◌, List, [], ◌∷◌, Option, none, some, ltb, ◌==◌, if◌then◌else◌,
}

abbrev pub same_string : Bytes → Bytes → Bool
same_string [] [] = true
same_string [] (y ∷ ys) = false
same_string (x ∷ xs) [] = false
same_string (x ∷ xs) (y ∷ ys) = x == y && same_string xs ys

-- The order of strings.
abbrev pub string_lt : Bytes → Bytes → Bool
string_lt xs [] = false
string_lt [] (y ∷ ys) = true
string_lt (x ∷ xs) (y ∷ ys) = let rest = string_lt xs ys in if x == y then rest else ltb x y

module _ {ℓ} {V : Type ℓ} where
  unfoldable pub insert : Bytes → V → List (Bytes × V) → List (Bytes × V)
  insert k v [] = (k, v) ∷ []
  insert k v ((j, w) ∷ m) =
      let rest = insert k v m in
      if same_string k j
      then (k, v) ∷ m
      else if string_lt k j
      then (k, v) ∷ (j, w) ∷ m
      else (j, w) ∷ rest

  unfoldable pub lookup : Bytes → List (Bytes × V) → Option V
  lookup k [] = none
  lookup k ((j, w) ∷ m) = let rest = lookup k m in if same_string k j then some w else rest
