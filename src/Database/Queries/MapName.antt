-- ===== src/Database/Queries/MapName.antt =====
-- `unmangle_map_name`: the name between the last slash and the last dot.
use faf_rust_replayserver.Base.{
  Bytes, ℕ, ◌≡◌, ap, ◌∙◌, true, false, [], ◌∷◌, ◌++◌, some, arith, ◌==◌,
}
use faf_rust_replayserver.Database.Queries.{
  contains_byte, before_last, after_last, unmangle_map_name, dot, slash,
}

contains_byte-mid : (d : ℕ) (xs ys : Bytes) → contains_byte d (xs ++ d ∷ ys) ≡ true
contains_byte-mid d [] ys = ground arith
contains_byte-mid d (x ∷ xs) ys = ground (arith, contains_byte-mid d xs ys)

before_last-mid :
    (d : ℕ) (xs ys : Bytes) → contains_byte d ys ≡ false → before_last d (xs ++ d ∷ ys) ≡ xs
unfolding before_last
before_last-mid d [] ys free = let same : (d == d) ≡ true = ground arith in rw (free, same)
before_last-mid d (x ∷ xs) ys free =
    rw (contains_byte-mid d xs ys) (ap (◌∷◌ x) (before_last-mid d xs ys free))

after_last-mid :
    (d : ℕ) (xs ys : Bytes) → contains_byte d ys ≡ false → after_last d (xs ++ d ∷ ys) ≡ ys
unfolding after_last
after_last-mid d [] ys free = let same : (d == d) ≡ true = ground arith in rw (free, same)
after_last-mid d (x ∷ xs) ys free = rw (contains_byte-mid d xs ys) (after_last-mid d xs ys free)

-- The map name of a file is what stands between its last slash and its last dot: for a directory,
-- a name without a slash and an extension without a dot, `unmangle_map_name` of the path they make
-- is the name.
pub unmangle_map_name-path :
    (dir name ext : Bytes)
    → contains_byte slash name ≡ false
    → contains_byte dot ext ≡ false
    → unmangle_map_name (some ((dir ++ slash ∷ name) ++ dot ∷ ext)) ≡ name
unfolding unmangle_map_name
unmangle_map_name-path dir name ext no_slash no_dot =
    ap (after_last slash) (before_last-mid dot (dir ++ slash ∷ name) ext no_dot)
    ∙ after_last-mid slash dir name no_slash
