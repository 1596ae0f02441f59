-- ===== src/Receive/Sets.antt =====
-- The standard collections as the strategy uses them. A `HashSet<u64>` is a list without repetition,
-- in the order in which it is iterated; a `HashMap` that is only looked up is a function, and one
-- that is iterated is a list of entries.
pub mod Laws
use faf_rust_replayserver.Base.{
  ℕ, Bool, true, false, ◌||◌, List, [], ◌∷◌, ◌++◌, Option, none, some, ◌==◌, ◌≡◌, if◌then◌else◌,
}

unfoldable pub contains : List ℕ → ℕ → Bool
contains [] a = false
contains (x ∷ xs) a = x == a || contains xs a

-- `HashSet::insert`
unfoldable pub insert : ℕ → List ℕ → List ℕ
insert a xs = if contains xs a then xs else xs ++ a ∷ []

-- `HashSet::remove`
unfoldable pub remove : ℕ → List ℕ → List ℕ
remove a [] = []
remove a (x ∷ xs) = let rest = remove a xs in if x == a then rest else x ∷ rest

-- `HashSet::extend`, `collect`
unfoldable pub extend : List ℕ → List ℕ → List ℕ
extend xs [] = xs
extend xs (a ∷ as') = extend (insert a xs) as'

-- `HashMap::insert`, and a change through `HashMap::get_mut`
abbrev pub update {ℓ} : {A : Type ℓ} → (ℕ → Option A) → ℕ → A → ℕ → Option A
update f k v j = if k == j then some v else f j

-- The entries of a `HashMap<u8, Vec<u64>>`.
abbrev pub Entries : Type 0
Entries = List (ℕ × List ℕ)

-- `get_mut(&byte).push(id)`, after an empty vector was inserted if the byte had none
unfoldable pub push_entry : ℕ → ℕ → Entries → Entries
push_entry byte id [] = (byte, id ∷ []) ∷ []
push_entry byte id ((k, ids) ∷ m) =
    if k == byte then (k, ids ++ id ∷ []) ∷ m else (k, ids) ∷ push_entry byte id m

unfoldable pub get_entry : ℕ → Entries → Option (List ℕ)
get_entry byte [] = none
get_entry byte ((k, ids) ∷ m) = if k == byte then some ids else get_entry byte m

unfoldable pub remove_entry : ℕ → Entries → Entries
remove_entry byte [] = []
remove_entry byte ((k, ids) ∷ m) =
    let rest = remove_entry byte m in if k == byte then rest else (k, ids) ∷ rest

-- Whether `id` is among the replays under `byte`.
unfoldable pub contains_entry : ℕ → ℕ → Entries → Bool
contains_entry byte id [] = false
contains_entry byte id ((k, ids) ∷ m) =
    if k == byte then contains ids id else contains_entry byte id m

-- A list without repetition.
abbrev pub Distinct : List ℕ → Type 0
Distinct [] = Unit
Distinct (x ∷ xs) = (contains xs x ≡ false) × Distinct xs
