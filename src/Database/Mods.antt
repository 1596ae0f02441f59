-- ===== src/Database/Mods.antt =====
-- database/database.rs and database/queries.rs: the versions of a mod, and the update of the
-- statistics. The database is a function from the text of a query; a failed query is `none`.
pub mod Laws
pub mod Versions
use faf_rust_replayserver.Base.{
  Bytes, ℕ, Bool, true, false, not, ◌&&◌, ◌||◌, List, [], ◌∷◌, ◌++◌, Option, none, some, leb, ◌==◌,
  if◌then◌else◌, ◌>>=◌,
}
use faf_rust_replayserver.Util.Text.{text, show_u64}
use faf_rust_replayserver.Util.StringMap.{same_string, insert}

-- A row. A version is an `i32`, by its number plus 2 ^ 31.
pub record ModVersions : Type 0 where
  pub file_id : ℕ
  pub version : ℕ

-- A character of `a-zA-Z0-9_-`. The others are bytes of which none is one of these.
unfoldable pub expected_char : ℕ → Bool
expected_char c =
    (leb b'a' c && leb c b'z')
    || (leb b'A' c && leb c b'Z')
    || (leb b'0' c && leb c b'9')
    || c == b'_'
    || c == b'-'

unfoldable pub expected_chars : Bytes → Bool
expected_chars [] = true
expected_chars (c ∷ cs) = expected_char c && expected_chars cs

-- `format!`: a name in all its places.
unfoldable pub splice : List Bytes → Bytes → Bytes
splice [] m = []
splice (p ∷ []) m = p
splice (p ∷ q ∷ ps) m = p ++ (m ++ splice (q ∷ ps) m)

-- The text of the query around the name.
abbrev pub query_pieces : List Bytes
query_pieces =
    text "\n            SELECT\n                `updates_"
    ∷ text "_files`.`fileId` AS file_id,\n                MAX(`updates_"
    ∷ text "_files`.`version`) AS version\n            FROM `updates_"
    ∷ text "`\n            INNER JOIN `updates_"
    ∷ text "_files` ON `fileId` = `updates_"
    ∷ text "`.`id`\n            GROUP BY `updates_"
    ∷ text "_files`.`fileId`\n        "
    ∷ []

unfoldable pub query : Bytes → Bytes
query game_mod = splice query_pieces game_mod

-- What is asked of the database, if anything.
unfoldable pub mod_version_query : Bytes → Option Bytes
mod_version_query game_mod =
    if not (expected_chars game_mod)
    then none
    else if same_string game_mod (text "ladder1v1")
    then none
    else some (query game_mod)

unfoldable pub get_mod_version_list : (Bytes → Option (List ModVersions)) → Bytes → List ModVersions
get_mod_version_list fetch_all game_mod = elim (mod_version_query game_mod) [
  | none ↦ []
  | some q ↦ elim (fetch_all q) [ none ↦ [] | some v ↦ v ]
]

-- The loop of `get_mod_versions`.
unfoldable pub collect_versions : List (Bytes × ℕ) → List ModVersions → List (Bytes × ℕ)
collect_versions ret [] = ret
collect_versions ret (m ∷ mods) = collect_versions (insert (show_u64 m.file_id) m.version ret) mods

unfoldable pub get_mod_versions : (Bytes → Option (List ModVersions)) → Bytes → List (Bytes × ℕ)
get_mod_versions fetch_all game_mod = collect_versions [] (get_mod_version_list fetch_all game_mod)
