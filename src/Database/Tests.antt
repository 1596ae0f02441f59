-- ===== src/Database/Tests.antt =====
-- Witnesses for what is computed from rows.
use faf_rust_replayserver.Base.{◌≡◌, refl, [], ◌∷◌, ◌++◌, some}
use faf_rust_replayserver.Database.Queries.{unmangle_map_name, dot, slash}
use faf_rust_replayserver.Util.Text.{text}
use faf_rust_replayserver.Database.Mods.{mod_version_query}
use faf_rust_replayserver.Database.Mods.Laws.{Asks, mod_version_query-Asks}
use faf_rust_replayserver.Database.Queries.MapName.{unmangle_map_name-path}

-- The name `a.b` in a directory with a dot.
unmangle_map_name-path_example :
    unmangle_map_name (some ((1 ∷ 46 ∷ [] ++ slash ∷ 97 ∷ 46 ∷ 98 ∷ []) ++ dot ∷ 122 ∷ []))
    ≡ 97 ∷ 46 ∷ 98 ∷ []
unmangle_map_name-path_example =
    unmangle_map_name-path (1 ∷ 46 ∷ []) (97 ∷ 46 ∷ 98 ∷ []) (122 ∷ []) refl refl

-- The name of the usual mod.
mod_version_query-Asks_example : Asks (text "faf") (mod_version_query (text "faf"))
mod_version_query-Asks_example = mod_version_query-Asks (text "faf")
