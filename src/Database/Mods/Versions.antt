-- ===== src/Database/Mods/Versions.antt =====
-- The loop of `get_mod_versions`, against the rows.
use faf_rust_replayserver.Base.{
  Bytes, ℕ, ◌<◌, ◌≡◌, refl, ap, ◌∙◌, List, [], ◌∷◌, Option, none, some, ◌==◌, if◌then◌else◌, All,
}
use faf_rust_replayserver.Util.Text.{show_u64, u64_mod}
use faf_rust_replayserver.Util.Text.Laws.{show_u64-same}
use faf_rust_replayserver.Util.StringMap.{insert, lookup}
use faf_rust_replayserver.Util.StringMap.Laws.{lookup-insert}
use faf_rust_replayserver.Database.Mods.{ModVersions, collect_versions}

-- The version of a file in the last of its rows, or what was known before.
abbrev pub last_version : ℕ → Option ℕ → List ModVersions → Option ℕ
last_version id known [] = known
last_version id known (m ∷ mods) =
    last_version id (if id == m.file_id then some m.version else known) mods

-- File ids are `u64`.
abbrev pub AreIds : List ModVersions → Type 0
AreIds = All (λ m. m.file_id < u64_mod)

collect_versions-from :
    (id : ℕ) (ret : List (Bytes × ℕ)) (mods : List ModVersions)
    → id < u64_mod
    → AreIds mods
    → lookup (show_u64 id) (collect_versions ret mods)
      ≡ last_version id (lookup (show_u64 id) ret) mods
unfolding collect_versions
collect_versions-from id ret [] lt a = refl
collect_versions-from id ret (m ∷ mods) lt a =
    collect_versions-from id (insert (show_u64 m.file_id) m.version ret) mods lt a.1
    ∙ ap (λ o. last_version id o mods)
        (lookup-insert (show_u64 m.file_id) (show_u64 id) m.version ret
          ∙ ap (λ b. if b then some m.version else lookup (show_u64 id) ret)
              (show_u64-same id m.file_id lt a.0))

-- The collected map has, under the decimal text of a file id, the version of the last row of that
-- file, and nothing if there is no such row; ids are below 2 ^ 64.
pub collect_versions-last :
    (id : ℕ) (mods : List ModVersions)
    → id < u64_mod
    → AreIds mods
    → lookup (show_u64 id) (collect_versions [] mods) ≡ last_version id none mods
unfolding lookup
collect_versions-last id mods lt a = collect_versions-from id [] mods lt a
