-- ===== src/Save/JsonHeader.antt =====
-- replay/save/json_header.rs: `ReplayJsonHeader`, from what the database returns; a failed query is
-- `none`.
pub mod Laws
use faf_rust_replayserver.Base.{
  Bytes, ℕ, ◌-◌, Bool, true, List, [], ◌∷◌, Option, none, some, ltb, if◌then◌else◌, ◌>>=◌,
}
use faf_rust_replayserver.Util.Text.{text, show_u64}
use faf_rust_replayserver.Util.StringMap.{insert}
use faf_rust_replayserver.Database.Queries.{
  TeamPlayerRow, GameStatRow, GameTeams, GameStats, get_teams_in_game, get_game_stats,
}
use faf_rust_replayserver.Database.Mods.{ModVersions, get_mod_versions}

-- `Queries`, by the rows that the database returns.
pub record Queries : Type 0 where
  pub get_team_players : ℕ → Option (List TeamPlayerRow)
  pub get_game_stat_row : ℕ → Option GameStatRow
  pub get_player_count : ℕ → Option ℕ
  pub fetch_mod_versions : Bytes → Option (List ModVersions)

pub record ReplayJsonHeader : Type 0 where
  pub complete : Bool
  pub featured_mod : Option Bytes
  pub featured_mod_versions : List (Bytes × ℕ)
  pub game_end : ℕ
  pub game_type : Bytes
  pub host : Bytes
  pub launched_at : ℕ
  pub mapname : Bytes
  pub num_players : ℕ
  pub recorder : Bytes
  pub state : Bytes
  pub teams : List (Bytes × List Bytes)
  pub title : Bytes
  pub uid : ℕ
  pub compression : Bytes
  pub version : ℕ

-- `to_string` of a team, which is an `i8` and stands here by its number plus 128.
abbrev pub show_team : ℕ → Bytes
show_team k = if ltb k 128 then b'-' ∷ show_u64 (128 - k) else show_u64 (k - 128)

-- The loop of `fixup_team_dict`, from the first entry on.
unfoldable pub fixup_from : List (Bytes × List Bytes) → GameTeams → List (Bytes × List Bytes)
fixup_from out [] = out
fixup_from out ((k, v) ∷ d) = fixup_from (insert (show_team k) v out) d

unfoldable pub fixup_team_dict : GameTeams → List (Bytes × List Bytes)
fixup_team_dict d = fixup_from [] d

unfoldable pub mod_versions : Queries → Option Bytes → List (Bytes × ℕ)
mod_versions db none = []
mod_versions db (some v) = get_mod_versions db.fetch_mod_versions v

-- `now` is the time of the call.
unfoldable pub from_id_and_db : Queries → ℕ → ℕ → Option ReplayJsonHeader
from_id_and_db db now uid = do
  game_stats ← get_game_stats db.get_game_stat_row db.get_player_count now uid
  teams ← get_teams_in_game db.get_team_players uid
  some (record {
    complete = true;
    featured_mod = game_stats.featured_mod;
    featured_mod_versions = mod_versions db game_stats.featured_mod;
    game_end = game_stats.game_end;
    game_type = game_stats.game_type;
    host = game_stats.host;
    launched_at = game_stats.launched_at;
    mapname = game_stats.mapname;
    num_players = game_stats.num_players;
    recorder = game_stats.host;
    state = text "PLAYING";
    teams = fixup_team_dict teams;
    title = game_stats.title;
    uid = uid;
    compression = text "zstd";
    version = 2;
  })
