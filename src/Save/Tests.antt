-- ===== src/Save/Tests.antt =====
-- Witnesses for what is saved.
use faf_rust_replayserver.Base.{
  Bytes, ◌≡◌, refl, true, [], ◌∷◌, map, List, Option, some, none, arith, take,
}
use faf_rust_replayserver.Samples.{bytes, finished_merged, finished_merged-Holds}
use faf_rust_replayserver.Util.Text.{text, show_u64, digits}
use faf_rust_replayserver.Streams.MergedReplay.Read.{visible}
use faf_rust_replayserver.Database.Queries.{
  TeamPlayerRow, GameStatRow, get_game_stats, get_teams_in_game, unmangle_map_name, group_players,
  after_last, push_login, before_last,
}
use faf_rust_replayserver.Util.StringMap.{insert}
use faf_rust_replayserver.Save.Directory.{SavedReplayDirectory, Files, replay_path}
use faf_rust_replayserver.Save.Directory.Laws.{groups, replay_path-groups}
use faf_rust_replayserver.Save.Writer.{Output, complete, write_replay_file}
use faf_rust_replayserver.Save.Writer.Laws.{read_back, write_replay_file-read_back}
use faf_rust_replayserver.Save.JsonHeader
use faf_rust_replayserver.Save.JsonHeader.{Queries, ReplayJsonHeader, from_id_and_db}
use faf_rust_replayserver.Save.JsonHeader.Laws.{Lists, from_id_and_db-Lists}
use faf_rust_replayserver.Save.Saver.{InnerReplaySaver, Calls, save_replay}
use faf_rust_replayserver.Save.Saver.Laws.{Saves, save_replay-Saves}

abbrev directory : SavedReplayDirectory
directory = record { root = text "vault" ∷ [] }

replay_path-groups_example :
    replay_path directory 12345678 ≡ some (text "vault" ∷ map show_u64 (groups 12345678))
replay_path-groups_example = replay_path-groups directory 12345678 (omega arith)

-- An encoder that puts its level first.
abbrev output : Output
output = record { encode = λ level bs. level ∷ bs; takes = λ bs. true; room = 3; polls = 9 }

abbrev decode : Bytes → Option Bytes
decode [] = none
decode (level ∷ bs) = some bs

write_replay_file-read_back_example :
    (file : Bytes) × (write_replay_file output (some (text "{}")) finished_merged 10
      ≡ some (complete file))
    × (read_back decode file ≡ some (text "{}", visible finished_merged bytes))
unfolding take
write_replay_file-read_back_example =
    write_replay_file-read_back output decode (text "{}") 10 finished_merged bytes
      finished_merged-Holds refl (omega arith, omega arith) (refl, (refl, tt)) refl (λ bs. refl)

abbrev rows : List TeamPlayerRow
rows =
    record { login = 4 ∷ []; team = 129 }
    ∷ record { login = 5 ∷ []; team = 127 }
    ∷ record { login = 6 ∷ []; team = 129 }
    ∷ []

abbrev game : GameStatRow
game = record {
  start_time = 100;
  end_time = some 200;
  game_type = text "0";
  host = text "user1";
  game_name = text "2v2";
  game_mod = none;
  file_name = some (text "maps/scmp_1.zip");
}

abbrev db : Queries
db = record {
  get_team_players = λ id. some rows;
  get_game_stat_row = λ id. some game;
  get_player_count = λ id. some 3;
  fetch_mod_versions = λ q. none;
}

abbrev json_header : ReplayJsonHeader
json_header = record {
  complete = true;
  featured_mod = none;
  featured_mod_versions = [];
  game_end = 200;
  game_type = text "0";
  host = text "user1";
  launched_at = 100;
  mapname = text "scmp_1";
  num_players = 3;
  recorder = text "user1";
  state = text "PLAYING";
  teams = (text "-1", (5 ∷ []) ∷ []) ∷ (text "1", (4 ∷ []) ∷ (6 ∷ []) ∷ []) ∷ [];
  title = text "2v2";
  uid = 7;
  compression = text "zstd";
  version = 2;
}

json_header-made : from_id_and_db db 300 7 ≡ some json_header
unfolding from_id_and_db JsonHeader.fixup_team_dict JsonHeader.fixup_from JsonHeader.mod_versions
    get_game_stats get_teams_in_game unmangle_map_name group_players after_last push_login
    before_last insert digits
json_header-made = refl

from_id_and_db-Lists_example : Lists rows json_header
from_id_and_db-Lists_example =
    from_id_and_db-Lists db 300 7 rows json_header refl
      (omega arith, (omega arith, (omega arith, tt))) json_header-made

abbrev saver : InnerReplaySaver
saver = record { db = db; save_dir = directory; compression_level = 10 }

abbrev calls : Calls
calls = record {
  output = output;
  to_string = λ h. some (text "{}");
  parse_body_ticks = λ b start. some 1;
  now = 300;
}

abbrev no_files : Files
no_files = record { paths = []; can_create_dir = λ p. true; can_open = λ p. true }

save_replay-Saves_example :
    Saves saver calls no_files finished_merged bytes 7
      (save_replay saver calls no_files finished_merged 7)
unfolding take
save_replay-Saves_example =
    save_replay-Saves saver calls no_files finished_merged bytes 7 finished_merged-Holds refl
      (omega arith, omega arith) (omega arith)
