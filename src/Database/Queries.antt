-- ===== src/Database/Queries.antt =====
-- database/queries.rs: `Queries`. The database is a function that the definitions take; a string is
-- the list of its bytes, and a failed query is `none`. A team (an `i8`) is its number plus 128, which
-- keeps the order of the `BTreeMap`.
pub mod Teams
pub mod MapName
use faf_rust_replayserver.Base.{
  Bytes, ℕ, ◌+◌, ◌-◌, Bool, true, false, ◌||◌, List, [], ◌∷◌, ◌++◌, Option, none, some, ltb, ◌==◌,
  if◌then◌else◌, ◌>>=◌,
}

-- database/database.rs
pub record TeamPlayerRow : Type 0 where
  pub login : Bytes
  pub team : ℕ

pub record GameStatRow : Type 0 where
  pub start_time : ℕ
  pub end_time : Option ℕ
  pub game_type : Bytes
  pub host : Bytes
  pub game_name : Bytes
  pub game_mod : Option Bytes
  pub file_name : Option Bytes

-- The entries of a `BTreeMap<i8, Vec<String>>`, in the order of the keys.
abbrev pub GameTeams : Type 0
GameTeams = List (ℕ × List Bytes)

-- `entry(team).or_insert_with(Vec::new).push(login)`
unfoldable pub push_login : ℕ → Bytes → GameTeams → GameTeams
push_login team login [] = (team, login ∷ []) ∷ []
push_login team login ((k, logins) ∷ m) =
    if team == k
    then (k, logins ++ login ∷ []) ∷ m
    else if ltb team k
    then (team, login ∷ []) ∷ (k, logins) ∷ m
    else (k, logins) ∷ push_login team login m

-- The loop of `get_teams_in_game`.
unfoldable pub group_players : GameTeams → List TeamPlayerRow → GameTeams
group_players res [] = res
group_players res (p ∷ players) = group_players (push_login p.team p.login res) players

unfoldable pub get_teams_in_game : (ℕ → Option (List TeamPlayerRow)) → ℕ → Option GameTeams
get_teams_in_game get_team_players id = do
  players ← get_team_players id
  some (group_players [] players)

abbrev pub contains_byte : ℕ → Bytes → Bool
contains_byte d [] = false
contains_byte d (b ∷ bs) = b == d || contains_byte d bs

-- `rsplitn(2, d).last()`: what stands before the last `d`, or everything.
unfoldable pub before_last : ℕ → Bytes → Bytes
before_last d [] = []
before_last d (b ∷ bs) =
    let rest = before_last d bs in
    if contains_byte d bs then b ∷ rest else if b == d then [] else b ∷ rest

-- `rsplitn(2, d).next()`: what stands after the last `d`, or everything.
unfoldable pub after_last : ℕ → Bytes → Bytes
after_last d [] = []
after_last d (b ∷ bs) =
    let rest = after_last d bs in if contains_byte d bs then rest else if b == d then bs else b ∷ bs

-- `'.'`, `'/'` and `"None"`
abbrev pub dot : ℕ
dot = 46

abbrev pub slash : ℕ
slash = 47

abbrev pub none_name : Bytes
none_name = 78 ∷ 111 ∷ 110 ∷ 101 ∷ []

unfoldable pub unmangle_map_name : Option Bytes → Bytes
unmangle_map_name none = none_name
unmangle_map_name (some f) = after_last slash (before_last dot f)

pub record GameStats : Type 0 where
  pub featured_mod : Option Bytes
  pub game_type : Bytes
  pub host : Bytes
  pub launched_at : ℕ
  pub game_end : ℕ
  pub title : Bytes
  pub mapname : Bytes
  pub num_players : ℕ

-- Times are Unix timestamps; `now` is the time of the call.
unfoldable pub get_game_stats : (ℕ → Option GameStatRow) → (ℕ → Option ℕ) → ℕ → ℕ → Option GameStats
get_game_stats get_game_stat_row get_player_count now id = do
  stats ← get_game_stat_row id
  player_count ← get_player_count id
  some (record {
    featured_mod = stats.game_mod;
    game_type = stats.game_type;
    host = stats.host;
    launched_at = stats.start_time;
    game_end = elim stats.end_time [ none ↦ now | some t ↦ t ];
    title = stats.game_name;
    mapname = unmangle_map_name stats.file_name;
    num_players = player_count;
  })
