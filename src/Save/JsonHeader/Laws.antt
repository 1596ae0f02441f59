-- ===== src/Save/JsonHeader/Laws.antt =====
-- The teams of the JSON header, against the rows.
use mathlib.Core.Path.{subst}
use faf_rust_replayserver.Base.{
  Bytes, ℕ, ◌-◌, ◌<◌, ◌≡◌, refl, sym, ap, ◌∙◌, inl, inr, true, false, List, [], ◌∷◌, Option, none,
  some, arith, ltb, ◌==◌, ==_iff, if◌then◌else◌, bind-eq-some, Bool-cases, All,
}
use faf_rust_replayserver.Util.Text.{show_u64, u64_mod}
use faf_rust_replayserver.Util.Text.Laws.{show_u64-same, show_u64-IsDigit, IsDigit}
use faf_rust_replayserver.Util.StringMap.{same_string, insert, lookup}
use faf_rust_replayserver.Util.StringMap.Laws.{lookup-insert}
use faf_rust_replayserver.Database.Queries.{
  TeamPlayerRow, GameTeams, push_login, group_players, get_teams_in_game, get_game_stats,
}
use faf_rust_replayserver.Database.Queries.Teams.{
  Sorted, members, players_of, get_teams_in_game-Groups,
}
use faf_rust_replayserver.Save.JsonHeader.{
  Queries, ReplayJsonHeader, show_team, fixup_from, fixup_team_dict, from_id_and_db,
}

-- A number has no minus sign.
unsigned : (n : ℕ) (xs : Bytes) → n < u64_mod → same_string (b'-' ∷ xs) (show_u64 n) ≡ false
unsigned n xs lt = by_digits (show_u64 n) (show_u64-IsDigit n lt)
  where
    by_digits : (ds : Bytes) → All IsDigit ds → same_string (b'-' ∷ xs) ds ≡ false
    by_digits [] a = refl
    by_digits (d ∷ ds) a = let differ : (b'-' == d) ≡ false = ground (arith, a.0) in rw differ refl

same_string-sym : (xs ys : Bytes) → same_string xs ys ≡ same_string ys xs
same_string-sym [] [] = refl
same_string-sym [] (y ∷ ys) = refl
same_string-sym (x ∷ xs) [] = refl
same_string-sym (x ∷ xs) (y ∷ ys) = ground (arith, same_string-sym xs ys)

show_team-same : (j k : ℕ) → j < 256 → k < 256 → same_string (show_team j) (show_team k) ≡ (j == k)
show_team-same j k hj hk = elim (Bool-cases (ltb j 128)) [
  | inl below ↦ elim (Bool-cases (ltb k 128)) [
    | inl below' ↦
        rw (below, below')
          (show_u64-same (128 - j) (128 - k) (omega arith) (omega arith) ∙ ground arith)
    | inr above' ↦
        rw (below, above') (unsigned (k - 128) (show_u64 (128 - j)) (omega arith) ∙ ground arith)
  ]
  | inr above ↦ elim (Bool-cases (ltb k 128)) [
    | inl below' ↦
        rw (above, below')
          (same_string-sym (show_u64 (j - 128)) (b'-' ∷ show_u64 (128 - k))
            ∙ unsigned (j - 128) (show_u64 (128 - k)) (omega arith)
            ∙ ground arith)
    | inr above' ↦
        rw (above, above')
          (show_u64-same (j - 128) (k - 128) (omega arith) (omega arith) ∙ ground arith)
  ]
]

-- The logins under a key, in the order of the entries.
abbrev entry : ℕ → Option (List Bytes) → GameTeams → Option (List Bytes)
entry t known [] = known
entry t known ((k, v) ∷ d) = entry t (if t == k then some v else known) d

abbrev pub AreTeams : GameTeams → Type 0
AreTeams = All (λ e. e.0 < 256)

fixup_from-lookup :
    (t : ℕ) (out : List (Bytes × List Bytes)) (d : GameTeams)
    → t < 256
    → AreTeams d
    → lookup (show_team t) (fixup_from out d) ≡ entry t (lookup (show_team t) out) d
unfolding fixup_from
fixup_from-lookup t out [] lt a = refl
fixup_from-lookup t out ((k, v) ∷ d) lt a =
    fixup_from-lookup t (insert (show_team k) v out) d lt a.1
    ∙ ap (λ o. entry t o d)
        (lookup-insert (show_team k) (show_team t) v out
          ∙ ap (λ b. if b then some v else lookup (show_team t) out) (show_team-same t k lt a.0))

abbrev pub or_empty : Option (List Bytes) → List Bytes
or_empty none = []
or_empty (some v) = v

-- Past the key of a sorted dictionary, no entry changes what is known.
entry_above :
    (t : ℕ) (known : Option (List Bytes)) (d : GameTeams)
    → All (λ e. t < e.0) d
    → entry t known d ≡ known
entry_above t known [] a = refl
entry_above t known ((k, v) ∷ d) a =
    let differ : (t == k) ≡ false = ground (arith, a.0) in rw differ (entry_above t known d a.1)

entry-members : (t : ℕ) (d : GameTeams) → Sorted d → or_empty (entry t none d) ≡ members t d
entry-members t [] s = refl
entry-members t ((k, v) ∷ d) s = elim (Bool-cases (t == k)) [
  | inl same ↦
      let equal : t ≡ k = (==_iff t k).0 same in
      let here : (k == t) ≡ true = ground arith in
      rw (same, here)
        (ap or_empty (entry_above t (some v) d (subst (λ i. All (λ e. i < e.0) d) (sym equal) s.0)))
  | inr differ ↦
      let other : (k == t) ≡ false = ground arith in rw (differ, other) (entry-members t d s.1)
]

push_login-AreTeams :
    (t : ℕ) (login : Bytes) (d : GameTeams) → t < 256 → AreTeams d → AreTeams (push_login t login d)
unfolding push_login
push_login-AreTeams t login [] lt a = (lt, tt)
push_login-AreTeams t login ((k, v) ∷ d) lt a = elim (Bool-cases (t == k)) [
  | inl same ↦ rw same a
  | inr other ↦ elim (Bool-cases (ltb t k)) [
    | inl below ↦ rw (other, below) (lt, a)
    | inr above ↦ rw (other, above) (a.0, push_login-AreTeams t login d lt a.1)
  ]
]

-- Teams are `i8`.
abbrev pub InRange : List TeamPlayerRow → Type 0
InRange = All (λ p. p.team < 256)

group_players-AreTeams :
    (res : GameTeams) (rows : List TeamPlayerRow)
    → InRange rows
    → AreTeams res
    → AreTeams (group_players res rows)
unfolding group_players
group_players-AreTeams res [] r a = a
group_players-AreTeams res (p ∷ rows) r a =
    group_players-AreTeams (push_login p.team p.login res) rows r.1
      (push_login-AreTeams p.team p.login res r.0 a)

abbrev teams_in : Option ReplayJsonHeader → List (Bytes × List Bytes)
teams_in none = []
teams_in (some h) = h.teams

-- The header has the logins of a team under the decimal text of the team.
abbrev pub Lists : List TeamPlayerRow → ReplayJsonHeader → Type 0
Lists rows h = (t : ℕ) → t < 256 → or_empty (lookup (show_team t) h.teams) ≡ players_of t rows

-- A JSON header that `from_id_and_db` makes for a game has, under the decimal text of each team,
-- exactly the logins of the rows of that team, in the order of the rows; negative teams are not
-- confused with positive ones.
pub from_id_and_db-Lists :
    (db : Queries) (now uid : ℕ) (rows : List TeamPlayerRow) (h : ReplayJsonHeader)
    → db.get_team_players uid ≡ some rows
    → InRange rows
    → from_id_and_db db now uid ≡ some h
    → Lists rows h
unfolding from_id_and_db fixup_team_dict get_teams_in_game lookup
from_id_and_db-Lists db now uid rows h found r made t lt =
    let (stats, e, f) =
      bind-eq-some (get_game_stats db.get_game_stat_row db.get_player_count now uid) _ made in
    let (teams, g, k) = bind-eq-some (get_teams_in_game db.get_team_players uid) _ f in
    let (teams', same, sorted, each) =
      get_teams_in_game-Groups db.get_team_players uid rows found in
    let equal : group_players [] rows ≡ teams = cc (found, g) in
    let equal' : teams' ≡ teams = cc (g, same) in
    let made_of : fixup_from [] teams ≡ h.teams = ap teams_in k in
    ap (λ m. or_empty (lookup (show_team t) m)) (sym made_of)
    ∙ ap or_empty (
        fixup_from-lookup t [] teams lt
          (subst AreTeams equal (group_players-AreTeams [] rows r tt)))
    ∙ entry-members t teams (subst Sorted equal' sorted)
    ∙ ap (members t) (sym equal')
    ∙ each t
