-- ===== src/Database/Queries/Teams.antt =====
-- `get_teams_in_game`, against the rows.
use faf_rust_replayserver.Base.{
  Bytes, ℕ, ◌<◌, ◌≡◌, refl, sym, ap, ◌∙◌, Bool, true, false, List, [], ◌∷◌, ◌++◌, Option, some,
  arith, ltb, ltb→lt, ◌==◌, ==_iff, if◌then◌else◌, All, append_assoc, append-nil, Bool-cases, inl,
  inr,
}
use faf_rust_replayserver.Database.Queries.{
  TeamPlayerRow, GameTeams, push_login, group_players, get_teams_in_game,
}

abbrev pub members : ℕ → GameTeams → List Bytes
members t [] = []
members t ((k, logins) ∷ m) = if k == t then logins else members t m

abbrev pub players_of : ℕ → List TeamPlayerRow → List Bytes
players_of t [] = []
players_of t (p ∷ players) =
    if p.team == t then p.login ∷ players_of t players else players_of t players

abbrev Above : ℕ → GameTeams → Type 0
Above k = All (λ e. k < e.0)

abbrev pub Sorted : GameTeams → Type 0
Sorted [] = Unit
Sorted ((k, logins) ∷ m) = Above k m × Sorted m

Above-members : (t : ℕ) (m : GameTeams) → Above t m → members t m ≡ []
Above-members t [] a = refl
Above-members t ((k, logins) ∷ m) a = ground (arith, a.0, Above-members t m a.1)

Above-mono : (j k : ℕ) (m : GameTeams) → j < k → Above k m → Above j m
Above-mono j k [] lt a = tt
Above-mono j k (e ∷ m) lt a = (omega (arith, lt, a.0), Above-mono j k m lt a.1)

Above-push :
    (j t : ℕ) (login : Bytes) (m : GameTeams) → j < t → Above j m → Above j (push_login t login m)
unfolding push_login
Above-push j t login [] lt a = (lt, tt)
Above-push j t login ((k, logins) ∷ m) lt a = elim (Bool-cases (t == k)) [
  | inl same ↦ rw same (a.0, a.1)
  | inr other ↦ elim (Bool-cases (ltb t k)) [
    | inl below ↦ rw (other, below) (lt, (a.0, a.1))
    | inr above ↦ rw (other, above) (a.0, Above-push j t login m lt a.1)
  ]
]

Sorted-push : (t : ℕ) (login : Bytes) (m : GameTeams) → Sorted m → Sorted (push_login t login m)
unfolding push_login
Sorted-push t login [] s = (tt, tt)
Sorted-push t login ((k, logins) ∷ m) s = elim (Bool-cases (t == k)) [
  | inl same ↦ rw same (s.0, s.1)
  | inr other ↦ elim (Bool-cases (ltb t k)) [
    | inl below ↦
        let lt : t < k = ltb→lt t k below in
        rw (other, below) ((lt, Above-mono t k m lt s.0), (s.0, s.1))
    | inr above ↦
        let lt : k < t = ground arith in
        rw (other, above) (Above-push k t login m lt s.0, Sorted-push t login m s.1)
  ]
]

put_first :
    (t u : ℕ) (login : Bytes) (m : GameTeams)
    → Above t m
    → members u ((t, login ∷ []) ∷ m) ≡ (if t == u then members u m ++ login ∷ [] else members u m)
put_first t u login m a = elim (Bool-cases (t == u)) [
  | inl hit ↦
      let e : members u m ≡ [] =
        ap (λ v. members v m) (sym ((==_iff t u).0 hit)) ∙ Above-members t m a in
      rw (hit, e)
  | inr miss ↦ rw miss
]

members-push :
    (t u : ℕ) (login : Bytes) (m : GameTeams)
    → Sorted m
    → members u (push_login t login m) ≡ (if t == u then members u m ++ login ∷ [] else members u m)
unfolding push_login
members-push t u login [] s = ground arith
members-push t u login ((k, logins) ∷ m) s = elim (Bool-cases (t == k)) [
  | inl same ↦ let e : t ≡ k = (==_iff t k).0 same in rw same (ground (arith, e))
  | inr other ↦ elim (Bool-cases (ltb t k)) [
    | inl below ↦
        rw (other, below)
          (put_first t u login ((k, logins) ∷ m)
            (ltb→lt t k below, Above-mono t k m (ltb→lt t k below) s.0))
    | inr above ↦ rw (other, above) (ground (arith, members-push t u login m s.1, (==_iff t k).1))
  ]
]

group_players-members :
    (t : ℕ) (res : GameTeams) (players : List TeamPlayerRow)
    → Sorted res
    → Sorted (group_players res players)
      × (members t (group_players res players) ≡ members t res ++ players_of t players)
unfolding group_players
group_players-members t res [] s = (s, sym (append-nil (members t res)))
group_players-members t res (p ∷ players) s =
    let (sorted, e) =
      group_players-members t (push_login p.team p.login res) players
        (Sorted-push p.team p.login res s) in
    (
      sorted,
      e
          ∙ ap (λ l. l ++ players_of t players) (members-push p.team t p.login res s)
          ∙ joined (p.team == t) (members t res) p.login (players_of t players),
    )
  where
    joined :
        (b : Bool) (before : List Bytes) (login : Bytes) (after : List Bytes)
        → (if b then before ++ login ∷ [] else before) ++ after
          ≡ before ++ (if b then login ∷ after else after)
    joined true before login after = append_assoc before (login ∷ []) after
    joined false before login after = refl

-- The teams of a game.
abbrev pub Groups : List TeamPlayerRow → Option GameTeams → Type 0
Groups players o =
    (teams : GameTeams) × (o ≡ some teams)
    × Sorted teams
    × ((t : ℕ) → members t teams ≡ players_of t players)

-- For an id whose rows the database returns, the teams of the game have rising keys, and every
-- team has exactly the logins of its rows, in the order of the rows.
pub get_teams_in_game-Groups :
    (get_team_players : ℕ → Option (List TeamPlayerRow)) (id : ℕ) (players : List TeamPlayerRow)
    → get_team_players id ≡ some players
    → Groups players (get_teams_in_game get_team_players id)
unfolding get_teams_in_game
get_teams_in_game-Groups get_team_players id players e = (
  group_players [] players,
  rw e,
  (group_players-members 0 [] players tt).0,
  λ t. (group_players-members t [] players tt).1,
)
