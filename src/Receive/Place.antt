-- ===== src/Receive/Place.antt =====
-- The invariant of the state that the two halves of the merge strategy share.
pub mod Change
use mathlib.Core.Path.{subst}
use faf_rust_replayserver.Base.{
  Bytes, ℕ, ◌≤◌, ◌<◌, ◌≡◌, ◌≢◌, refl, sym, ◌∙◌, ◌⊎◌, inl, inr, Bool, true, false, List, [], ◌∷◌,
  All, Option, some, arith, length, get_elem?, ltb, ltb→lt, ltb→ge, ◌==◌, ==_iff, if◌then◌else◌,
  Bool-cases,
}
use faf_rust_replayserver.Streams.WriterReplay.Laws as Writer
use faf_rust_replayserver.Streams.ReplayHeader.{ReplayHeader}
use faf_rust_replayserver.Streams.MergedReplay.{MergedReplay}
use faf_rust_replayserver.Streams.MergedReplay.Laws as Merged
use faf_rust_replayserver.Receive.State.Compare.{Live}
use faf_rust_replayserver.Receive.State.{ReplayState, SharedState, set_replay, for_each}

-- Where the strategy keeps a replay: nowhere (it diverged, or ended short), in the reserve, among the
-- candidates for a next byte, or, in a quorum, among the replays that were good.
pub data Place : Type 0 where
  outside reserved member : Place
  candidate : ℕ → Place

abbrev pub is_reserved : Place → Bool
is_reserved reserved = true
is_reserved _ = false

abbrev pub At : Place → Bytes → Bytes → ReplayState → Type 0
At outside h c rs = Writer.Holds rs.r h
At reserved h c rs = Live h (length c) rs
At member h c rs = Live h (length c) rs × (length c ≤ length h)
At (candidate b) h c rs =
    Live h (length c) rs × (length c < length h) × (get_elem? h (length c) ≡ some b)

pub At-Holds : (p : Place) (h c : Bytes) (rs : ReplayState) → At p h c rs → Writer.Holds rs.r h
At-Holds outside h c rs a = a
At-Holds reserved h c rs a = a.holds
At-Holds member h c rs a = a.0.holds
At-Holds (candidate b) h c rs a = a.0.holds

-- `H` is the data that each replay received, `c` the canonical data.
abbrev pub Placed : (ℕ → Bytes) → Bytes → (ℕ → Place) → (ℕ → Option ReplayState) → ℕ → Type 0
Placed H c place replays id =
    (rs : ReplayState) × (replays id ≡ some rs) × At (place id) (H id) c rs

-- The canonical replay has a header before any replay has data.
abbrev pub Headed : (ℕ → Bytes) → Bytes → MergedReplay → Type 0
Headed H c m =
    ((h : ReplayHeader) × (m.header ≡ some h)) ⊎ ((length c ≡ 0) × ((id : ℕ) → length (H id) ≡ 0))

pub record SharedInv (H : ℕ → Bytes) (c : Bytes) (place : ℕ → Place) (s : SharedState)
    : Type 0 where
  pub canon : Merged.Holds s.canonical_stream c
  pub running : s.canonical_stream.finished ≡ false
  pub headed : Headed H c s.canonical_stream
  pub placed : (id : ℕ) → id < s.token → Placed H c place s.replays id
  pub unborn : (id : ℕ) → s.token ≤ id → (place id ≡ outside) × (H id ≡ [])

abbrev pub put_place : (ℕ → Place) → ℕ → Place → ℕ → Place
put_place place id p j = if id == j then p else place j

pub put_place_self : (place : ℕ → Place) (id : ℕ) (p : Place) → put_place place id p id ≡ p
put_place_self place id p = ground arith

pub put_place_ne :
    (place : ℕ → Place) (id j : ℕ) (p : Place) → id ≢ j → put_place place id p j ≡ place j
put_place_ne place id j p ne = ground arith

module _ {H : ℕ → Bytes} {c : Bytes} {place : ℕ → Place} {s : SharedState}
    (v : SharedInv H c place s) where
  -- A replay that is placed somewhere is in the map.
  pub born : (id : ℕ) → place id ≢ outside → id < s.token
  born id ne = elim (Bool-cases (ltb id s.token)) [
    | inl lt ↦ ltb→lt _ _ lt
    | inr ge ↦ absurd (ne (v.unborn id (ltb→ge _ _ ge)).0)
  ]

  pub find :
      (id : ℕ) (p : Place)
      → place id ≡ p
      → p ≢ outside
      → (rs : ReplayState) × (s.replays id ≡ some rs) × At p (H id) c rs
  find id p e ne =
      let (rs, got, a) = v.placed id (born id (subst (λ q. q ≢ outside) (sym e) ne)) in
      (rs, got, subst (λ q. At q (H id) c rs) e a)

  -- A changed replay, at a new place.
  pub set_replay-SharedInv :
      (id : ℕ) (p : Place) (rs : ReplayState)
      → id < s.token
      → At p (H id) c rs
      → SharedInv H c (put_place place id p) (set_replay s id rs)
  set_replay-SharedInv id p rs lt a = record {
    canon = v.canon;
    running = v.running;
    headed = v.headed;
    placed = λ j l. elim (Bool-cases (id == j)) [
      | inl same ↦
          let e : id ≡ j = (==_iff id j).0 same in
          (rs, rw same, rw same (subst (λ k. At p (H k) c rs) e a))
      | inr other ↦ rw other (v.placed j l)
    ];
    unborn = λ j ge. let ne : (id == j) ≡ false = ground arith in rw ne (v.unborn j ge);
  }

  -- A changed replay, at its old place.
  pub keep_place-SharedInv :
      (id : ℕ) (rs : ReplayState)
      → id < s.token
      → At (place id) (H id) c rs
      → SharedInv H c place (set_replay s id rs)
  keep_place-SharedInv id rs lt a = record {
    canon = v.canon;
    running = v.running;
    headed = v.headed;
    placed = λ j l. elim (Bool-cases (id == j)) [
      | inl same ↦
          let e : id ≡ j = (==_iff id j).0 same in
          (rs, rw same, subst (λ k. At (place k) (H k) c rs) e a)
      | inr other ↦ rw other (v.placed j l)
    ];
    unborn = v.unborn;
  }

-- What the changes of single replays leave alone.
pub record Same (s s' : SharedState) : Type 0 where
  pub token : s'.token ≡ s.token
  pub target : s'.target_quorum_size ≡ s.target_quorum_size
  pub started : s'.delayed_data_started ≡ s.delayed_data_started
  pub canonical : s'.canonical_stream ≡ s.canonical_stream

pub Same-refl : (s : SharedState) → Same s s
Same-refl s = record { token = refl; target = refl; started = refl; canonical = refl }

pub Same-trans : {s t u : SharedState} → Same s t → Same t u → Same s u
Same-trans a b = record {
  token = b.token ∙ a.token;
  target = b.target ∙ a.target;
  started = b.started ∙ a.started;
  canonical = b.canonical ∙ a.canonical;
}

-- What is asked of a change of the replay `id`: it keeps what is known at its place.
abbrev pub KeepsAt :
    (ℕ → Bytes) → Bytes → (ℕ → Place) → SharedState → (ReplayState → ReplayState) → ℕ → Type 0
KeepsAt H c place s change id =
    (id < s.token)
    × ((rs : ReplayState) → At (place id) (H id) c rs → At (place id) (H id) c (change rs))

abbrev pub Changes : (ℕ → Bytes) → Bytes → (ℕ → Place) → SharedState → Option SharedState → Type 0
Changes H c place s o = (s' : SharedState) × (o ≡ some s') × SharedInv H c place s' × Same s s'

pub for_each-Changes :
    {H : ℕ → Bytes} {c : Bytes} {place : ℕ → Place} (change : ReplayState → ReplayState)
    (s : SharedState) (ids : List ℕ)
    → SharedInv H c place s
    → All (KeepsAt H c place s change) ids
    → Changes H c place s (for_each change s ids)
unfolding for_each
for_each-Changes change s [] v a = (s, refl, v, Same-refl s)
for_each-Changes change s (id ∷ ids) v ((lt, keeps), a) =
    let (rs, got, at) = v.placed id lt in
    let (s', run, v', same) =
      for_each-Changes change (set_replay s id (change rs)) ids
        (keep_place-SharedInv v id (change rs) lt (keeps rs at)) a in
    (
      s',
      rw (got, run),
      v',
      record {
        token = same.token;
        target = same.target;
        started = same.started;
        canonical = same.canonical;
      },
    )
