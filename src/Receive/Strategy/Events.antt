-- ===== src/Receive/Strategy/Events.antt =====
-- What the end and the update of a replay change, before `work_state_until_stable`.
use faf_rust_replayserver.Base.{
  Bytes, ℕ, ◌≡◌, ◌⊎◌, ◌∙◌, refl, ap, true, false, ◌||◌, List, some, ltb, ◌==◌, ==_iff,
  if◌then◌else◌,
}
use faf_rust_replayserver.Receive.Sets.{contains, insert}
use faf_rust_replayserver.Receive.Sets.Laws.{contains-insert}
use faf_rust_replayserver.Streams.WriterReplay
use faf_rust_replayserver.Receive.State
use faf_rust_replayserver.Receive.Quorum.{MergeQuorumState}
use faf_rust_replayserver.Receive.State.{ReplayState, SharedState}
use faf_rust_replayserver.Receive.Place.{Place, put_place}
use faf_rust_replayserver.Receive.Stalemate.{MergeStalemateState}
use faf_rust_replayserver.Receive.Stalemate.Inv.{StalemateInv}
use faf_rust_replayserver.Receive.Stalemate.Move.{Tried}
use faf_rust_replayserver.Receive.Quorum.Delay.{Advances}
use faf_rust_replayserver.Receive.Strategy.{QuorumMergeStrategy, quorum, stalemate, swapping}

-- What the event of a replay does in a stalemate: a replay of the reserve is tried, and goes where its
-- data says; nothing happens for another one.
abbrev pub Effect : (ℕ → Bytes) → Bytes → MergeStalemateState → ℕ → MergeStalemateState → Type 0
Effect H c me id me' =
    ((contains me.reserve id ≡ false) × (me' ≡ me))
    ⊎ ((contains me.reserve id ≡ true)
        × (place : ℕ → Place) × (p : Place) × StalemateInv H c (put_place place id p) me'
        × Tried H c me id p
        × ((j : ℕ) → (id == j) ≡ false → me'.s.replays j ≡ me.s.replays j))

-- A new replay is in the map and in the reserve, and the other replays are as they were.
pub record Joined (s s' : SharedState) (reserve reserve' : List ℕ) : Type 0 where
  pub in_reserve : contains reserve' s.token ≡ true
  pub others : (j : ℕ) → (s.token == j) ≡ false → contains reserve' j ≡ contains reserve j
  pub found : (rs : ReplayState) × (s'.replays s.token ≡ some rs) × (rs.r ≡ WriterReplay.new)
  pub kept : (j : ℕ) → (s.token == j) ≡ false → s'.replays j ≡ s.replays j

-- The state after a replay was added, before the strategy is made stable.
abbrev pub Adds : QuorumMergeStrategy → QuorumMergeStrategy → Type 0
Adds (quorum me) mid =
    (me' : MergeQuorumState) × (mid ≡ quorum me')
    × Joined me.s me'.s me.reserve me'.reserve
    × (me'.quorum ≡ me.quorum)
Adds (stalemate me) mid =
    (me' : MergeStalemateState) × (mid ≡ stalemate me')
    × Joined me.s me'.s me.reserve me'.reserve
    × (me'.candidates ≡ me.candidates)
Adds swapping mid = ⊥

insert-others :
    (id j : ℕ) (ids : List ℕ) → (id == j) ≡ false → contains (insert id ids) j ≡ contains ids j
insert-others id j ids other =
    contains-insert id j ids ∙ ap (λ b. if b then true else contains ids j) other

insert_self : (id : ℕ) (ids : List ℕ) → contains (insert id ids) id ≡ true
insert_self id ids =
    contains-insert id id ids
    ∙ ap (λ b. if b then true else contains ids id) ((==_iff id id).1 refl)

pub add_replay-Joined :
    (s : SharedState) (reserve : List ℕ)
    → Joined s (State.add_replay s WriterReplay.new).1 reserve (insert s.token reserve)
unfolding State.add_replay
add_replay-Joined s reserve = record {
  in_reserve = insert_self s.token reserve;
  others = λ j other. insert-others s.token j reserve other;
  found =
      let self : (s.token == s.token) ≡ true = (==_iff s.token s.token).1 refl in
      (State.new_replay_state WriterReplay.new s.stream_cmp_distance, rw self refl, refl);
  kept = λ j other. rw other refl;
}

-- The state after the end of a replay, before the strategy is made stable.
abbrev pub Removes : (ℕ → Bytes) → Bytes → QuorumMergeStrategy → ℕ → QuorumMergeStrategy → Type 0
Removes H c (quorum me) id mid = mid ≡ quorum me
Removes H c (stalemate me) id mid =
    (me' : MergeStalemateState) × (mid ≡ stalemate me') × Effect H c me id me'
Removes H c swapping id mid = ⊥

-- The state after an update of a replay, before the strategy is made stable. A replay of the quorum
-- moves the delayed position; in a stalemate its delayed data is noticed.
abbrev pub Updates : (ℕ → Bytes) → Bytes → QuorumMergeStrategy → ℕ → QuorumMergeStrategy → Type 0
Updates H c (quorum me) id mid =
    ((contains me.quorum id ≡ false) × (mid ≡ quorum me))
    ⊎ ((contains me.quorum id ≡ true)
        × (s' : SharedState) × Advances me s'
        × (mid ≡ quorum (record me { s = s' })))
Updates H c (stalemate me) id mid =
    (me' : MergeStalemateState) × Effect H c me id me'
    × (rs : ReplayState) × (me'.s.replays id ≡ some rs)
    × (mid
        ≡ stalemate (record me' {
          s = record me'.s {
            delayed_data_started = me'.s.delayed_data_started || ltb 0 rs.r.delayed_data_len;
          };
        }))
Updates H c swapping id mid = ⊥
