-- ===== src/Receive/Strategy/Added.antt =====
-- What adding a replay, and looking at the delayed data, do to the invariants of the two states.
use faf_rust_replayserver.Base.{
  Bytes, ℕ, ◌<◌, ◌≡◌, ◌≢◌, refl, sym, ap, ◌∙◌, inl, inr, Bool, true, false, ◌||◌, some, arith, ltb,
  ◌==◌, ==_iff, if◌then◌else◌, Bool-cases,
}
use faf_rust_replayserver.Streams.WriterReplay
use faf_rust_replayserver.Receive.Sets.{contains}
use faf_rust_replayserver.Receive.Sets.Laws.{contains-insert, Distinct-insert, All-map}
use faf_rust_replayserver.Receive.State
use faf_rust_replayserver.Receive.State.{ReplayState, SharedState}
use faf_rust_replayserver.Receive.Place.{Place, outside, reserved, candidate, put_place}
use faf_rust_replayserver.Receive.Place.Change.{added-SharedInv}
use faf_rust_replayserver.Receive.Stalemate
use faf_rust_replayserver.Receive.Stalemate.{MergeStalemateState}
use faf_rust_replayserver.Receive.Stalemate.Inv.{StalemateInv, is_member}
use faf_rust_replayserver.Receive.Quorum
use faf_rust_replayserver.Receive.Quorum.{MergeQuorumState}
use faf_rust_replayserver.Receive.Quorum.Inv.{QuorumInv, in_play}

-- A new place of a replay that was nowhere.
fresh_ne :
    (place : ℕ → Place) (id j : ℕ) (p q : Place)
    → place id ≡ outside
    → place j ≡ q
    → q ≢ outside
    → put_place place id p j ≡ q
fresh_ne place id j p q e f ne = elim (Bool-cases (id == j)) [
  | inl same ↦ absurd (ne (sym f ∙ ap place (sym ((==_iff id j).0 same)) ∙ e))
  | inr other ↦ rw other f
]

-- A test that fails outside and in the reserve sees no difference.
fresh_test :
    (test : Place → Bool) (place : ℕ → Place) (id j : ℕ)
    → place id ≡ outside
    → test outside ≡ test reserved
    → test (place j) ≡ test (put_place place id reserved j)
fresh_test test place id j e same = elim (Bool-cases (id == j)) [
  | inl hit ↦ rw hit (ap test (ap place (sym ((==_iff id j).0 hit)) ∙ e) ∙ same)
  | inr miss ↦ rw miss
]

or_if : (a b d : Bool) → ((if a then true else b) || d) ≡ (if a then true else b || d)
or_if true b d = refl
or_if false b d = refl

fresh_in_play :
    (place : ℕ → Place) (id j : ℕ)
    → (if id == j then true else in_play (place j)) ≡ in_play (put_place place id reserved j)
fresh_in_play place id j = elim (Bool-cases (id == j)) [ inl hit ↦ rw hit | inr miss ↦ rw miss ]

module _ {H : ℕ → Bytes} {c : Bytes} {place : ℕ → Place} where
  pub stalemate_added :
      (me : MergeStalemateState)
      → StalemateInv H c place me
      → StalemateInv H c
          (put_place place me.s.token reserved)
          (Stalemate.add_replay me WriterReplay.new).1
  unfolding Stalemate.add_replay State.add_replay
  stalemate_added me v =
      let new = (v.shared.unborn me.s.token (omega arith)).0 in
      record {
        shared = unfold State.add_replay in added-SharedInv v.shared;
        in_reserve = λ j. ground (arith, contains-insert me.s.token j me.reserve, v.in_reserve j);
        distinct = Distinct-insert me.s.token me.reserve v.distinct;
        sound =
            All-map _ _ me.candidates
              (λ e a. (
                a.0,
                All-map _ _ e.1
                    (λ j q. fresh_ne place me.s.token j reserved (candidate e.0) new q (λ o. cc))
                    a.1,
              ))
              v.sound;
        listed = λ byte j e. v.listed byte j (ground arith);
        no_member = λ j. ground (arith, v.no_member j);
        caught_up = v.caught_up;
      }

  pub quorum_added :
      (me : MergeQuorumState)
      → QuorumInv H c place me
      → QuorumInv H c
          (put_place place me.s.token reserved)
          (Quorum.add_replay me WriterReplay.new).1
  unfolding Quorum.add_replay State.add_replay
  quorum_added me v =
      let new = (v.shared.unborn me.s.token (omega arith)).0 in
      record {
        shared = unfold State.add_replay in added-SharedInv v.shared;
        in_quorum = λ j. v.in_quorum j ∙ fresh_test is_member place me.s.token j new refl;
        in_either = λ j.
            ap (λ b. b || contains me.quorum j) (contains-insert me.s.token j me.reserve)
            ∙ or_if (me.s.token == j) (contains me.reserve j) (contains me.quorum j)
            ∙ ap (λ b. if me.s.token == j then true else b) (v.in_either j)
            ∙ fresh_in_play place me.s.token j;
        distinct = Distinct-insert me.s.token me.reserve v.distinct;
        no_candidate = λ j. ground (arith, v.no_candidate j);
        nonempty = v.nonempty;
        bounded = v.bounded;
      }

  -- The part of `replay_data_updated` that looks at the delayed position.
  pub check_delayed-Keeps :
      (me : MergeStalemateState) (id : ℕ)
      → StalemateInv H c place me
      → id < me.s.token
      → (rs : ReplayState) × (me.s.replays id ≡ some rs)
        × (Stalemate.check_delayed me id
            ≡ some (record me {
              s = record me.s {
                delayed_data_started = me.s.delayed_data_started || ltb 0 rs.r.delayed_data_len;
              };
            }))
  unfolding Stalemate.check_delayed
  check_delayed-Keeps me id v lt =
      let (rs, got, _) = v.shared.placed id lt in
      elim (Bool-cases me.s.delayed_data_started) [
        | inl on ↦ (
          rs,
          got,
          simp on (ap (λ b. some (record me { s = record me.s { delayed_data_started = b } })) on),
        )
        | inr off ↦ elim (Bool-cases (ltb 0 rs.r.delayed_data_len)) [
          | inl some' ↦ (rs, got, simp (off, got, some'))
          | inr none' ↦ (
            rs,
            got,
            simp (off, got, none')
                (ap (λ b. some (record me { s = record me.s { delayed_data_started = b } })) off),
          )
        ]
      ]

  pub started-StalemateInv :
      (me : MergeStalemateState) (started : Bool)
      → StalemateInv H c place me
      → StalemateInv H c place (record me { s = record me.s { delayed_data_started = started } })
  started-StalemateInv me started v = record {
    shared = record {
      canon = v.shared.canon;
      running = v.shared.running;
      headed = v.shared.headed;
      placed = v.shared.placed;
      unborn = v.shared.unborn;
    };
    in_reserve = v.in_reserve;
    distinct = v.distinct;
    sound = v.sound;
    listed = v.listed;
    no_member = v.no_member;
    caught_up = v.caught_up;
  }
