-- ===== src/Receive/Stalemate/Leave.antt =====
-- A replay leaves the reserve: out of the game, or to the candidates.
use faf_rust_replayserver.Base.{Bytes, ℕ, ◌≡◌, inl, inr, arith, ◌==◌, ==_iff, Bool-cases}
use faf_rust_replayserver.Streams.WriterReplay.Laws as Writer
use faf_rust_replayserver.Receive.Sets.{remove}
use faf_rust_replayserver.Receive.Sets.Laws.{
  contains-remove, contains_entry-push, Distinct-remove, All-push_entry, All-map,
}
use faf_rust_replayserver.Receive.State.{ReplayState, set_replay}
use faf_rust_replayserver.Receive.Place.{
  Place, outside, reserved, candidate, At, put_place, born, set_replay-SharedInv,
}
use faf_rust_replayserver.Receive.Stalemate.{MergeStalemateState, insert_candidate}
use faf_rust_replayserver.Receive.Stalemate.Inv.{StalemateInv, Sound}

-- A replay in the reserve, and what is known of it.
module _ {H : ℕ → Bytes} {c : Bytes} {place : ℕ → Place} {me : MergeStalemateState}
    (v : StalemateInv H c place me) (id : ℕ) (at_reserve : place id ≡ reserved) where
  -- Another place for `id` does not touch the candidates.
  still_candidate :
      (p : Place) (byte j : ℕ) → place j ≡ candidate byte → put_place place id p j ≡ candidate byte
  still_candidate p byte j e = elim (Bool-cases (id == j)) [
    | inl same ↦ absurd (clash ((==_iff id j).0 same))
    | inr other ↦ rw other e
  ]
    where
      clash : id ≡ j → ⊥
      clash q = cc

  still_Sound : (p : Place) → Sound (put_place place id p) me.candidates
  still_Sound p =
      All-map _ _ me.candidates (λ e a. (a.0, All-map _ _ e.1 (λ j. still_candidate p e.0 j) a.1))
        v.sound

  -- Out of the reserve, and out of the game.
  pub drop_reserved :
      (rs : ReplayState)
      → Writer.Holds rs.r (H id)
      → StalemateInv H c
          (put_place place id outside)
          (record me { s = set_replay me.s id rs; reserve = remove id me.reserve })
  drop_reserved rs h = record {
    shared = set_replay-SharedInv v.shared id outside rs (born v.shared id (λ e. cc)) h;
    in_reserve = λ j. ground (arith, contains-remove id j me.reserve, v.in_reserve j);
    distinct = Distinct-remove id me.reserve v.distinct;
    sound = still_Sound outside;
    listed = λ byte j e. v.listed byte j (ground arith);
    no_member = λ j. ground (arith, v.no_member j);
    caught_up = v.caught_up;
  }

  -- Out of the reserve, among the candidates.
  pub pick_reserved :
      (rs : ReplayState) (byte : ℕ)
      → At (candidate byte) (H id) c rs
      → StalemateInv H c (put_place place id (candidate byte)) (
          insert_candidate
            (record me { s = set_replay me.s id rs; reserve = remove id me.reserve })
            byte
            id)
  unfolding insert_candidate
  pick_reserved rs byte a = record {
    shared = set_replay-SharedInv v.shared id (candidate byte) rs (born v.shared id (λ e. cc)) a;
    in_reserve = λ j. ground (arith, contains-remove id j me.reserve, v.in_reserve j);
    distinct = Distinct-remove id me.reserve v.distinct;
    sound =
        All-push_entry (λ k j. put_place place id (candidate byte) j ≡ candidate k) byte id
          me.candidates (ground arith) (still_Sound (candidate byte));
    listed = λ k j e. ground (arith, contains_entry-push byte id k j me.candidates, v.listed k j);
    no_member = λ j. ground (arith, v.no_member j);
    caught_up = v.caught_up;
  }
