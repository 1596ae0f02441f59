-- ===== src/Receive/Strategy/Enter.antt =====
-- `enter_stalemate`, from the invariant of a quorum to that of a stalemate.
use mathlib.Core.Bool.{false≢true}
use faf_rust_replayserver.Base.{
  Bytes, ℕ, ◌≡◌, refl, sym, ap, ◌∙◌, true, false, [], Option, arith, leb→le,
}
use faf_rust_replayserver.Receive.Sets.{contains, extend}
use faf_rust_replayserver.Receive.Sets.Laws.{each_contained, contains-extend, Distinct-extend}
use faf_rust_replayserver.Receive.State.{ReplayState}
use faf_rust_replayserver.Receive.Place.{
  Place, outside, reserved, member, candidate, is_reserved, At,
}
use faf_rust_replayserver.Receive.Stalemate
use faf_rust_replayserver.Receive.Stalemate.{MergeStalemateState}
use faf_rust_replayserver.Receive.Stalemate.Inv.{StalemateInv, is_member}
use faf_rust_replayserver.Receive.Stalemate.MoveAll.{MovesAll, try_move_all-MovesAll}
use faf_rust_replayserver.Receive.Quorum
use faf_rust_replayserver.Receive.Quorum.{MergeQuorumState}
use faf_rust_replayserver.Receive.Quorum.Inv.{QuorumInv, in_play, is_candidate}
use faf_rust_replayserver.Receive.Strategy.{enter_stalemate}

-- Where a replay is when its quorum ends.
abbrev pub retreat : Place → Place
retreat outside = outside
retreat reserved = reserved
retreat member = reserved
retreat (candidate b) = candidate b

retreat-is_reserved : (p : Place) → is_reserved (retreat p) ≡ in_play p
retreat-is_reserved outside = refl
retreat-is_reserved reserved = refl
retreat-is_reserved member = refl
retreat-is_reserved (candidate b) = refl

retreat-is_candidate : (p : Place) → is_candidate (retreat p) ≡ is_candidate p
retreat-is_candidate outside = refl
retreat-is_candidate reserved = refl
retreat-is_candidate member = refl
retreat-is_candidate (candidate b) = refl

retreat-is_member : (p : Place) → is_member (retreat p) ≡ false
retreat-is_member outside = refl
retreat-is_member reserved = refl
retreat-is_member member = refl
retreat-is_member (candidate b) = refl

retreat-At : (p : Place) (h c : Bytes) (rs : ReplayState) → At p h c rs → At (retreat p) h c rs
retreat-At outside h c rs a = a
retreat-At reserved h c rs a = a
retreat-At member h c rs a = a.0
retreat-At (candidate b) h c rs a = a

pub reserved_of_test : (p : Place) → is_reserved p ≡ true → p ≡ reserved
reserved_of_test reserved h = refl
reserved_of_test outside h = absurd (false≢true h)
reserved_of_test member h = absurd (false≢true h)
reserved_of_test (candidate b) h = absurd (false≢true h)

-- A stalemate for which every replay of the reserve and of the quorum was tried.
abbrev pub Enters :
    (ℕ → Bytes) → Bytes → (ℕ → Place) → MergeQuorumState → Option MergeStalemateState → Type 0
Enters H c place me o =
    MovesAll H c (λ id. retreat (place id))
      (record { s = me.s; candidates = []; reserve = extend me.reserve me.quorum })
      (extend me.reserve me.quorum) o

module _ {H : ℕ → Bytes} {c : Bytes} {place : ℕ → Place} (me : MergeQuorumState)
    (v : QuorumInv H c place me) (done : Quorum.has_to_enter_stalemate me ≡ true) where
  retreated_reserve :
      (id : ℕ) → contains (extend me.reserve me.quorum) id ≡ is_reserved (retreat (place id))
  retreated_reserve id =
      contains-extend me.reserve me.quorum id
      ∙ v.in_either id
      ∙ sym (retreat-is_reserved (place id))

  retreated-StalemateInv :
      StalemateInv H c
        (λ id. retreat (place id))
        (record { s = me.s; candidates = []; reserve = extend me.reserve me.quorum })
  retreated-StalemateInv = record {
    shared = record {
      canon = v.shared.canon;
      running = v.shared.running;
      headed = v.shared.headed;
      placed = λ id lt.
          let (rs, got, a) = v.shared.placed id lt in
          (rs, got, retreat-At (place id) (H id) c rs a);
      unborn = λ id ge. let (e, f) = v.shared.unborn id ge in (ap retreat e, f);
    };
    in_reserve = retreated_reserve;
    distinct = Distinct-extend me.reserve me.quorum v.distinct;
    sound = tt;
    listed = λ byte id e. absurd (
        false≢true
          (sym (v.no_candidate id) ∙ sym (retreat-is_candidate (place id)) ∙ ap is_candidate e));
    no_member = λ id. retreat-is_member (place id);
    caught_up = omega (arith, v.shared.canon.delayed, v.shared.canon.rep.end, leb→le _ _ done);
  }

  -- From a quorum that meets its invariant and whose canonical data was all made visible,
  -- `enter_stalemate` does not panic, and the stalemate meets its invariant for the same canonical
  -- data. Every replay of the reserve and of the quorum was tried: with no more data than the
  -- canonical replay it is in the reserve, or out if it is finished; with more it is a candidate
  -- for its next byte and agrees with the canonical data from the start of the comparison on, or
  -- is out and differs from it. No other replay changed its place.
  pub enter_stalemate-Enters : Enters H c place me (enter_stalemate me)
  unfolding enter_stalemate Stalemate.from_quorum
  enter_stalemate-Enters =
      let reserve = extend me.reserve me.quorum in
      try_move_all-MovesAll (λ id. retreat (place id))
        (record { s = me.s; candidates = []; reserve = reserve }) reserve retreated-StalemateInv
        (Distinct-extend me.reserve me.quorum v.distinct)
        (each_contained _ reserve
          λ id e. reserved_of_test (retreat (place id)) (sym (retreated_reserve id) ∙ e))
