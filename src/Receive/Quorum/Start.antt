-- ===== src/Receive/Quorum/Start.antt =====
-- `from_stalemate`: the new quorum, its places and its first merge.
use mathlib.Core.Bool.{false≢true}
use mathlib.Core.Path.{subst}
use faf_rust_replayserver.Base.{
  Bytes, ℕ, ◌<◌, ◌≤◌, ◌≡◌, refl, sym, ap, ◌∙◌, min, Bool, true, false, ◌||◌, List, [], Option, some,
  arith, length, length-take, All, take, drop,
}
use faf_rust_replayserver.Receive.Sets.{contains, extend, Distinct}
use faf_rust_replayserver.Receive.Sets.Laws.{
  contains-extend, contains-take-drop, length-extend_pos, length-extend-le, Distinct-extend,
  each_contained,
}
use faf_rust_replayserver.Receive.State.{ReplayState, SharedState}
use faf_rust_replayserver.Receive.Place.{
  Place, outside, reserved, member, candidate, is_reserved, At, SharedInv, find,
}
use faf_rust_replayserver.Receive.Stalemate.Inv.{is_member}
use faf_rust_replayserver.Receive.Quorum.{
  MergeQuorumState, longest_first, merge_more_data, from_stalemate,
}
use faf_rust_replayserver.Receive.Quorum.Inv.{QuorumInv, in_play, is_candidate}
use faf_rust_replayserver.Streams.WriterReplay
use faf_rust_replayserver.Receive.Quorum.Longest.{
  Falling, Falling-take-drop, Reorders, longest_first-Reorders,
}
use faf_rust_replayserver.Receive.Quorum.Merge.{MergesMore, MergedMore, merge_more_data-MergesMore}

-- A good replay that did not get into the quorum.
abbrev demote : Place → Place
demote member = reserved
demote outside = outside
demote reserved = reserved
demote (candidate b) = candidate b

demote-At : (p : Place) (h c : Bytes) (rs : ReplayState) → At p h c rs → At (demote p) h c rs
demote-At member h c rs a = a.0
demote-At outside h c rs a = a
demote-At reserved h c rs a = a
demote-At (candidate b) h c rs a = a

-- Whether it got into the quorum, and where it was.
abbrev chosen : Bool → Place → Place
chosen true p = member
chosen false p = demote p

chosen-is_member : (b : Bool) (p : Place) → is_member (chosen b p) ≡ b
chosen-is_member true p = refl
chosen-is_member false member = refl
chosen-is_member false outside = refl
chosen-is_member false reserved = refl
chosen-is_member false (candidate k) = refl

chosen-in_play :
    (d b : Bool) (p : Place)
    → (d || b) ≡ is_member p
    → in_play (chosen b p) ≡ (is_reserved p || d || b)
chosen-in_play true true p e = ground arith
chosen-in_play false true p e = ground arith
chosen-in_play d false member e = ground arith
chosen-in_play d false outside e = ground arith
chosen-in_play d false reserved e = ground arith
chosen-in_play d false (candidate k) e = ground arith

chosen-is_candidate :
    (b : Bool) (p : Place) → is_candidate p ≡ false → is_candidate (chosen b p) ≡ false
chosen-is_candidate true p e = refl
chosen-is_candidate false member e = refl
chosen-is_candidate false outside e = refl
chosen-is_candidate false reserved e = refl
chosen-is_candidate false (candidate k) e = e

member_of_test : (p : Place) → is_member p ≡ true → p ≡ member
member_of_test member h = refl
member_of_test outside h = absurd (false≢true h)
member_of_test reserved h = absurd (false≢true h)
member_of_test (candidate b) h = absurd (false≢true h)

chosen-At :
    (b : Bool) (p : Place) (h c : Bytes) (rs : ReplayState)
    → (b ≡ true → is_member p ≡ true)
    → At p h c rs
    → At (chosen b p) h c rs
chosen-At true p h c rs f a = subst (λ q. At q h c rs) (member_of_test p (f refl)) a
chosen-At false p h c rs f a = demote-At p h c rs a

chosen-outside :
    (b : Bool) (p : Place) → (b ≡ true → is_member p ≡ true) → p ≡ outside → chosen b p ≡ outside
chosen-outside true p f e = absurd (false≢true (sym (ap is_member e) ∙ f refl))
chosen-outside false p f e = ap demote e

-- What `from_stalemate` is given: the good replays, and the reserve.
pub record Starts (H : ℕ → Bytes) (c : Bytes) (place : ℕ → Place) (s : SharedState)
    (good reserve : List ℕ) : Type 0 where
  pub shared : SharedInv H c place s
  pub are_good : (id : ℕ) → contains good id ≡ is_member (place id)
  pub in_reserve : (id : ℕ) → contains reserve id ≡ is_reserved (place id)
  pub distinct : Distinct reserve
  pub no_candidate : (id : ℕ) → is_candidate (place id) ≡ false
  pub nonempty : 0 < length good
  pub target : 0 < s.target_quorum_size

-- The quorum is made of good replays, of which no other is longer than one of the quorum; the others
-- and the reserve are the new reserve.
pub record Chosen (H : ℕ → Bytes) (good reserve : List ℕ) (me : MergeQuorumState) : Type 0 where
  pub of_good : (id : ℕ) → contains me.quorum id ≡ true → contains good id ≡ true
  pub longest :
      (id j : ℕ)
      → contains me.quorum id ≡ true
      → contains good j ≡ true
      → contains me.quorum j ≡ false
      → length (H j) ≤ length (H id)
  pub all_kept :
      (id : ℕ)
      → (contains me.reserve id || contains me.quorum id)
        ≡ (contains reserve id || contains good id)

module _ {H : ℕ → Bytes} {c : Bytes} {place : ℕ → Place} (s : SharedState) (good reserve : List ℕ)
    (v : Starts H c place s good reserve) where
  pub good_found :
      All
        (λ id.
          (rs : ReplayState) × (s.replays id ≡ some rs)
          × (WriterReplay.data_len rs.r ≡ length (H id)))
        good
  good_found = each_contained _ good λ id e.
      let (rs, got, live_long) =
        find v.shared id member (member_of_test (place id) (sym (v.are_good id) ∙ e)) (λ q. cc) in
      (rs, got, live_long.0.holds.rep.end)

  module _ (sorted : List ℕ) (len : length sorted ≡ length good)
      (same : (id : ℕ) → contains sorted id ≡ contains good id) where
    -- The length of the new quorum, before repetitions go.
    abbrev n : ℕ
    n = min (length sorted) s.target_quorum_size

    abbrev new_quorum : List ℕ
    new_quorum = extend [] (take n sorted)

    abbrev new_place : ℕ → Place
    new_place id = chosen (contains new_quorum id) (place id)

    in_new_quorum : (id : ℕ) → contains new_quorum id ≡ contains (take n sorted) id
    unfolding contains
    in_new_quorum id = contains-extend [] (take n sorted) id

    were_good :
        (id : ℕ) → (contains (drop n sorted) id || contains new_quorum id) ≡ is_member (place id)
    were_good id =
        ap (λ b. contains (drop n sorted) id || b) (in_new_quorum id)
        ∙ contains-take-drop n sorted id
        ∙ same id
        ∙ v.are_good id

    was_good : (id : ℕ) → contains new_quorum id ≡ true → is_member (place id) ≡ true
    was_good id e = sym (were_good id) ∙ ground (arith, e)

    started : MergeQuorumState
    started = record { s = s; quorum = new_quorum; reserve = extend reserve (drop n sorted) }

    started-QuorumInv : QuorumInv H c new_place started
    unfolding started
    started-QuorumInv = record {
      shared = record {
        canon = v.shared.canon;
        running = v.shared.running;
        headed = v.shared.headed;
        placed = λ id lt.
            let (rs, got, a) = v.shared.placed id lt in
            (rs, got, chosen-At _ (place id) (H id) c rs (was_good id) a);
        unborn = λ id ge.
            let (e, f) = v.shared.unborn id ge in (chosen-outside _ (place id) (was_good id) e, f);
      };
      in_quorum = λ id. sym (chosen-is_member _ (place id));
      in_either = λ id.
          ap (λ b. b || contains new_quorum id) (contains-extend reserve (drop n sorted) id)
          ∙ ap (λ b. (b || contains (drop n sorted) id) || contains new_quorum id) (v.in_reserve id)
          ∙ ground arith
          ∙ sym (chosen-in_play (contains (drop n sorted) id) _ (place id) (were_good id));
      distinct = Distinct-extend reserve (drop n sorted) v.distinct;
      no_candidate = λ id. chosen-is_candidate _ (place id) (v.no_candidate id);
      nonempty =
          length-extend_pos [] (take n sorted)
            (omega (arith, len, v.nonempty, v.target, length-take n sorted));
      bounded = omega (arith, length-extend-le [] (take n sorted), length-take n sorted);
    }

    started-Chosen : Falling (λ id. length (H id)) sorted → Chosen H good reserve started
    unfolding started
    started-Chosen f = record {
      of_good = λ id e. v.are_good id ∙ was_good id e;
      longest = λ id j e q out.
          Falling-take-drop (λ k. length (H k)) n sorted id j f (sym (in_new_quorum id) ∙ e)
            (left_over (contains (drop n sorted) j) (contains new_quorum j)
              (were_good j ∙ sym (v.are_good j) ∙ q) out);
      all_kept = λ id.
          ap (λ b. b || contains new_quorum id) (contains-extend reserve (drop n sorted) id)
          ∙ or_assoc (contains reserve id) (contains (drop n sorted) id) (contains new_quorum id)
          ∙ ap (λ b. contains reserve id || b) (were_good id ∙ sym (v.are_good id));
    }
      where
        left_over : (a b : Bool) → (a || b) ≡ true → b ≡ false → a ≡ true
        left_over true b e f = refl
        left_over false b e f = absurd (false≢true (sym f ∙ e))

        or_assoc : (a b d : Bool) → ((a || b) || d) ≡ (a || (b || d))
        or_assoc true b d = refl
        or_assoc false b d = refl

-- A quorum of the good replays, which merged what it agrees on.
abbrev pub Forms :
    (ℕ → Bytes) → Bytes → SharedState → List ℕ → List ℕ → Option MergeQuorumState → Type 0
Forms H c s good reserve o =
    (place : ℕ → Place) × (me : MergeQuorumState) × (s' : SharedState) × (o
      ≡ some (record me { s = s' }))
    × (me.s ≡ s)
    × Chosen H good reserve me
    × MergedMore H c place me s'

-- Given good replays that are live and as long as the canonical replay, at least one of them, a
-- reserve of live replays and a target of at least one, `from_stalemate` does not panic, and makes
-- a quorum that meets its invariant. The quorum is made of good replays, no other of which is
-- longer than one of the quorum, and the good replays and the reserve are together the quorum and
-- its reserve. The canonical data is extended by data of the quorum at least to the end of the
-- common prefix of the quorum, and exactly to it if the quorum has at most two replays.
pub from_stalemate-Forms :
    {H : ℕ → Bytes} {c : Bytes} {place : ℕ → Place} (s : SharedState) (good reserve : List ℕ)
    → Starts H c place s good reserve
    → Forms H c s good reserve (from_stalemate s good reserve)
unfolding from_stalemate started
from_stalemate-Forms {H} {c} s good reserve v =
    sorted_then (longest_first-Reorders (λ id. length (H id)) s good (good_found s good reserve v))
  where
    merged_then :
        (place' : ℕ → Place) (me : MergeQuorumState)
        → me.s ≡ s
        → Chosen H good reserve me
        → MergesMore H c place' me (merge_more_data me)
        → from_stalemate s good reserve ≡ merge_more_data me
        → Forms H c s good reserve (from_stalemate s good reserve)
    merged_then place' me e x (s', run, m) eq = (place', me, s', eq ∙ run, e, x, m)

    sorted_then :
        Reorders (λ id. length (H id)) good (longest_first s good)
        → Forms H c s good reserve (from_stalemate s good reserve)
    sorted_then (sorted, run, len, same, falling) =
        merged_then (new_place s good reserve v sorted len same)
          (started s good reserve v sorted len same) refl
          (started-Chosen s good reserve v sorted len same falling)
          (merge_more_data-MergesMore _ (started-QuorumInv s good reserve v sorted len same))
          (rw run)
