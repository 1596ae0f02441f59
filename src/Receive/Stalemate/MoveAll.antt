-- ===== src/Receive/Stalemate/MoveAll.antt =====
-- The loop of `from_quorum`, and the places of the replays that it tries.
use mathlib.Core.Bool.{false≢true}
use mathlib.Core.Path.{subst}
use faf_rust_replayserver.Receive.Sets.Laws.{each_contained, contains-All}
use faf_rust_replayserver.Base.{
  Bytes, ℕ, true, ◌≡◌, refl, sym, ap, ◌∙◌, inl, inr, false, List, [], ◌∷◌, Option, some, arith, All,
  ◌==◌, ==_iff, Bool-cases,
}
use faf_rust_replayserver.Receive.Sets.{contains, Distinct}
use faf_rust_replayserver.Receive.Place.{
  Place, reserved, put_place, put_place_self, put_place_ne, Same, Same-refl, Same-trans,
}
use faf_rust_replayserver.Receive.Stalemate.{
  MergeStalemateState, try_move_replay_to_candidates, try_move_all,
}
use faf_rust_replayserver.Receive.Stalemate.Inv.{StalemateInv}
use faf_rust_replayserver.Receive.Stalemate.Move.{Tried, Moves, try_reserved-Moves}

All-others :
    (place : ℕ → Place) (id : ℕ) (p : Place) (ids : List ℕ)
    → contains ids id ≡ false
    → All (λ j. place j ≡ reserved) ids
    → All (λ j. put_place place id p j ≡ reserved) ids
unfolding contains
All-others place id p [] new a = tt
All-others place id p (x ∷ xs) new a =
    (ground (arith, a.0), All-others place id p xs (ground arith) a.1)

abbrev pub MovesAll :
    (ℕ → Bytes)
    → Bytes
    → (ℕ → Place)
    → MergeStalemateState
    → List ℕ
    → Option MergeStalemateState
    → Type 0
MovesAll H c place me ids o =
    (me' : MergeStalemateState) × (place' : ℕ → Place) × (o ≡ some me')
    × StalemateInv H c place' me'
    × Same me.s me'.s
    × All (λ id. Tried H c me id (place' id)) ids
    × ((j : ℕ) → contains ids j ≡ false → place' j ≡ place j)

contains-ne :
    (ids : List ℕ) (id j : ℕ) → contains ids id ≡ false → contains ids j ≡ true → (id == j) ≡ false
contains-ne ids id j new e = elim (Bool-cases (id == j)) [
  | inl same ↦ absurd (false≢true (sym new ∙ ap (contains ids) ((==_iff id j).0 same) ∙ e))
  | inr other ↦ other
]

then-MovesAll :
    {H : ℕ → Bytes} {c : Bytes} (place : ℕ → Place) (me : MergeStalemateState) (id : ℕ)
    (ids : List ℕ)
    → contains ids id ≡ false
    → All (λ j. place j ≡ reserved) ids
    → Moves H c place me id (try_move_replay_to_candidates me id)
    → ((me' : MergeStalemateState) (p : Place)
        → StalemateInv H c (put_place place id p) me'
        → All (λ j. put_place place id p j ≡ reserved) ids
        → MovesAll H c (put_place place id p) me' ids (try_move_all me' ids))
    → MovesAll H c place me (id ∷ ids) (try_move_all me (id ∷ ids))
unfolding try_move_all contains
then-MovesAll {H} {c} place me id ids new at (me', p, run, v, same, tried, others) later =
    let (me'', place', run', v', same', all, away) =
      later me' p v (All-others place id p ids new at) in
    let stays : place' id ≡ p = away id new ∙ put_place_self place id p in
    (
      me'',
      place',
      rw (run, run'),
      v',
      Same-trans same same',
      (
        subst (Tried H c me id) (sym stays) tried,
        each_contained _ ids λ j e.
            let (rs, got, l) = contains-All _ ids j all e in
            (rs, sym (others j (contains-ne ids id j new e)) ∙ got, l),
      ),
      λ j e. away j (ground arith) ∙ put_place_ne place id j p (λ q. ground arith),
    )

pub try_move_all-MovesAll :
    {H : ℕ → Bytes} {c : Bytes} (place : ℕ → Place) (me : MergeStalemateState) (ids : List ℕ)
    → StalemateInv H c place me
    → Distinct ids
    → All (λ j. place j ≡ reserved) ids
    → MovesAll H c place me ids (try_move_all me ids)
unfolding try_move_all
try_move_all-MovesAll place me [] v d at = (me, place, refl, v, Same-refl me.s, tt, λ j e. refl)
try_move_all-MovesAll place me (id ∷ ids) v d at =
    then-MovesAll place me id ids d.0 at.1 (try_reserved-Moves me id v at.0)
      λ me' p v' at'. try_move_all-MovesAll (put_place place id p) me' ids v' d.1 at'
