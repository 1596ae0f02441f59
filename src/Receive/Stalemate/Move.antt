-- ===== src/Receive/Stalemate/Move.antt =====
-- `try_move_replay_to_candidates`, and the place of the replay that is tried.
use faf_rust_replayserver.Receive.Stalemate.Leave.{drop_reserved, pick_reserved}
use mathlib.Core.Path.{subst, fun_ext}
use faf_rust_replayserver.Util.ChunkedBuf.Prefix.{Agree, Differ}
use faf_rust_replayserver.Base.{
  Bytes, ℕ, ◌<◌, ◌≤◌, ◌⊎◌, if◌then◌else◌, leb→le, ◌≡◌, refl, sym, ap, ◌∙◌, inl, inr, false, Option,
  some, arith, length, get_elem?, leb, leb→gt, ◌==◌, ==_iff, Bool-cases,
}
use faf_rust_replayserver.Util.BufDeque.{as_chunked}
use faf_rust_replayserver.Util.BufDeque.Chunk.{as_chunked-Serves}
use faf_rust_replayserver.Util.ChunkedBuf
use faf_rust_replayserver.Util.ChunkedBuf.Chunks.{at-eq-get_elem?}
use faf_rust_replayserver.Receive.Sets.{remove}
use faf_rust_replayserver.Receive.State.{
  ReplayState, set_replay, canon_data_len, diverges_at_stalemate, set_diverged, set_matching,
}
use faf_rust_replayserver.Receive.State.Compare.{
  Live, Decides, match_start, diverges_at_stalemate-Decides, set_matching-Live, set_diverged-Holds,
  window-le,
}
use faf_rust_replayserver.Receive.Place.{
  Place, outside, reserved, candidate, At, put_place, find, Same, Same-refl,
}
use faf_rust_replayserver.Receive.Stalemate.{
  MergeStalemateState, insert_candidate, leave_short, move_long, try_move_replay_to_candidates,
}
use faf_rust_replayserver.Receive.Stalemate.Inv.{StalemateInv}

-- Where a replay with data `h` goes: one that is no longer than the canonical data stays, or is out if
-- it ended; a longer one is a candidate for its next byte, and agrees with the canonical data from
-- the start of the comparison, or is out, and differs from it.
abbrev pub Lands : Bytes → Bytes → ReplayState → Place → Type 0
Lands h c rs p =
    ((length h ≤ length c) × (p ≡ (if rs.r.finished then outside else reserved)))
    ⊎ ((length c < length h)
        × (byte : ℕ) × (get_elem? h (length c) ≡ some byte)
        × Agree h c (match_start rs (length c)) (length c)
        × (p ≡ candidate byte))
    ⊎ ((length c < length h) × (i : ℕ) × Differ h c i × (p ≡ outside))

abbrev pub Tried : (ℕ → Bytes) → Bytes → MergeStalemateState → ℕ → Place → Type 0
Tried H c me id p = (rs : ReplayState) × (me.s.replays id ≡ some rs) × Lands (H id) c rs p

-- `id` was placed anew; nothing else changed.
abbrev pub Moves :
    (ℕ → Bytes)
    → Bytes
    → (ℕ → Place)
    → MergeStalemateState
    → ℕ
    → Option MergeStalemateState
    → Type 0
Moves H c place me id o =
    (me' : MergeStalemateState) × (p : Place) × (o ≡ some me')
    × StalemateInv H c (put_place place id p) me'
    × Same me.s me'.s
    × Tried H c me id p
    × ((j : ℕ) → (id == j) ≡ false → me'.s.replays j ≡ me.s.replays j)

module _ {H : ℕ → Bytes} {c : Bytes} {place : ℕ → Place} {me : MergeStalemateState}
    (v : StalemateInv H c place me) (id : ℕ) (at_reserve : place id ≡ reserved) (rs : ReplayState)
    (got : me.s.replays id ≡ some rs) (live : Live (H id) (length c) rs) where
  -- Nothing moves.
  stay_reserved : StalemateInv H c (put_place place id reserved) me
  stay_reserved = subst (λ f. StalemateInv H c f me) (fun_ext same) v
    where
      same : (j : ℕ) → place j ≡ put_place place id reserved j
      same j = elim (Bool-cases (id == j)) [
        | inl hit ↦ rw hit (ap place (sym ((==_iff id j).0 hit)) ∙ at_reserve)
        | inr miss ↦ rw miss
      ]

  replaced :
      (rs' : ReplayState) (j : ℕ)
      → (id == j) ≡ false
      → (set_replay me.s id rs').replays j ≡ me.s.replays j
  replaced rs' j other = rw other refl

  leave_short-Moves : length (H id) ≤ length c → Moves H c place me id (some (leave_short me id rs))
  unfolding leave_short
  leave_short-Moves short = elim (Bool-cases rs.r.finished) [
    | inl over ↦ (
      record me { s = set_replay me.s id (set_diverged rs); reserve = remove id me.reserve },
      outside,
      simp over,
      drop_reserved v id at_reserve (set_diverged rs) (set_diverged-Holds (H id) rs live.holds),
      record { token = refl; target = refl; started = refl; canonical = refl },
      (rs, got, inl (short, rw over refl)),
      replaced (set_diverged rs),
    )
    | inr open' ↦ (
      me,
      reserved,
      simp open',
      stay_reserved,
      Same-refl me.s,
      (rs, got, inl (short, rw open' refl)),
      λ j other. refl,
    )
  ]

  module _ (longer : length c < length (H id)) where
    -- The length of the canonical replay, as the code reads it.
    n : ℕ
    n = canon_data_len me.s

    candidate-At :
        (rs' : ReplayState) (byte : ℕ)
        → Live (H id) n rs'
        → get_elem? (H id) n ≡ some byte
        → At (candidate byte) (H id) c rs'
    unfolding n
    candidate-At rs' byte l e =
        let k = v.shared.canon.rep.end in
        (
          subst (λ m. Live (H id) m rs') k l,
          longer,
          subst (λ m. get_elem? (H id) m ≡ some byte) k e,
        )

    read-Moves :
        (byte : ℕ)
        → diverges_at_stalemate rs me.s.canonical_stream ≡ some false
        → Live (H id) n (set_matching rs n)
        → ChunkedBuf.at (as_chunked (set_matching rs n).r.content) n ≡ some byte
        → get_elem? (H id) n ≡ some byte
        → Agree (H id) c (match_start rs (length c)) (length c)
        → Moves H c place me id (move_long me id rs)
    unfolding n move_long insert_candidate
    read-Moves byte fits live' read e agree = (
      insert_candidate
          (record me { s = set_replay me.s id (set_matching rs n); reserve = remove id me.reserve })
          byte id,
      candidate byte,
      simp (fits, read),
      pick_reserved v id at_reserve (set_matching rs n) byte (candidate-At _ byte live' e),
      record { token = refl; target = refl; started = refl; canonical = refl },
      (
        rs,
        got,
        inr (
            inl (
              longer,
              byte,
              subst (λ m. get_elem? (H id) m ≡ some byte) v.shared.canon.rep.end e,
              agree,
              refl,
            )),
      ),
      replaced (set_matching rs n),
    )

    matched-Moves :
        diverges_at_stalemate rs me.s.canonical_stream ≡ some false
        → Agree (H id) c (match_start rs (length c)) (length c)
        → Moves H c place me id (move_long me id rs)
    unfolding n
    matched-Moves fits agree =
        let live' =
          set_matching-Live (H id) n rs
            (subst (λ m. Live (H id) m rs) (sym v.shared.canon.rep.end) live) in
        let (byte, read, e) =
          at-eq-get_elem? _ _ (H id) (as_chunked-Serves live'.holds.rep) n (window-le live')
            (omega (arith, v.shared.canon.rep.end)) in
        read-Moves byte fits live' read e agree

    move_long-Moves : Moves H c place me id (move_long me id rs)
    move_long-Moves = decided (
        diverges_at_stalemate-Decides (H id) c rs me.s.canonical_stream live v.shared.canon
          (omega arith))
      where
        decided :
            Decides
              (H id)
              c
              (match_start rs (length c))
              (diverges_at_stalemate rs me.s.canonical_stream)
            → Moves H c place me id (move_long me id rs)
        decided (inl (fits, agree)) = matched-Moves fits agree
        decided (inr (i, differs, d)) = (
          record me { s = set_replay me.s id (set_diverged rs); reserve = remove id me.reserve },
          outside,
          unfold move_long in simp differs,
          drop_reserved v id at_reserve (set_diverged rs) (set_diverged-Holds (H id) rs live.holds),
          record { token = refl; target = refl; started = refl; canonical = refl },
          (rs, got, inr (inr (longer, i, d, refl))),
          replaced (set_diverged rs),
        )

  pub try_move-Moves : Moves H c place me id (try_move_replay_to_candidates me id)
  unfolding try_move_replay_to_candidates
  try_move-Moves =
      let r = live.holds.rep.end in
      elim (Bool-cases (leb rs.r.content.window_end (canon_data_len me.s))) [
        | inl short ↦
            let run : try_move_replay_to_candidates me id ≡ some (leave_short me id rs) =
              simp (got, short) in
            subst (Moves H c place me id) (sym run)
              (leave_short-Moves (omega (arith, leb→le _ _ short, v.shared.canon.rep.end, r)))
        | inr long ↦
            let run : try_move_replay_to_candidates me id ≡ move_long me id rs = simp (got, long) in
            subst (Moves H c place me id) (sym run)
              (move_long-Moves (omega (arith, leb→gt _ _ long, v.shared.canon.rep.end, r)))
      ]

-- Trying a replay of the reserve in a stalemate that meets its invariant does not panic, and the
-- invariant holds afterwards with every other replay where it was. A replay with no more data than
-- the canonical one stays in the reserve, or is out if it is finished; one with more is a
-- candidate for the byte that follows, and then agrees with the canonical data from the start of
-- the comparison on, or is out, and then differs from it somewhere. The token, the target, the
-- delayed mark, the canonical replay and the other replays are unchanged.
pub try_reserved-Moves :
    {H : ℕ → Bytes} {c : Bytes} {place : ℕ → Place} (me : MergeStalemateState) (id : ℕ)
    → StalemateInv H c place me
    → place id ≡ reserved
    → Moves H c place me id (try_move_replay_to_candidates me id)
try_reserved-Moves me id v e =
    let (rs, got, live) = find v.shared id reserved e (λ q. cc) in try_move-Moves v id e rs got live
