-- ===== src/Receive/Strategy/Stable.antt =====
-- The invariant of the strategy, and `work_state_until_stable`.
use mathlib.Core.Path.{subst}
use faf_rust_replayserver.Base.{
  Bytes, ℕ, zero, suc, ◌+◌, ◌-◌, ◌*◌, ◌≤◌, ◌<◌, ◌≡◌, refl, sym, ap, ◌∙◌, true, false, List, [], ◌∷◌,
  ◌++◌, Option, some, none, arith, length, length-append, append-nil, append_assoc, Bool-cases, inl,
  inr,
}
use faf_rust_replayserver.Receive.Place.{Place}
use faf_rust_replayserver.Streams.ReplayHeader.{ReplayHeader}
use faf_rust_replayserver.Receive.Stalemate
use faf_rust_replayserver.Receive.Stalemate.{MergeStalemateState, is_empty}
use faf_rust_replayserver.Receive.Stalemate.Inv.{StalemateInv}
use faf_rust_replayserver.Receive.Quorum
use faf_rust_replayserver.Receive.Quorum.{MergeQuorumState}
use faf_rust_replayserver.Receive.Quorum.Inv.{QuorumInv}
use faf_rust_replayserver.Receive.Quorum.Merge.{first_of, member-Good, member_of}
use faf_rust_replayserver.Receive.Strategy
use faf_rust_replayserver.Receive.Strategy.{
  QuorumMergeStrategy, quorum, stalemate, swapping, should_change_state, change_state,
  work_state_until_stable,
}
use faf_rust_replayserver.Receive.Strategy.Exit.{Exits, exit_stalemate-Exits}
use faf_rust_replayserver.Receive.Strategy.Enter.{Enters, enter_stalemate-Enters}

-- The strategy is in one of its two states, and the invariant of that state holds.
abbrev pub Sane : (ℕ → Bytes) → Bytes → QuorumMergeStrategy → Type 0
Sane H c (quorum me) = (place : ℕ → Place) × QuorumInv H c place me × (0 < me.s.target_quorum_size)
Sane H c (stalemate me) =
    (place : ℕ → Place) × StalemateInv H c place me × (0 < me.s.target_quorum_size)
Sane H c swapping = ⊥

-- How many replays were added.
abbrev pub token_of : QuorumMergeStrategy → ℕ
token_of (quorum me) = me.s.token
token_of (stalemate me) = me.s.token
token_of swapping = 0

-- The header of the canonical replay.
abbrev pub header_of : QuorumMergeStrategy → Option ReplayHeader
header_of (quorum me) = me.s.canonical_stream.header
header_of (stalemate me) = me.s.canonical_stream.header
header_of swapping = none

-- Nothing is left to do.
abbrev pub Stable : QuorumMergeStrategy → Type 0
Stable me = should_change_state me ≡ some false

-- A stable state, of a canonical replay that starts with what it was.
pub record Stabilised (H : ℕ → Bytes) (c : Bytes) (me me' : QuorumMergeStrategy) : Type 0 where
  pub ext : Bytes
  pub sane : Sane H (c ++ ext) me'
  pub stable : Stable me'
  pub token : token_of me' ≡ token_of me
  pub header : header_of me' ≡ header_of me

abbrev pub Stabilises :
    (ℕ → Bytes) → Bytes → QuorumMergeStrategy → Option QuorumMergeStrategy → Type 0
Stabilises H c me o = (me' : QuorumMergeStrategy) × (o ≡ some me') × Stabilised H c me me'

-- The rounds that are left when no replay has more than `longest` bytes: each end of a stalemate
-- takes a byte.
abbrev pub rounds : ℕ → Bytes → QuorumMergeStrategy → ℕ
rounds longest c (quorum me) = 2 * (longest - length c) + 2
rounds longest c (stalemate me) = 2 * (longest - length c) + 1
rounds longest c swapping = 0

change_then :
    {H : ℕ → Bytes} (c ext : Bytes) (fuel : ℕ) (me me' : QuorumMergeStrategy)
    → should_change_state me ≡ some true
    → change_state me ≡ some me'
    → token_of me' ≡ token_of me
    → header_of me' ≡ header_of me
    → Stabilises H (c ++ ext) me' (work_state_until_stable fuel me')
    → Stabilises H c me (work_state_until_stable (suc fuel) me)
unfolding work_state_until_stable
change_then {H} c ext fuel me me' must run t head (me'', run', s) = (
  me'',
  rw (must, run, run'),
  record {
    ext = ext ++ s.ext;
    sane = subst (λ b. Sane H b me'') (append_assoc c ext s.ext) s.sane;
    stable = s.stable;
    token = s.token ∙ t;
    header = s.header ∙ head;
  },
)

stay_then :
    {H : ℕ → Bytes} (c : Bytes) (fuel : ℕ) (me : QuorumMergeStrategy)
    → Sane H c me
    → Stable me
    → Stabilises H c me (work_state_until_stable (suc fuel) me)
unfolding work_state_until_stable
stay_then {H} c fuel me v s = (
  me,
  rw s,
  record {
    ext = [];
    sane = subst (λ b. Sane H b me) (sym (append-nil c)) v;
    stable = s;
    token = refl;
    header = refl;
  },
)

-- The canonical replay of a quorum is within the data of some replay.
quorum-longest :
    {H : ℕ → Bytes} {c : Bytes} {place : ℕ → Place} (longest : ℕ) (me : MergeQuorumState)
    → ((id : ℕ) → length (H id) ≤ longest)
    → QuorumInv H c place me
    → length c ≤ longest
quorum-longest longest me bound v =
    let (id, _, q) = first_of me.quorum v.nonempty in
    let (_, _, _, le) = member-Good me v id (member_of me v id q) in omega (arith, bound id)

can_exit_candidates :
    (me : MergeStalemateState) → Stalemate.can_exit_stalemate me ≡ true → 0 < length me.candidates
unfolding Stalemate.can_exit_stalemate
can_exit_candidates me e = not_empty me.candidates (ground arith)
  where
    not_empty : {A : Type 0} (xs : List A) → is_empty xs ≡ false → 0 < length xs
    not_empty [] h = absurd (ground arith)
    not_empty (x ∷ xs) h = omega arith

module _ (H : ℕ → Bytes) (longest : ℕ) (bound : (id : ℕ) → length (H id) ≤ longest) where
  -- One round is done, and the others follow.
  abbrev Later : ℕ → Type 0
  Later fuel =
      (c' : Bytes) (me' : QuorumMergeStrategy)
      → Sane H c' me'
      → rounds longest c' me' ≤ fuel
      → Stabilises H c' me' (work_state_until_stable fuel me')

  exit_then :
      (c : Bytes) (fuel : ℕ) (me : MergeStalemateState)
      → rounds longest c (stalemate me) ≤ suc fuel
      → should_change_state (stalemate me) ≡ some true
      → 0 < me.s.target_quorum_size
      → Exits H c me.s (Strategy.exit_stalemate me)
      → Later fuel
      → Stabilises H c (stalemate me) (work_state_until_stable (suc fuel) (stalemate me))
  unfolding change_state
  exit_then c fuel me le must target (q, run, x) later =
      change_then c x.ext fuel (stalemate me) (quorum q) must (rw run) x.token x.header (
        later (c ++ x.ext) (quorum q) (x.place, x.inv, omega (arith, target, x.target))
          (omega
            (arith, le, length-append c x.ext, x.longer, quorum-longest longest q bound x.inv)))

  enter_then :
      (c : Bytes) (place : ℕ → Place) (fuel : ℕ) (me : MergeQuorumState)
      → rounds longest c (quorum me) ≤ suc fuel
      → should_change_state (quorum me) ≡ some true
      → 0 < me.s.target_quorum_size
      → Enters H c place me (Strategy.enter_stalemate me)
      → Later fuel
      → Stabilises H c (quorum me) (work_state_until_stable (suc fuel) (quorum me))
  unfolding change_state
  enter_then c place₀ fuel me le must target (s, place, run, v, same, _, _) later =
      change_then c [] fuel (quorum me) (stalemate s) must (rw run) same.token
        (ap (λ t. t.header) same.canonical)
        (later (c ++ []) (stalemate s)
          (
            place,
            subst (λ b. StalemateInv H b place s) (sym (append-nil c)) v,
            omega (arith, target, same.target),
          )
          (omega (arith, le, length-append c [])))

  round_then :
      (c : Bytes) (fuel : ℕ) (me : QuorumMergeStrategy)
      → Sane H c me
      → rounds longest c me ≤ suc fuel
      → Later fuel
      → Stabilises H c me (work_state_until_stable (suc fuel) me)
  unfolding should_change_state
  round_then c fuel (quorum me) (place, v, target) le later =
      elim (Bool-cases (Quorum.has_to_enter_stalemate me)) [
        | inl must ↦
            enter_then c place fuel me le (ap some must) target (enter_stalemate-Enters me v must)
              later
        | inr done ↦ stay_then c fuel (quorum me) (place, v, target) (ap some done)
      ]
  round_then c fuel (stalemate me) (place, v, target) le later =
      elim (Bool-cases (Stalemate.can_exit_stalemate me)) [
        | inl must ↦
            exit_then c fuel me le (ap some must) target
              (exit_stalemate-Exits me v target (can_exit_candidates me must)) later
        | inr done ↦ stay_then c fuel (stalemate me) (place, v, target) (ap some done)
      ]
  round_then c fuel swapping v le later = absurd v

  -- From any state of the strategy that meets its invariant, with no replay longer than `longest`
  -- and two rounds of fuel for each byte that is left plus two, `work_state_until_stable` returns:
  -- no assertion, lookup or slice fails, the state it returns meets the invariant and has nothing
  -- more to do, no replay was added, and the canonical data starts with the data it had.
  pub work_state_until_stable-Stabilises :
      (c : Bytes) (fuel : ℕ) (me : QuorumMergeStrategy)
      → Sane H c me
      → rounds longest c me ≤ fuel
      → Stabilises H c me (work_state_until_stable fuel me)
  work_state_until_stable-Stabilises c zero (quorum me) v le = absurd (omega arith)
  work_state_until_stable-Stabilises c zero (stalemate me) v le = absurd (omega arith)
  work_state_until_stable-Stabilises c zero swapping v le = absurd v
  work_state_until_stable-Stabilises c (suc fuel) me v le =
      round_then c fuel me v le
        λ c' me' v' le'. work_state_until_stable-Stabilises c' fuel me' v' le'
