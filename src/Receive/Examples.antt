-- ===== src/Receive/Examples.antt =====
-- A replay of three bytes, at each of its places, and what the strategy knows of it.
use mathlib.Core.Path.{subst}
use faf_rust_replayserver.Base.{
  Bytes, ℕ, zero, suc, ◌≤◌, ◌<◌, ◌≡◌, refl, ap, true, false, [], ◌∷◌, Option, some, none, arith,
  inl, length,
}
use faf_rust_replayserver.Samples.{bytes, data_replay, data_replay-Holds}
use faf_rust_replayserver.Util.BufDeque
use faf_rust_replayserver.Streams.MergedReplay
use faf_rust_replayserver.Streams.MergedReplay.Laws as Merged
use faf_rust_replayserver.Receive.Sets.{contains, contains_entry}
use faf_rust_replayserver.Receive.State.{ReplayState, SharedState}
use faf_rust_replayserver.Receive.State.Compare.{Live}
use faf_rust_replayserver.Receive.Place.{
  Place, outside, reserved, member, candidate, is_reserved, At, SharedInv,
}
use faf_rust_replayserver.Receive.Stalemate.{MergeStalemateState}
use faf_rust_replayserver.Receive.Stalemate.Inv.{StalemateInv, is_member}
use faf_rust_replayserver.Receive.Quorum.{MergeQuorumState}
use faf_rust_replayserver.Receive.Quorum.Inv.{QuorumInv, in_play, is_candidate}
use faf_rust_replayserver.Receive.Strategy.{stalemate}
use faf_rust_replayserver.Receive.Strategy.Stable.{Sane}

abbrev pub received : ℕ → Bytes
received zero = bytes
received (suc id) = []

abbrev pub place_at : Place → ℕ → Place
place_at p zero = p
place_at p (suc id) = outside

abbrev pub tracked : ReplayState
tracked = record { r = data_replay; stream_cmp_distance = 100; data_matching_canon = 0 }

abbrev pub replay_map : ℕ → Option ReplayState
replay_map zero = some tracked
replay_map (suc id) = none

-- The byte that a place names.
abbrev pub byte_of : Place → ℕ
byte_of (candidate b) = b
byte_of p = 0

abbrev pub shared : SharedState
shared = record {
  token = 1;
  stream_cmp_distance = 100;
  delayed_data_started = true;
  target_quorum_size = 1;
  replays = replay_map;
  canonical_stream = record MergedReplay.new { header = some (record { bytes = 1 ∷ [] }) };
}

pub tracked-Live : Live bytes 0 tracked
tracked-Live = record { holds = data_replay-Holds; matched = omega arith; window = omega arith }

pub shared-SharedInv :
    (p : Place) → At p bytes [] tracked → SharedInv received [] (place_at p) shared
unfolding MergedReplay.new BufDeque.new
shared-SharedInv p a = record {
  canon = record { rep = Merged.new-Holds.rep; whole = refl; delayed = omega arith };
  running = refl;
  headed = inl (record { bytes = 1 ∷ [] }, refl);
  placed = λ id lt. only id lt;
  unborn = λ id ge. later id ge;
}
  where
    only :
        (id : ℕ)
        → id < 1
        → (rs : ReplayState) × (replay_map id ≡ some rs) × At (place_at p id) (received id) [] rs
    only zero lt = (tracked, refl, a)
    only (suc id) lt = absurd (omega arith)

    later : (id : ℕ) → 1 ≤ id → (place_at p id ≡ outside) × (received id ≡ [])
    later zero ge = absurd (omega arith)
    later (suc id) ge = (refl, refl)

pub received-le : (id : ℕ) → length (received id) ≤ 3
received-le zero = omega arith
received-le (suc id) = omega arith

pub reserved-ne-candidate : {b : ℕ} → reserved ≡ candidate b → ⊥
reserved-ne-candidate e = cc

pub outside-ne-candidate : {b : ℕ} → outside ≡ candidate b → ⊥
outside-ne-candidate e = cc

-- The replay is a candidate for the byte 7.
abbrev pub waiting : MergeStalemateState
waiting = record { s = shared; candidates = (7, 0 ∷ []) ∷ []; reserve = [] }

pub waiting-StalemateInv : StalemateInv received [] (place_at (candidate 7)) waiting
unfolding contains contains_entry MergedReplay.new
waiting-StalemateInv = record {
  shared = shared-SharedInv (candidate 7) (tracked-Live, omega arith, refl);
  in_reserve = λ id. ground arith;
  distinct = tt;
  sound = ((omega arith, (refl, tt)), tt);
  listed = λ byte id e. is_listed byte id e;
  no_member = λ id. ground arith;
  caught_up = refl;
}
  where
    is_listed :
        (byte id : ℕ)
        → place_at (candidate 7) id ≡ candidate byte
        → contains_entry byte id waiting.candidates ≡ true
    is_listed byte zero e =
        subst (λ b. contains_entry b 0 waiting.candidates ≡ true) (ap byte_of e) (ground arith)
    is_listed byte (suc id) e = absurd (outside-ne-candidate e)

-- The replay waits in the reserve.
abbrev pub idle : MergeStalemateState
idle = record { s = shared; candidates = []; reserve = 0 ∷ [] }

pub idle-StalemateInv : StalemateInv received [] (place_at reserved) idle
unfolding contains contains_entry MergedReplay.new
idle-StalemateInv = record {
  shared = shared-SharedInv reserved tracked-Live;
  in_reserve = λ id. in_idle id;
  distinct = (refl, tt);
  sound = tt;
  listed = λ byte id e. never byte id e;
  no_member = λ id. no_one id;
  caught_up = refl;
}
  where
    in_idle : (id : ℕ) → contains (0 ∷ []) id ≡ is_reserved (place_at reserved id)
    in_idle zero = ground arith
    in_idle (suc id) = ground arith

    never : (byte id : ℕ) → place_at reserved id ≡ candidate byte → contains_entry byte id [] ≡ true
    never byte zero e = absurd (reserved-ne-candidate e)
    never byte (suc id) e = absurd (outside-ne-candidate e)

    no_one : (id : ℕ) → is_member (place_at reserved id) ≡ false
    no_one zero = refl
    no_one (suc id) = refl

-- The replay is a quorum, of which nothing is merged yet.
abbrev pub merging : MergeQuorumState
merging = record { s = shared; quorum = 0 ∷ []; reserve = [] }

pub merging-QuorumInv : QuorumInv received [] (place_at member) merging
unfolding contains
merging-QuorumInv = record {
  shared = shared-SharedInv member (tracked-Live, omega arith);
  in_quorum = λ id. in_merging id;
  in_either = λ id. in_play_merging id;
  distinct = tt;
  no_candidate = λ id. no_one id;
  nonempty = omega arith;
  bounded = omega arith;
}
  where
    in_merging : (id : ℕ) → contains (0 ∷ []) id ≡ is_member (place_at member id)
    in_merging zero = ground arith
    in_merging (suc id) = ground arith

    in_play_merging : (id : ℕ) → contains (0 ∷ []) id ≡ in_play (place_at member id)
    in_play_merging zero = ground arith
    in_play_merging (suc id) = ground arith

    no_one : (id : ℕ) → is_candidate (place_at member id) ≡ false
    no_one zero = refl
    no_one (suc id) = refl

pub idle-Sane : Sane received [] (stalemate idle)
idle-Sane = (place_at reserved, idle-StalemateInv, omega arith)
