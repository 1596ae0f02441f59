-- ===== src/Receive/Quorum/Inv.antt =====
-- The invariant of a quorum: its replays are live and at least as long as the canonical one.
use faf_rust_replayserver.Base.{Bytes, ℕ, ◌<◌, ◌≤◌, ◌≡◌, Bool, true, false, ◌||◌, length}
use faf_rust_replayserver.Receive.Sets.{contains, Distinct}
use faf_rust_replayserver.Receive.Place.{Place, reserved, member, candidate, SharedInv}
use faf_rust_replayserver.Receive.Stalemate.Inv.{is_member}
use faf_rust_replayserver.Receive.Quorum.{MergeQuorumState}

-- In the reserve or in the quorum.
abbrev pub in_play : Place → Bool
in_play reserved = true
in_play member = true
in_play _ = false

abbrev pub is_candidate : Place → Bool
is_candidate (candidate b) = true
is_candidate _ = false

pub record QuorumInv (H : ℕ → Bytes) (c : Bytes) (place : ℕ → Place) (me : MergeQuorumState)
    : Type 0 where
  pub shared : SharedInv H c place me.s
  pub in_quorum : (id : ℕ) → contains me.quorum id ≡ is_member (place id)
  pub in_either : (id : ℕ) → (contains me.reserve id || contains me.quorum id) ≡ in_play (place id)
  pub distinct : Distinct me.reserve
  pub no_candidate : (id : ℕ) → is_candidate (place id) ≡ false
  pub nonempty : 0 < length me.quorum
  pub bounded : length me.quorum ≤ me.s.target_quorum_size
