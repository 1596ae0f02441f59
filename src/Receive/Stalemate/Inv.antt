-- ===== src/Receive/Stalemate/Inv.antt =====
-- The invariant of a stalemate: the reserve and the candidates are exactly the replays placed there.
use faf_rust_replayserver.Base.{Bytes, ℕ, ◌<◌, ◌≡◌, Bool, true, false, length, All}
use faf_rust_replayserver.Receive.Sets.{contains, contains_entry, Distinct, Entries}
use faf_rust_replayserver.Receive.Place.{Place, member, candidate, is_reserved, SharedInv}
use faf_rust_replayserver.Receive.Stalemate.{MergeStalemateState}

abbrev pub is_member : Place → Bool
is_member member = true
is_member _ = false

-- Every entry has a replay, and only candidates for its byte.
abbrev pub Sound : (ℕ → Place) → Entries → Type 0
Sound place = All (λ e. (0 < length e.1) × All (λ id. place id ≡ candidate e.0) e.1)

pub record StalemateInv (H : ℕ → Bytes) (c : Bytes) (place : ℕ → Place) (me : MergeStalemateState)
    : Type 0 where
  pub shared : SharedInv H c place me.s
  pub in_reserve : (id : ℕ) → contains me.reserve id ≡ is_reserved (place id)
  pub distinct : Distinct me.reserve
  pub sound : Sound place me.candidates
  pub listed :
      (byte id : ℕ) → place id ≡ candidate byte → contains_entry byte id me.candidates ≡ true
  pub no_member : (id : ℕ) → is_member (place id) ≡ false
  pub caught_up : me.s.canonical_stream.delayed_data_len ≡ length c
