-- ===== src/Receive/Quorum/Discard.antt =====
-- `discard_data_after_merging`, and the invariant of a quorum.
use mathlib.Core.Bool.{false≢true}
use mathlib.Core.Path.{subst}
use faf_rust_replayserver.Base.{Bytes, ℕ, ◌≡◌, sym, ap, ◌∙◌, true, Option, some, length}
use faf_rust_replayserver.Receive.Sets.{contains}
use faf_rust_replayserver.Receive.Sets.Laws.{each_contained}
use faf_rust_replayserver.Receive.State.{
  ReplayState, SharedState, canon_data_len, for_each, set_matching,
  discard_if_not_needed_for_checking_divergence,
}
use faf_rust_replayserver.Receive.State.Compare.{
  Live, set_matching-Live, discard_if_not_needed-Live,
}
use faf_rust_replayserver.Receive.Place.{
  Place, outside, reserved, member, candidate, At, SharedInv, born, Same, Same-trans, KeepsAt,
  Changes, for_each-Changes,
}
use faf_rust_replayserver.Receive.Quorum.{MergeQuorumState, discard_data_after_merging}
use faf_rust_replayserver.Receive.Quorum.Inv.{in_play}

-- A change that keeps live replays live keeps what is known of those in play.
in_play-At :
    (p : Place) (h c : Bytes) (change : ReplayState → ReplayState) (rs : ReplayState)
    → in_play p ≡ true
    → (Live h (length c) rs → Live h (length c) (change rs))
    → At p h c rs
    → At p h c (change rs)
in_play-At outside h c change rs q f a = absurd (false≢true q)
in_play-At reserved h c change rs q f a = f a
in_play-At member h c change rs q f a = (f a.0, a.1)
in_play-At (candidate b) h c change rs q f a = absurd (false≢true q)

in_play-KeepsAt :
    {H : ℕ → Bytes} {c : Bytes} {place : ℕ → Place} {s : SharedState}
    → SharedInv H c place s
    → (change : ReplayState → ReplayState) (id : ℕ) → in_play (place id) ≡ true
    → ((rs : ReplayState) → Live (H id) (length c) rs → Live (H id) (length c) (change rs))
    → KeepsAt H c place s change id
in_play-KeepsAt {H} {c} {place} v change id q f = (
  born v id (λ o. false≢true (sym (ap in_play o) ∙ q)),
  λ rs. in_play-At (place id) (H id) c change rs q (f rs),
)

-- Discarding what was merged.
abbrev pub Discards :
    (ℕ → Bytes) → Bytes → (ℕ → Place) → MergeQuorumState → Option MergeQuorumState → Type 0
Discards H c place me o =
    (s' : SharedState) × (o ≡ some (record me { s = s' })) × SharedInv H c place s' × Same me.s s'

module _ {H : ℕ → Bytes} {c : Bytes} {place : ℕ → Place} (me : MergeQuorumState)
    (v : SharedInv H c place me.s)
    (in_quorum : (id : ℕ) → contains me.quorum id ≡ true → place id ≡ member)
    (in_reserve : (id : ℕ) → contains me.reserve id ≡ true → in_play (place id) ≡ true) where
  quorum-KeepsAt :
      (n : ℕ)
      → n ≡ length c
      → (id : ℕ) → contains me.quorum id ≡ true
      → KeepsAt H c place me.s (λ r. set_matching r n) id
  quorum-KeepsAt n e id q =
      in_play-KeepsAt v (λ r. set_matching r n) id (ap in_play (in_quorum id q))
        λ rs l.
          subst (λ m. Live (H id) (length c) (set_matching rs m)) (sym e)
            (set_matching-Live (H id) (length c) rs l)

  reserve-KeepsAt :
      (n : ℕ)
      → n ≡ length c
      → (s : SharedState) → SharedInv H c place s
      → (id : ℕ) → contains me.reserve id ≡ true
      → KeepsAt H c place s (λ r. discard_if_not_needed_for_checking_divergence r n) id
  reserve-KeepsAt n e s v' id q =
      in_play-KeepsAt v' (λ r. discard_if_not_needed_for_checking_divergence r n) id
        (in_reserve id q)
        λ rs l.
          subst (λ m. Live (H id) (length c) (discard_if_not_needed_for_checking_divergence rs m))
            (sym e) (discard_if_not_needed-Live (H id) (length c) rs l)

  then-Discards :
      canon_data_len me.s ≡ length c
      → Changes H c place me.s (for_each (λ r. set_matching r (canon_data_len me.s)) me.s me.quorum)
      → Discards H c place me (discard_data_after_merging me)
  unfolding discard_data_after_merging
  then-Discards e (s', run, v', same) =
      let n = canon_data_len me.s in
      let (s'', run', v'', same') =
        for_each-Changes (λ r. discard_if_not_needed_for_checking_divergence r n) s' me.reserve v'
          (each_contained _ me.reserve λ id q. reserve-KeepsAt n e s' v' id q) in
      (s'', simp (run, run'), v'', Same-trans same same')

  pub discard_data_after_merging-Discards : Discards H c place me (discard_data_after_merging me)
  discard_data_after_merging-Discards =
      let e = v.canon.rep.end in
      then-Discards e (
        for_each-Changes (λ r. set_matching r (canon_data_len me.s)) me.s me.quorum v
          (each_contained _ me.quorum λ id q. quorum-KeepsAt (canon_data_len me.s) e id q))
