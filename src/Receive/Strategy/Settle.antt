-- ===== src/Receive/Strategy/Settle.antt =====
-- `diverge_entries` at the end of a stalemate, and the places of the candidates.
use mathlib.Core.Bool.{false≢true}
use mathlib.Core.Path.{subst}
use faf_rust_replayserver.Base.{
  Bytes, ℕ, ◌<◌, ◌≡◌, refl, sym, ap, ◌∙◌, inl, inr, true, false, List, [], ◌∷◌, ◌++◌, arith, length,
  length-append, All, ◌==◌, ==_iff, if◌then◌else◌, Bool-cases,
}
use faf_rust_replayserver.Receive.Sets.{Entries}
use faf_rust_replayserver.Receive.Sets.Laws.{All-map}
use faf_rust_replayserver.Receive.State.{ReplayState, SharedState, for_each, set_diverged}
use faf_rust_replayserver.Receive.State.Compare.{Live-mono, set_diverged-Holds}
use faf_rust_replayserver.Receive.Place.{
  Place, outside, reserved, member, candidate, is_reserved, At, SharedInv, Same-refl, Same-trans,
  Changes, for_each-Changes,
}
use faf_rust_replayserver.Receive.Stalemate.Inv.{is_member}
use faf_rust_replayserver.Receive.Quorum.Inv.{is_candidate}
use faf_rust_replayserver.Receive.Strategy.{diverge_entries}

-- Where a replay is after `byte` was chosen.
abbrev pub settle : ℕ → Place → Place
settle byte outside = outside
settle byte reserved = reserved
settle byte member = member
settle byte (candidate k) = if k == byte then member else outside

pub settle-is_reserved : (byte : ℕ) (p : Place) → is_reserved (settle byte p) ≡ is_reserved p
settle-is_reserved byte outside = refl
settle-is_reserved byte reserved = refl
settle-is_reserved byte member = refl
settle-is_reserved byte (candidate k) = ground arith

pub settle-is_candidate : (byte : ℕ) (p : Place) → is_candidate (settle byte p) ≡ false
settle-is_candidate byte outside = refl
settle-is_candidate byte reserved = refl
settle-is_candidate byte member = refl
settle-is_candidate byte (candidate k) = ground arith

pub settle-is_member :
    (byte : ℕ) (p : Place)
    → is_member p ≡ false
    → is_member (settle byte p) ≡ true
    → p ≡ candidate byte
settle-is_member byte outside n h = absurd (false≢true h)
settle-is_member byte reserved n h = absurd (false≢true h)
settle-is_member byte member n h = absurd (false≢true (sym n))
settle-is_member byte (candidate k) n h = elim (Bool-cases (k == byte)) [
  | inl same ↦ ap candidate ((==_iff k byte).0 same)
  | inr other ↦
      absurd (false≢true (sym (ap (λ b. is_member (if b then member else outside)) other) ∙ h))
]

pub settled_member : (byte : ℕ) → settle byte (candidate byte) ≡ member
settled_member byte = ground arith

pub settle-At :
    (byte : ℕ) (p : Place) (h c ext : Bytes) (rs : ReplayState)
    → is_member p ≡ false
    → length ext ≡ 1
    → At p h c rs
    → At (settle byte p) h (c ++ ext) rs
settle-At byte outside h c ext rs n one a = a
settle-At byte reserved h c ext rs n one a = Live-mono _ (omega (arith, length-append c ext)) a
settle-At byte member h c ext rs n one a = absurd (false≢true (sym n))
settle-At byte (candidate k) h c ext rs n one a = elim (Bool-cases (k == byte)) [
  | inl same ↦ rw same (
    Live-mono _ (omega (arith, length-append c ext)) a.0,
    omega (arith, length-append c ext, one, a.1),
  )
  | inr other ↦ rw other a.0.holds
]

-- The replays under the other bytes diverged.
abbrev pub Out : (ℕ → Place) → SharedState → Entries → Type 0
Out place s = All (λ e. All (λ id. (id < s.token) × (place id ≡ outside)) e.1)

diverged-Changes :
    {H : ℕ → Bytes} {c : Bytes} {place : ℕ → Place} (s : SharedState) (ids : List ℕ)
    → SharedInv H c place s
    → All (λ id. (id < s.token) × (place id ≡ outside)) ids
    → Changes H c place s (for_each set_diverged s ids)
diverged-Changes {H} {c} s ids v a = for_each-Changes set_diverged s ids v (
    All-map _ _ ids
      (λ id b. (
        b.0,
        λ rs at.
            subst (λ p. At p (H id) c (set_diverged rs)) (sym b.1)
              (set_diverged-Holds (H id) rs (subst (λ p. At p (H id) c rs) b.1 at)),
      ))
      a)

then-Changes :
    {H : ℕ → Bytes} {c : Bytes} {place : ℕ → Place} (s : SharedState) (k : ℕ) (ids : List ℕ)
    (m : Entries)
    → Changes H c place s (for_each set_diverged s ids)
    → Out place s m
    → ((s' : SharedState)
        → SharedInv H c place s'
        → Out place s' m
        → Changes H c place s' (diverge_entries s' m))
    → Changes H c place s (diverge_entries s ((k, ids) ∷ m))
unfolding diverge_entries
then-Changes s k ids m (s', run, v', same) a later =
    let (s'', run', v'', same') = later s' v' (
      All-map _ _ m (λ e b. All-map _ _ e.1 (λ id d. (omega (arith, d.0, same.token), d.1)) b) a) in
    (s'', rw (run, run'), v'', Same-trans same same')

pub diverge_entries-Changes :
    {H : ℕ → Bytes} {c : Bytes} {place : ℕ → Place} (s : SharedState) (m : Entries)
    → SharedInv H c place s
    → Out place s m
    → Changes H c place s (diverge_entries s m)
unfolding diverge_entries
diverge_entries-Changes s [] v a = (s, refl, v, Same-refl s)
diverge_entries-Changes s ((k, ids) ∷ m) v a =
    then-Changes s k ids m (diverged-Changes s ids v a.0) a.1
      λ s' v' a'. diverge_entries-Changes s' m v' a'
