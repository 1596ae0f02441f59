-- ===== src/Receive/Quorum/Keys.antt =====
-- The helpers of `MergeQuorumState` that read a number from each of some replays.
use mathlib.Core.Path.{subst}
use faf_rust_replayserver.Base.{
  ℕ, ◌≤◌, ◌<◌, ◌≡◌, refl, sym, ap, List, [], ◌∷◌, Option, some, arith, length, All, map, ltb,
  ltb→lt, ltb→ge, Bool-cases, inl, inr, if◌then◌else◌,
}
use faf_rust_replayserver.Streams.WriterReplay.{WriterReplay}
use faf_rust_replayserver.Receive.State.{ReplayState, SharedState}
use faf_rust_replayserver.Receive.Quorum.{keyed, min_from, min_by_key}

abbrev pub ids_of : List (ℕ × ℕ) → List ℕ
ids_of = map (λ p. p.1)

-- The replay is in the map, and the number is its key.
abbrev pub KeyOf : (WriterReplay → ℕ) → SharedState → ℕ × ℕ → Type 0
KeyOf key s p = (rs : ReplayState) × (s.replays p.1 ≡ some rs) × (p.0 ≡ key rs.r)

abbrev pub Keys : (WriterReplay → ℕ) → SharedState → List ℕ → Option (List (ℕ × ℕ)) → Type 0
Keys key s ids o =
    (pairs : List (ℕ × ℕ)) × (o ≡ some pairs) × (ids_of pairs ≡ ids) × All (KeyOf key s) pairs

pub keyed-Keys :
    (key : WriterReplay → ℕ) (s : SharedState) (ids : List ℕ)
    → All (λ id. (rs : ReplayState) × (s.replays id ≡ some rs)) ids
    → Keys key s ids (keyed key s ids)
unfolding keyed
keyed-Keys key s [] a = ([], refl, refl, tt)
keyed-Keys key s (id ∷ ids) a =
    let (rs, got) = a.0 in
    let (pairs, run, e, k) = keyed-Keys key s ids a.1 in
    ((key rs.r, id) ∷ pairs, rw (got, run), ap (◌∷◌ id) e, ((rs, got, refl), k))

-- The least key.
abbrev pub Least : (ℕ × ℕ → Type 0) → List (ℕ × ℕ) → Option (ℕ × ℕ) → Type 0
Least P pairs o = (best : ℕ × ℕ) × (o ≡ some best) × P best × All (λ p. best.0 ≤ p.0) pairs

abbrev Under : (ℕ × ℕ → Type 0) → ℕ × ℕ → List (ℕ × ℕ) → ℕ × ℕ → Type 0
Under P best pairs m = P m × (m.0 ≤ best.0) × All (λ p. m.0 ≤ p.0) pairs

min_from-Under :
    (P : ℕ × ℕ → Type 0) (best : ℕ × ℕ) (pairs : List (ℕ × ℕ))
    → P best
    → All P pairs
    → Under P best pairs (min_from best pairs)
unfolding min_from
min_from-Under P best [] b a = (b, omega arith, tt)
min_from-Under P best (x ∷ xs) b a = elim (Bool-cases (ltb x.0 best.0)) [
  | inl less ↦
      let (p, le, all) = min_from-Under P x xs a.0 a.1 in
      subst (Under P best (x ∷ xs)) (ap (λ t. min_from (if t then x else best) xs) (sym less))
        (p, omega (arith, le, ltb→lt _ _ less), (le, all))
  | inr more ↦
      let (p, le, all) = min_from-Under P best xs b a.1 in
      subst (Under P best (x ∷ xs)) (ap (λ t. min_from (if t then x else best) xs) (sym more))
        (p, le, (omega (arith, le, ltb→ge _ _ more), all))
]

pub min_by_key-Least :
    (P : ℕ × ℕ → Type 0) (pairs : List (ℕ × ℕ))
    → 0 < length pairs
    → All P pairs
    → Least P pairs (min_by_key pairs)
unfolding min_by_key
min_by_key-Least P [] pos a = absurd (omega arith)
min_by_key-Least P (x ∷ xs) pos a =
    let (p, le, all) = min_from-Under P x xs a.0 a.1 in (min_from x xs, refl, p, (le, all))
