-- ===== src/Util/EmptyCounter/Laws.antt =====
-- `wait_until_empty_for`, against the happenings that end it.
use mathlib.Core.Bool.{false≢true}
use mathlib.Core.Path.{subst}
use faf_rust_replayserver.Base.{
  ℕ, zero, suc, ◌+◌, ◌≡◌, refl, sym, ap, ◌∙◌, ◌⊎◌, inl, inr, true, false, List, [], ◌∷◌, Option,
  none, some, leb, ◌==◌, ==_iff, arith, if◌then◌else◌, Bool-cases,
}
use faf_rust_replayserver.Util.EmptyCounter.{
  EmptyCounter, inc, dec, Wakeup, changed, unseen, closed, timed_out, turn, held_after,
  wait_until_empty_for, wait,
}

-- The count that the waiter saw last.
abbrev pub seen_after : ℕ → ℕ → Wakeup → ℕ
seen_after held seen (changed c) = c
seen_after held seen (unseen c) = seen
seen_after held seen closed = seen
seen_after held seen timed_out = if seen == 0 then held else seen

-- What ends a waiter: the drop, or a timeout that it waits for while the counter is 0.
abbrev pub Ends : ℕ → ℕ → Wakeup → Type 0
Ends held seen (changed c) = ⊥
Ends held seen (unseen c) = ⊥
Ends held seen closed = Unit
Ends held seen timed_out = (seen ≡ 0) × (held ≡ 0)

-- No happening ends the waiter, and it still waits.
abbrev pub Quiet : ℕ → ℕ → List Wakeup → Type 0
Quiet held seen [] = Unit
Quiet held seen (w ∷ ws) =
    (Ends held seen w → ⊥) × Quiet (held_after held w) (seen_after held seen w) ws

-- The waiter ends at the first happening that ends it, with the others left.
abbrev pub EndsFirst : ℕ → ℕ → List Wakeup → List Wakeup → Type 0
EndsFirst held seen [] left = ⊥
EndsFirst held seen (w ∷ ws) left =
    (Ends held seen w × (left ≡ ws))
    ⊎ ((Ends held seen w → ⊥) × EndsFirst (held_after held w) (seen_after held seen w) ws left)

abbrev pub Waits : ℕ → ℕ → List Wakeup → Option (List Wakeup) → Type 0
Waits held seen ws o =
    ((o ≡ none) × Quiet held seen ws)
    ⊎ ((left : List Wakeup) × (o ≡ some left) × EndsFirst held seen ws left)

Waits-cons :
    (held seen : ℕ) (w : Wakeup) (ws : List Wakeup) (o : Option (List Wakeup))
    → (Ends held seen w → ⊥)
    → Waits (held_after held w) (seen_after held seen w) ws o
    → Waits held seen (w ∷ ws) o
Waits-cons held seen w ws o q (inl (e, r)) = inl (e, (q, r))
Waits-cons held seen w ws o q (inr (left, e, r)) = inr (left, e, inr (q, r))

timed_out_cases :
    (held seen : ℕ)
    → ((turn held seen timed_out ≡ none) × Ends held seen timed_out)
      ⊎ ((turn held seen timed_out ≡ some (seen_after held seen timed_out))
          × (Ends held seen timed_out → ⊥))
unfolding turn
timed_out_cases held zero = elim (Bool-cases (held == 0)) [
  | inl empty ↦ inl (rw empty refl, (refl, (==_iff held 0).0 empty))
  | inr busy ↦ inr (rw busy refl, λ e. not_zero busy e.1)
]
  where
    not_zero : (held == 0) ≡ false → held ≡ 0 → ⊥
    not_zero busy e = false≢true (sym busy ∙ (==_iff held 0).1 e)
timed_out_cases held (suc n) =
    let positive : (suc n == 0) ≡ false = ground arith in
    inr (rw positive refl, λ e. ground (arith, e.0))

wait-Waits :
    (held seen : ℕ) (ws : List Wakeup)
    → Waits held seen ws (wait_until_empty_for held (some seen) ws)
unfolding wait_until_empty_for turn
wait-Waits held seen [] = inl (refl, tt)
wait-Waits held seen (changed c ∷ ws) =
    Waits-cons held seen (changed c) ws _ (λ e. e) (wait-Waits c c ws)
wait-Waits held seen (unseen c ∷ ws) =
    Waits-cons held seen (unseen c) ws _ (λ e. e) (wait-Waits c seen ws)
wait-Waits held seen (closed ∷ ws) = inr (ws, refl, inl (tt, refl))
wait-Waits held seen (timed_out ∷ ws) = elim (timed_out_cases held seen) [
  | inl (e, ends) ↦ inr (ws, ap (λ o. wait_until_empty_for held o ws) e, inl (ends, refl))
  | inr (e, stays) ↦
      subst (λ o. Waits held seen (timed_out ∷ ws) (wait_until_empty_for held o ws)) (sym e)
        (Waits-cons held seen timed_out ws _ stays
          (wait-Waits held (seen_after held seen timed_out) ws))
]

-- For any counter and any sequence of happenings, in which counts may be sent that the waiter did
-- not see yet, `wait_until_empty_for` ends at the first of these that ends it, and waits as long
-- as there is none: the drop of the counter, or a timeout after the waiter saw a count of 0 and
-- while the counter is 0. A timeout before the waiter saw a new count that is not 0 does not end
-- it.
pub wait_until_empty_for-Waits :
    (c : EmptyCounter) (ws : List Wakeup) → Waits c.counter c.counter ws (wait c ws)
wait_until_empty_for-Waits c ws = wait-Waits c.counter c.counter ws

pub dec-inc : (c : EmptyCounter) → dec (inc c) ≡ some c
unfolding dec inc
dec-inc c =
    let pos : leb 1 (c.counter + 1) ≡ true = ground arith in
    rw pos (ap (λ n. some (record { counter = n })) (omega arith))
