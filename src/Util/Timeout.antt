-- ===== src/Util/Timeout.antt =====
-- util/timeout.rs. A future is the time at which it is ready and its value, or it never is; the
-- choice that `select!` makes at random between two that are ready at once is an argument.
use faf_rust_replayserver.Base.{
  ℕ, Bool, true, false, ◌≡◌, ◌≤◌, refl, ap, Bool-cases, ◌⊎◌, inl, inr, Option, none, some, ltb,
  if◌then◌else◌, arith,
}

pub data Future {ℓ} (A : Type ℓ) : Type ℓ where
  never : Future A
  ready : ℕ → A → Future A

module _ {ℓ} {A : Type ℓ} where
  unfoldable pub until {κ} : {B : Type κ} → Bool → Future A → Future B → Future (Option A)
  until tie never never = never
  until tie never (ready u b) = ready u none
  until tie (ready t a) never = ready t (some a)
  until tie (ready t a) (ready u b) =
      if ltb t u
      then ready t (some a)
      else if ltb u t
      then ready u none
      else ready t (if tie then some a else none)

  unfoldable pub timeout : Bool → Future A → ℕ → Future (Option A)
  timeout tie f time = let rings : Future (Unit {0}) = ready time tt in until tie f rings

  -- `token.cancelled()` is ready when the token is cancelled.
  unfoldable pub cancellable : Bool → Future A → Future (Unit {0}) → Future (Option A)
  cancellable tie f cancelled = until tie f cancelled

-- What can come out of a race of `f` against a timer: the timer, if `f` was not ready before it, or
-- the value of `f`.
abbrev pub Races {ℓ} : {A : Type ℓ} → Future A → ℕ → Future (Option A) → Type ℓ
Races {A = A} f time r =
    ((r ≡ ready time none) × ((t : ℕ) → (a : A) → f ≡ ready t a → time ≤ t))
    ⊎ ((t : ℕ) × (a : A) × (f ≡ ready t a) × (r ≡ ready t (some a)) × (t ≤ time))

pub timeout-Races {ℓ} :
    {A : Type ℓ} (tie : Bool) (f : Future A) (time : ℕ) → Races f time (timeout tie f time)
unfolding timeout until
timeout-Races tie never time = inl (refl, λ t a e. cc)
timeout-Races true (ready t a) time = elim (Bool-cases (ltb t time)) [
  | inl before ↦ rw before (inr (t, a, refl, refl, ground arith))
  | inr not_before ↦ elim (Bool-cases (ltb time t)) [
    | inl late ↦ rw (not_before, late) (inl (refl, λ u b e. ground arith))
    | inr not_late ↦ rw (not_before, not_late) (inr (t, a, refl, refl, ground arith))
  ]
]
timeout-Races false (ready t a) time = elim (Bool-cases (ltb t time)) [
  | inl before ↦ rw before (inr (t, a, refl, refl, ground arith))
  | inr not_before ↦ elim (Bool-cases (ltb time t)) [
    | inl late ↦ rw (not_before, late) (inl (refl, λ u b e. ground arith))
    | inr not_late ↦
        let same : t ≡ time = ground arith in
        rw (not_before, not_late) (inl (ap (λ u. ready u none) same, λ u b e. ground arith))
  ]
]
