-- ===== src/Receive/Sets/Laws.antt =====
-- Laws of the sets and maps of the strategy.
use mathlib.Core.Path.{subst}
use faf_rust_replayserver.Base.{
  ℕ, zero, suc, ◌+◌, ◌<◌, ◌≤◌, ◌≡◌, refl, sym, true, false, ◌&&◌, ◌||◌, List, [], ◌∷◌, ◌++◌, ◌==◌,
  if◌then◌else◌, arith, All, length, length-append, All-append, take, drop, Bool-cases, inl, inr,
  ==_iff,
}
use faf_rust_replayserver.Receive.Sets.{
  contains, insert, remove, extend, Entries, push_entry, contains_entry, Distinct,
}

pub contains-remove :
    (a b : ℕ) (xs : List ℕ) → contains (remove a xs) b ≡ (if a == b then false else contains xs b)
unfolding contains remove
contains-remove a b [] = ground arith
contains-remove a b (x ∷ xs) = ground (arith, contains-remove a b xs)

pub contains-append :
    (xs ys : List ℕ) (b : ℕ) → contains (xs ++ ys) b ≡ (contains xs b || contains ys b)
unfolding contains
contains-append [] ys b = refl
contains-append (x ∷ xs) ys b = ground (arith, contains-append xs ys b)

pub contains-insert :
    (a b : ℕ) (xs : List ℕ) → contains (insert a xs) b ≡ (if a == b then true else contains xs b)
unfolding contains insert
contains-insert a b xs = ground (arith, contains-append xs (a ∷ []) b)

pub contains-extend :
    (xs ys : List ℕ) (b : ℕ) → contains (extend xs ys) b ≡ (contains xs b || contains ys b)
unfolding contains extend
contains-extend xs [] b = ground arith
contains-extend xs (y ∷ ys) b =
    ground (arith, contains-extend (insert y xs) ys b, contains-insert y b xs)

Distinct-concat :
    (xs : List ℕ) (a : ℕ) → Distinct xs → contains xs a ≡ false → Distinct (xs ++ a ∷ [])
unfolding contains
Distinct-concat [] a d new = (refl, tt)
Distinct-concat (x ∷ xs) a d new =
    (ground (arith, contains-append xs (a ∷ []) x), Distinct-concat xs a d.1 (ground arith))

pub Distinct-insert : (a : ℕ) (xs : List ℕ) → Distinct xs → Distinct (insert a xs)
unfolding insert
Distinct-insert a xs d = elim (Bool-cases (contains xs a)) [
  | inl old ↦ rw old d
  | inr new ↦ rw new (Distinct-concat xs a d new)
]

pub Distinct-remove : (a : ℕ) (xs : List ℕ) → Distinct xs → Distinct (remove a xs)
unfolding remove
Distinct-remove a [] d = tt
Distinct-remove a (x ∷ xs) d = elim (Bool-cases (x == a)) [
  | inl hit ↦ rw hit (Distinct-remove a xs d.1)
  | inr miss ↦ rw miss (ground (arith, contains-remove a x xs), Distinct-remove a xs d.1)
]

pub Distinct-extend : (xs ys : List ℕ) → Distinct xs → Distinct (extend xs ys)
unfolding extend
Distinct-extend xs [] d = d
Distinct-extend xs (y ∷ ys) d = Distinct-extend (insert y xs) ys (Distinct-insert y xs d)

pub contains_entry-push :
    (b id k j : ℕ) (m : Entries)
    → contains_entry k j (push_entry b id m)
      ≡ (if b == k && id == j then true else contains_entry k j m)
unfolding contains contains_entry push_entry
contains_entry-push b id k j [] = ground arith
contains_entry-push b id k j ((i, ids) ∷ m) =
    ground (arith, contains_entry-push b id k j m, contains-append ids (id ∷ []) j)

-- A property of the entries, which a new member of an entry has.
pub All-push_entry {ℓ} :
    (P : ℕ → ℕ → Type ℓ) (b id : ℕ) (m : Entries)
    → P b id
    → All (λ e. (0 < length e.1) × All (P e.0) e.1) m
    → All (λ e. (0 < length e.1) × All (P e.0) e.1) (push_entry b id m)
unfolding push_entry
All-push_entry P b id [] p a = ((omega arith, (p, tt)), tt)
All-push_entry P b id ((k, ids) ∷ m) p a = elim (Bool-cases (k == b)) [
  | inl hit ↦
      let e : b ≡ k = sym ((==_iff k b).0 hit) in
      rw hit (
        (
          omega (arith, length-append ids (id ∷ [])),
          All-append (P k) ids (id ∷ []) a.0.1 (subst (λ x. P x id) e p, tt),
        ),
        a.1,
      )
  | inr miss ↦ rw miss (a.0, All-push_entry P b id m p a.1)
]

pub All-map {ℓ κ μ} :
    {A : Type ℓ} (P : A → Type κ) (Q : A → Type μ) (xs : List A)
    → ((a : A) → P a → Q a)
    → All P xs
    → All Q xs
All-map P Q [] f a = tt
All-map P Q (x ∷ xs) f a = (f x a.0, All-map P Q xs f a.1)

-- A property of all the elements of a set.
pub each_contained {ℓ} :
    (P : ℕ → Type ℓ) (xs : List ℕ) → ((a : ℕ) → contains xs a ≡ true → P a) → All P xs
unfolding contains
each_contained P [] f = tt
each_contained P (x ∷ xs) f =
    (f x (ground (arith)), each_contained P xs (λ a h. f a (ground arith)))

pub contains-All {ℓ} :
    (P : ℕ → Type ℓ) (xs : List ℕ) (a : ℕ) → All P xs → contains xs a ≡ true → P a
unfolding contains
contains-All P [] a all h = absurd (ground arith)
contains-All P (x ∷ xs) a all h = elim (Bool-cases (x == a)) [
  | inl hit ↦ let e : x ≡ a = (==_iff x a).0 hit in subst P e all.0
  | inr miss ↦ contains-All P xs a all.1 (ground arith)
]

pub contains-take-drop :
    (n : ℕ) (xs : List ℕ) (a : ℕ)
    → (contains (drop n xs) a || contains (take n xs) a) ≡ contains xs a
unfolding contains take drop
contains-take-drop zero xs a = ground arith
contains-take-drop (suc n) [] a = refl
contains-take-drop (suc n) (x ∷ xs) a = ground (arith, contains-take-drop n xs a)

length-insert_pos : (a : ℕ) (xs : List ℕ) → 0 < length (insert a xs)
unfolding insert contains
length-insert_pos a [] = omega arith
length-insert_pos a (x ∷ xs) = ground (arith, length-append xs (a ∷ []))

length-insert-le : (a : ℕ) (xs : List ℕ) → length (insert a xs) ≤ length xs + 1
unfolding insert
length-insert-le a xs = ground (arith, length-append xs (a ∷ []))

-- An element of a list that is not empty.
pub length-extend_pos : (xs ys : List ℕ) → 0 < length ys → 0 < length (extend xs ys)
unfolding extend
length-extend_pos xs [] h = absurd (omega arith)
length-extend_pos xs (y ∷ []) h = length-insert_pos y xs
length-extend_pos xs (y ∷ z ∷ ys) h = length-extend_pos (insert y xs) (z ∷ ys) (omega arith)

pub length-extend-le : (xs ys : List ℕ) → length (extend xs ys) ≤ length xs + length ys
unfolding extend
length-extend-le xs [] = omega arith
length-extend-le xs (y ∷ ys) =
    omega (arith, length-extend-le (insert y xs) ys, length-insert-le y xs)
