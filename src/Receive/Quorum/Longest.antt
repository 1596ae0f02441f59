-- ===== src/Receive/Quorum/Longest.antt =====
-- `longest_first`: sorting, reversing, and the order of lengths.
use mathlib.Core.List.{reverse, reverse-cons}
use mathlib.Core.Path.{subst}
use faf_rust_replayserver.Base.{
  ℕ, zero, suc, ◌≤◌, ◌≡◌, refl, sym, ap, ◌∙◌, true, List, [], ◌∷◌, ◌++◌, Option, some, arith,
  length, length-append, take, drop, All, All-append, All-drop, leb, leb→le, leb→gt, ◌==◌, ==_iff,
  Bool-cases, inl, inr,
}
use faf_rust_replayserver.Streams.WriterReplay
use faf_rust_replayserver.Receive.Sets.{contains}
use faf_rust_replayserver.Receive.Sets.Laws.{contains-append, contains-All, All-map}
use faf_rust_replayserver.Receive.State.{ReplayState, SharedState}
use faf_rust_replayserver.Receive.Quorum.{insert_sorted, sort, longest_first}
use faf_rust_replayserver.Receive.Quorum.Keys.{ids_of, KeyOf, keyed-Keys}

-- Sorting and reversing keep the replays.
abbrev SameIds : List (ℕ × ℕ) → List (ℕ × ℕ) → Type 0
SameIds xs ys =
    (length xs ≡ length ys) × ((id : ℕ) → contains (ids_of xs) id ≡ contains (ids_of ys) id)

SameIds-insert : (x : ℕ × ℕ) (xs : List (ℕ × ℕ)) → SameIds (insert_sorted x xs) (x ∷ xs)
unfolding insert_sorted contains
SameIds-insert x [] = (refl, λ id. refl)
SameIds-insert x (y ∷ ys) = elim (Bool-cases (leb x.0 y.0)) [
  | inl le ↦ rw le (refl, λ id. refl)
  | inr gt ↦
      let (len, same) = SameIds-insert x ys in
      rw gt (omega (arith, len), λ id. ground (arith, same id))
]

SameIds-sort : (xs : List (ℕ × ℕ)) → SameIds (sort xs) xs
unfolding sort contains
SameIds-sort [] = (refl, λ id. refl)
SameIds-sort (x ∷ xs) =
    let (len, same) = SameIds-sort xs in
    let (len', same') = SameIds-insert x (sort xs) in
    (omega (arith, len, len'), λ id. ground (arith, same id, same' id))

ids_of-append : (xs ys : List (ℕ × ℕ)) → ids_of (xs ++ ys) ≡ ids_of xs ++ ids_of ys
ids_of-append [] ys = refl
ids_of-append (x ∷ xs) ys = ap (◌∷◌ x.1) (ids_of-append xs ys)

SameIds-reverse : (xs : List (ℕ × ℕ)) → SameIds (reverse xs) xs
unfolding contains
SameIds-reverse [] = (refl, λ id. refl)
SameIds-reverse (x ∷ xs) =
    let (len, same) = SameIds-reverse xs in
    (
      ap length (reverse-cons x xs) ∙ length-append (reverse xs) (x ∷ []) ∙ omega (arith, len),
      λ id.
          ap (λ t. contains (ids_of t) id) (reverse-cons x xs)
          ∙ ap (λ t. contains t id) (ids_of-append (reverse xs) (x ∷ []))
          ∙ contains-append (ids_of (reverse xs)) (x.1 ∷ []) id
          ∙ ground (arith, same id),
    )

length-ids_of : (xs : List (ℕ × ℕ)) → length (ids_of xs) ≡ length xs
length-ids_of [] = refl
length-ids_of (x ∷ xs) = ap suc (length-ids_of xs)

-- Sorting and reversing keep what holds of each pair, and order the keys.
All-insert :
    (P : ℕ × ℕ → Type 0) (x : ℕ × ℕ) (xs : List (ℕ × ℕ))
    → P x
    → All P xs
    → All P (insert_sorted x xs)
unfolding insert_sorted
All-insert P x [] p a = (p, tt)
All-insert P x (y ∷ ys) p a = elim (Bool-cases (leb x.0 y.0)) [
  | inl le ↦ rw le (p, a)
  | inr gt ↦ rw gt (a.0, All-insert P x ys p a.1)
]

All-sort : (P : ℕ × ℕ → Type 0) (xs : List (ℕ × ℕ)) → All P xs → All P (sort xs)
unfolding sort
All-sort P [] a = tt
All-sort P (x ∷ xs) a = All-insert P x (sort xs) a.0 (All-sort P xs a.1)

All-reverse : (P : ℕ × ℕ → Type 0) (xs : List (ℕ × ℕ)) → All P xs → All P (reverse xs)
All-reverse P [] a = tt
All-reverse P (x ∷ xs) a =
    subst (All P) (sym (reverse-cons x xs))
      (All-append P (reverse xs) (x ∷ []) (All-reverse P xs a.1) (a.0, tt))

abbrev Rising : List (ℕ × ℕ) → Type 0
Rising [] = Unit
Rising (x ∷ xs) = All (λ p. x.0 ≤ p.0) xs × Rising xs

abbrev Sinking : List (ℕ × ℕ) → Type 0
Sinking [] = Unit
Sinking (x ∷ xs) = All (λ p. p.0 ≤ x.0) xs × Sinking xs

Rising-insert : (x : ℕ × ℕ) (xs : List (ℕ × ℕ)) → Rising xs → Rising (insert_sorted x xs)
unfolding insert_sorted
Rising-insert x [] r = (tt, tt)
Rising-insert x (y ∷ ys) r = elim (Bool-cases (leb x.0 y.0)) [
  | inl le ↦ rw le ((leb→le _ _ le, All-map _ _ ys (λ p q. omega (arith, q, leb→le _ _ le)) r.0), r)
  | inr gt ↦ rw gt (All-insert _ x ys (omega (arith, leb→gt _ _ gt)) r.0, Rising-insert x ys r.1)
]

sort-Rising : (xs : List (ℕ × ℕ)) → Rising (sort xs)
unfolding sort
sort-Rising [] = tt
sort-Rising (x ∷ xs) = Rising-insert x (sort xs) (sort-Rising xs)

Sinking-append :
    (xs : List (ℕ × ℕ)) (x : ℕ × ℕ) → Sinking xs → All (λ p. x.0 ≤ p.0) xs → Sinking (xs ++ x ∷ [])
Sinking-append [] x d a = (tt, tt)
Sinking-append (y ∷ ys) x d a =
    (All-append _ ys (x ∷ []) d.0 (a.0, tt), Sinking-append ys x d.1 a.1)

reverse-Sinking : (xs : List (ℕ × ℕ)) → Rising xs → Sinking (reverse xs)
reverse-Sinking [] r = tt
reverse-Sinking (x ∷ xs) r =
    subst Sinking (sym (reverse-cons x xs))
      (Sinking-append (reverse xs) x (reverse-Sinking xs r.1) (All-reverse _ xs r.0))

-- Replays, the longest first.
abbrev pub Falling : (ℕ → ℕ) → List ℕ → Type 0
Falling len [] = Unit
Falling len (id ∷ ids) = All (λ j. len j ≤ len id) ids × Falling len ids

all_below :
    (len : ℕ → ℕ) (m : ℕ) (xs : List (ℕ × ℕ))
    → All (λ p. p.0 ≡ len p.1) xs
    → All (λ p. p.0 ≤ m) xs
    → All (λ j. len j ≤ m) (ids_of xs)
all_below len m [] e a = tt
all_below len m (x ∷ xs) e a = (omega (arith, e.0, a.0), all_below len m xs e.1 a.1)

Sinking-Falling :
    (len : ℕ → ℕ) (xs : List (ℕ × ℕ))
    → All (λ p. p.0 ≡ len p.1) xs
    → Sinking xs
    → Falling len (ids_of xs)
Sinking-Falling len [] e d = tt
Sinking-Falling len (x ∷ xs) e d = (
  all_below len (len x.1) xs e.1 (All-map _ _ xs (λ p q. omega (arith, q, e.0)) d.0),
  Sinking-Falling len xs e.1 d.1,
)

-- What is taken from the front is no shorter than what is left.
pub Falling-take-drop :
    (len : ℕ → ℕ) (n : ℕ) (ids : List ℕ) (id j : ℕ)
    → Falling len ids
    → contains (take n ids) id ≡ true
    → contains (drop n ids) j ≡ true
    → len j ≤ len id
unfolding contains take drop
Falling-take-drop len zero [] id j f e h = absurd (ground arith)
Falling-take-drop len (suc n) [] id j f e h = absurd (ground arith)
Falling-take-drop len zero (x ∷ xs) id j f e h = absurd (ground arith)
Falling-take-drop len (suc n) (x ∷ xs) id j f e h = elim (Bool-cases (x == id)) [
  | inl same ↦
      subst (λ k. len j ≤ len k) ((==_iff x id).0 same)
        (contains-All _ (drop n xs) j (All-drop _ n xs f.0) h)
  | inr other ↦ Falling-take-drop len n xs id j f.1 (ground arith) h
]

-- The good replays, the longest first.
abbrev pub Reorders : (ℕ → ℕ) → List ℕ → Option (List ℕ) → Type 0
Reorders len ids o =
    (sorted : List ℕ) × (o ≡ some sorted)
    × (length sorted ≡ length ids)
    × ((id : ℕ) → contains sorted id ≡ contains ids id)
    × Falling len sorted

lengths :
    (len : ℕ → ℕ) (s : SharedState) (ids : List ℕ) (pairs : List (ℕ × ℕ))
    → ids_of pairs ≡ ids
    → All (KeyOf WriterReplay.data_len s) pairs
    → All
        (λ id.
          (rs : ReplayState) × (s.replays id ≡ some rs) × (WriterReplay.data_len rs.r ≡ len id))
        (ids_of pairs)
    → All (λ p. p.0 ≡ len p.1) pairs
lengths len s ids [] e k a = tt
lengths len s ids (p ∷ pairs) e k a = (one k.0 a.0, lengths len s (ids_of pairs) pairs refl k.1 a.1)
  where
    one :
        KeyOf WriterReplay.data_len s p
        → ((rs : ReplayState) × (s.replays p.1 ≡ some rs) × (WriterReplay.data_len rs.r ≡ len p.1))
        → p.0 ≡ len p.1
    one (rs, got, at) (rs', got', at') = at ∙ ap (λ t. WriterReplay.data_len t.r) same ∙ at'
      where
        same : rs ≡ rs'
        same = cc

pub longest_first-Reorders :
    (len : ℕ → ℕ) (s : SharedState) (ids : List ℕ)
    → All
        (λ id.
          (rs : ReplayState) × (s.replays id ≡ some rs) × (WriterReplay.data_len rs.r ≡ len id))
        ids
    → Reorders len ids (longest_first s ids)
unfolding longest_first
longest_first-Reorders len s ids a =
    let (pairs, run, e, k) =
      keyed-Keys WriterReplay.data_len s ids (All-map _ _ ids (λ id q. (q.0, q.1)) a) in
    let (n, same) = SameIds-sort pairs in
    let (n', same') = SameIds-reverse (sort pairs) in
    let keys = lengths len s ids pairs e k (subst (All _) (sym e) a) in
    (
      ids_of (reverse (sort pairs)),
      rw run refl,
      length-ids_of (reverse (sort pairs)) ∙ n' ∙ n ∙ sym (length-ids_of pairs) ∙ ap length e,
      λ id. same' id ∙ same id ∙ ap (λ t. contains t id) e,
      Sinking-Falling len (reverse (sort pairs))
          (All-reverse _ (sort pairs) (All-sort _ pairs keys))
          (reverse-Sinking (sort pairs) (sort-Rising pairs)),
    )
