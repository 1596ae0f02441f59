-- ===== src/Server/Connection/Laws.antt =====
-- The gauge of active connections, over the lives of connections.
use faf_rust_replayserver.Base.{
  Bytes, ℕ, ◌+◌, ◌-◌, ◌≤◌, Bool, true, ◌≡◌, refl, ap, ◌∙◌, inl, inr, List, [], ◌∷◌, ◌++◌, arith,
  some, leb, if◌then◌else◌, bind-eq-some, All, Bool-cases,
}
use faf_rust_replayserver.Server.Assign.{ConnectionHeader}
use faf_rust_replayserver.Server.Connection.{
  Incoming, Connection, Category, initial, reading, writing, same_category, Gauges, header2label,
  set_gauge, set_metric, reset_metric, new_from, set_header, drop_connection,
}

abbrev pub counted : Bool → ℕ
counted b = if b then 1 else 0

-- How many connections have a label.
abbrev pub count : Category → List Connection → ℕ
count l [] = 0
count l (c ∷ cs) = counted (same_category (header2label c.header) l) + count l cs

count-append :
    (l : Category) (xs ys : List Connection) → count l (xs ++ ys) ≡ count l xs + count l ys
count-append l [] ys = omega arith
count-append l (x ∷ xs) ys = omega (arith, count-append l xs ys)

-- The gauges and the connections that are alive: one opens, is told its header, or is dropped.
pub data Reach : Gauges → List Connection → Type 0 where
  start : Reach (λ l. 0) []
  opens :
      {g : Gauges} {live : List Connection}
      → Reach g live
      → (stream : Incoming) (letters : Bytes)
      → Reach (new_from g stream letters).1 ((new_from g stream letters).0 ∷ live)
  names :
      {g : Gauges} (before : List Connection) (c : Connection) (after : List Connection)
      → Reach g (before ++ c ∷ after)
      → (header : ConnectionHeader) (c' : Connection) (g' : Gauges)
      → set_header g c header ≡ some (c', g')
      → Reach g' (before ++ c' ∷ after)
  drops :
      {g : Gauges} (before : List Connection) (c : Connection) (after : List Connection)
      → Reach g (before ++ c ∷ after)
      → (g' : Gauges) → drop_connection g c ≡ some g'
      → Reach g' (before ++ after)

abbrev pub Counts : Gauges → List Connection → Type 0
Counts g live = (l : Category) → g l ≡ count l live

-- A connection adds one to its own label, and nothing to the others.
set_metric-count :
    (g : Gauges) (c : Connection) (l : Category)
    → set_metric g c l ≡ g l + counted (same_category (header2label c.header) l)
unfolding set_metric
set_metric-count g c l = by_label (header2label c.header) l
  where
    by_label : (k l : Category) → set_gauge g k (g k + 1) l ≡ g l + counted (same_category k l)
    by_label initial initial = refl
    by_label initial reading = omega arith
    by_label initial writing = omega arith
    by_label reading initial = omega arith
    by_label reading reading = refl
    by_label reading writing = omega arith
    by_label writing initial = omega arith
    by_label writing reading = omega arith
    by_label writing writing = refl

-- The gauge that is lowered was not 0.
reset_metric-some :
    (g g' : Gauges) (c : Connection)
    → reset_metric g c ≡ some g'
    → let k = header2label c.header in (1 ≤ g k) × (set_gauge g k (g k - 1) ≡ g')
unfolding reset_metric
reset_metric-some g g' c h = elim (Bool-cases (leb 1 (g (header2label c.header)))) [
  | inl alive ↦ (ground arith, cc (h, alive))
  | inr none_alive ↦ absurd (cc (h, none_alive))
]

reset_metric-count :
    (g g' : Gauges) (c : Connection) (l : Category)
    → reset_metric g c ≡ some g'
    → g l ≡ g' l + counted (same_category (header2label c.header) l)
reset_metric-count g g' c l h =
    let (pos, e) = reset_metric-some g g' c h in
    by_label (header2label c.header) l pos
    ∙ ap (λ f. f l + counted (same_category (header2label c.header) l)) e
  where
    by_label :
        (k l : Category) → 1 ≤ g k → g l ≡ set_gauge g k (g k - 1) l + counted (same_category k l)
    by_label initial initial pos = omega arith
    by_label initial reading pos = omega arith
    by_label initial writing pos = omega arith
    by_label reading initial pos = omega arith
    by_label reading reading pos = omega arith
    by_label reading writing pos = omega arith
    by_label writing initial pos = omega arith
    by_label writing reading pos = omega arith
    by_label writing writing pos = omega arith

set_header-count :
    (g g' : Gauges) (c c' : Connection) (header : ConnectionHeader) (l : Category)
    → set_header g c header ≡ some (c', g')
    → g l + counted (same_category (header2label c'.header) l)
      ≡ g' l + counted (same_category (header2label c.header) l)
unfolding set_header
set_header-count g g' c c' header l h =
    let c₁ : Connection = record c { header = some header } in
    let (g'', e, f) = bind-eq-some (reset_metric g c) (λ x. some (c₁, set_metric x c₁)) h in
    let same : c₁ ≡ c' = cc f in
    let gauges : set_metric g'' c₁ ≡ g' = cc f in
    omega (
      arith,
      reset_metric-count g g'' c l e,
      set_metric-count g'' c₁ l,
      ap (λ k. k l) gauges,
      ap (λ k. counted (same_category (header2label (Connection.header k)) l)) same,
    )

Reach-Counts : {g : Gauges} {live : List Connection} → Reach g live → Counts g live
unfolding new_from drop_connection
Reach-Counts start l = refl
Reach-Counts (opens {g} {live} r stream letters) l =
    let c = (new_from g stream letters).0 in omega (arith, set_metric-count g c l, Reach-Counts r l)
Reach-Counts (names {g} before c after r header c' g' h) l = omega (
  arith,
  Reach-Counts r l,
  set_header-count g g' c c' header l h,
  count-append l before (c ∷ after),
  count-append l before (c' ∷ after),
)
Reach-Counts (drops {g} before c after r g' h) l = omega (
  arith,
  Reach-Counts r l,
  reset_metric-count g g' c l h,
  count-append l before (c ∷ after),
  count-append l before after,
)

-- The connection can be dropped, and can be told its header.
abbrev pub Held : Gauges → Connection → Type 0
Held g c =
    ((g' : Gauges) × (drop_connection g c ≡ some g'))
    × ((header : ConnectionHeader) → (r : Connection × Gauges) × (set_header g c header ≡ some r))

abbrev pub Metered : Gauges → List Connection → Type 0
Metered g live = Counts g live × All (Held g) live

positive-Held : (g : Gauges) (c : Connection) → 1 ≤ g (header2label c.header) → Held g c
unfolding drop_connection set_header reset_metric
positive-Held g c pos =
    let alive : leb 1 (g (header2label c.header)) ≡ true = ground arith in
    let k = header2label c.header in
    let lowered = set_gauge g k (g k - 1) in
    (
      (lowered, rw alive refl),
      λ header.
          let c' : Connection = record c { header = some header } in
          ((c', set_metric lowered c'), rw alive refl),
    )

counted_self : (k : Category) → counted (same_category k k) ≡ 1
counted_self initial = refl
counted_self reading = refl
counted_self writing = refl

all_Held :
    (g : Gauges) (live : List Connection)
    → ((l : Category) → count l live ≤ g l)
    → All (Held g) live
all_Held g [] enough = tt
all_Held g (c ∷ cs) enough =
    let k = header2label c.header in
    (
      positive-Held g c (omega (arith, enough k, counted_self k)),
      all_Held g cs (λ l. omega (arith, enough l)),
    )

-- However connections open, are told their headers and are dropped, each gauge of active
-- connections is the number of living connections with its label, and no gauge goes below 0: a
-- living connection can be told a header and can be dropped.
pub active_connections-Metered :
    (g : Gauges) (live : List Connection) → Reach g live → Metered g live
active_connections-Metered g live r =
    (Reach-Counts r, all_Held g live (λ l. omega (arith, Reach-Counts r l)))
