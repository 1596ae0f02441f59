-- ===== src/Receive/Strategy/Best.antt =====
-- The best of the candidate bytes, and the entries that lose to it.
use mathlib.Core.Path.{subst}
use faf_rust_replayserver.Base.{
  ℕ, ◌<◌, ◌≡◌, refl, ap, ◌∙◌, inl, inr, max, Bool, false, List, [], ◌∷◌, Option, some, none, arith,
  length, All, ◌==◌, ==_iff, if◌then◌else◌, Bool-cases,
}
use faf_rust_replayserver.Streams.WriterReplay
use faf_rust_replayserver.Receive.Sets.{contains, Entries, get_entry, remove_entry, contains_entry}
use faf_rust_replayserver.Receive.State.{ReplayState, SharedState}
use faf_rust_replayserver.Receive.Strategy.{longest, Rank, rank_lt, best_rank}

abbrev Found : SharedState → List ℕ → Type 0
Found s = All (λ id. (rs : ReplayState) × (s.replays id ≡ some rs))

longest_total :
    (s : SharedState) (ids : List ℕ)
    → 0 < length ids
    → Found s ids
    → (reach : ℕ) × (longest s ids ≡ some reach)
unfolding longest
longest_total s [] pos f = absurd (omega arith)
longest_total s (id ∷ []) pos ((rs, got), f) = (WriterReplay.data_len rs.r, rw got)
longest_total s (id ∷ j ∷ ids) pos ((rs, got), f) =
    let (reach, run) = longest_total s (j ∷ ids) (omega arith) f in
    (max (WriterReplay.data_len rs.r) reach, rw (got, run))

-- A property of every entry.
abbrev Entry : (ℕ → List ℕ → Type 0) → Entries → Type 0
Entry P = All (λ e. P e.0 e.1)

-- The entry of a byte that has one.
abbrev pub Has : (ℕ → List ℕ → Type 0) → ℕ → Entries → Type 0
Has P byte m = (ids : List ℕ) × (get_entry byte m ≡ some ids) × P byte ids

Has-head :
    (P : ℕ → List ℕ → Type 0) (byte : ℕ) (ids : List ℕ) (m : Entries)
    → P byte ids
    → Has P byte ((byte, ids) ∷ m)
unfolding get_entry
Has-head P byte ids m p = (ids, ground arith, p)

Has-tail :
    (P : ℕ → List ℕ → Type 0) (byte k : ℕ) (ids : List ℕ) (m : Entries)
    → P k ids
    → Has P byte m
    → Has P byte ((k, ids) ∷ m)
unfolding get_entry
Has-tail P byte k ids m p (js, got, q) = elim (Bool-cases (k == byte)) [
  | inl same ↦ let e : k ≡ byte = (==_iff k byte).0 same in (ids, rw same, subst (λ b. P b ids) e p)
  | inr other ↦ (js, rw (other, got), q)
]

-- The best of the entries has the property of all.
abbrev pub Best : (ℕ → List ℕ → Type 0) → Entries → Option Rank → Type 0
Best P m o = (best : Rank) × (o ≡ some best) × Has P best.byte m

better :
    (P : ℕ → List ℕ → Type 0) (m : Entries) (a b : Rank)
    → Has P a.byte m
    → Has P b.byte m
    → Best P m (some (if rank_lt b a then a else b))
better P m a b p q = elim (Bool-cases (rank_lt b a)) [
  | inl lt ↦ rw lt (a, refl, p)
  | inr ge ↦ rw ge (b, refl, q)
]

pub best_rank-Best :
    (P : ℕ → List ℕ → Type 0) (s : SharedState) (m : Entries)
    → 0 < length m
    → Entry (λ byte ids. (0 < length ids) × Found s ids) m
    → Entry P m
    → Best P m (best_rank s m)
unfolding best_rank
best_rank-Best P s [] pos f a = absurd (omega arith)
best_rank-Best P s ((byte, ids) ∷ []) pos f a =
    let (reach, run) = longest_total s ids f.0.0 f.0.1 in
    (record { count = length ids; reach = reach; byte = byte }, rw run, Has-head P byte ids [] a.0)
best_rank-Best P s ((byte, ids) ∷ e ∷ m) pos f a =
    let (reach, run) = longest_total s ids f.0.0 f.0.1 in
    let (rest, run', h) = best_rank-Best P s (e ∷ m) (omega arith) f.1 a.1 in
    let (best, run'', h') =
      better P ((byte, ids) ∷ e ∷ m) (record { count = length ids; reach = reach; byte = byte })
        rest (Has-head P byte ids (e ∷ m) a.0) (Has-tail P rest.byte byte ids (e ∷ m) a.0 h) in
    (best, rw (run, run', run''), h')

abbrev in_entry : ℕ → Option (List ℕ) → Bool
in_entry id none = false
in_entry id (some ids) = contains ids id

contains_entry_lem :
    (byte id : ℕ) (m : Entries) → contains_entry byte id m ≡ in_entry id (get_entry byte m)
unfolding get_entry contains_entry
contains_entry_lem byte id [] = refl
contains_entry_lem byte id ((k, js) ∷ m) = elim (Bool-cases (k == byte)) [
  | inl same ↦ rw same refl
  | inr other ↦ rw other (contains_entry_lem byte id m)
]

pub contains_entry-get_entry :
    (byte id : ℕ) (m : Entries) (ids : List ℕ)
    → get_entry byte m ≡ some ids
    → contains_entry byte id m ≡ contains ids id
contains_entry-get_entry byte id m ids e = contains_entry_lem byte id m ∙ ap (in_entry id) e

-- What `remove_entry` leaves has another byte.
pub remove_entry-Others :
    (P : ℕ → List ℕ → Type 0) (byte : ℕ) (m : Entries)
    → Entry P m
    → Entry (λ k ids. ((k == byte) ≡ false) × P k ids) (remove_entry byte m)
unfolding remove_entry
remove_entry-Others P byte [] a = tt
remove_entry-Others P byte ((k, ids) ∷ m) a = elim (Bool-cases (k == byte)) [
  | inl same ↦ rw same (remove_entry-Others P byte m a.1)
  | inr other ↦ rw other ((other, a.0), remove_entry-Others P byte m a.1)
]
