-- ===== src/Server/Assign/Laws.antt =====
-- What holds of the assignments, the log and the counts of a history together.
use faf_rust_replayserver.Base.{
  ℕ, zero, suc, ◌+◌, ◌≡◌, refl, ap, ap₂, ◌∙◌, ◌⊎◌, inl, inr, List, [], ◌∷◌, ◌++◌, none, some, arith,
  ◌==◌, ==_iff, All, All-append, Bool-cases,
}
use faf_rust_replayserver.Server.Assign.{
  ConnectionType, reader, writer, Connection, Replay, Assignment, connection, new_replay, Replays,
  build, assign_new, assign_to, assign_connection_to_replay, connection_handled, expire, Happening,
  arrives, handled, expires, assign_all,
}
use faf_rust_replayserver.Server.Errors.{ConnResult}
use faf_rust_replayserver.Server.Assign.Log.{Follows, assign_all-Follows}
use faf_rust_replayserver.Server.Assign.Counts.{arrived, results, Counted, assign_all-Counted}

-- A replay of the map has the id that it is found under.
abbrev pub Named : Replays → Type 0
Named me =
    (id : ℕ) → (me.replays id ≡ none) ⊎ ((r : Replay) × (me.replays id ≡ some r) × (r.rid ≡ id))

-- The replay is that of the id that the connection asked for.
abbrev pub Fits : Assignment → Type 0
Fits (connection c r) = r.rid ≡ c.header.id
Fits (new_replay r) = Unit

-- The numbers of the replays that are started.
abbrev pub started : List Assignment → List ℕ
started [] = []
started (connection c r ∷ as') = started as'
started (new_replay r ∷ as') = r.number ∷ started as'

abbrev pub count_from : ℕ → ℕ → List ℕ
count_from start zero = []
count_from start (suc n) = start ∷ count_from (start + 1) n

-- The replays that are built are started once each, in the order in which they are built.
pub record Assigned (me : Replays) (as' : List Assignment) (me' : Replays) : Type 0 where
  pub named : Named me'
  pub fits : All Fits as'
  pub count : ℕ
  pub built : me'.built ≡ me.built + count
  pub once : started as' ≡ count_from me.built count

started-append : (xs ys : List Assignment) → started (xs ++ ys) ≡ started xs ++ started ys
started-append [] ys = refl
started-append (connection c r ∷ xs) ys = started-append xs ys
started-append (new_replay r ∷ xs) ys = ap (◌∷◌ r.number) (started-append xs ys)

count_from-add :
    (start n k : ℕ) → count_from start n ++ count_from (start + n) k ≡ count_from start (n + k)
count_from-add start zero k =
    ap₂ count_from {x = start + 0} {y = start} {u = k} {v = 0 + k} (omega arith) (omega arith)
count_from-add start (suc n) k =
    ap (◌∷◌ start) (
      ap (λ s. count_from (start + 1) n ++ count_from s k) {x = start + suc n} {y = start + 1 + n}
        (omega arith)
      ∙ count_from-add (start + 1) n k)
    ∙ ap (count_from start) {x = suc (n + k)} {y = suc n + k} (omega arith)

Assigned-append :
    (me me' me'' : Replays) (xs ys : List Assignment)
    → Assigned me xs me'
    → Assigned me' ys me''
    → Assigned me (xs ++ ys) me''
Assigned-append me me' me'' xs ys a b = record {
  named = b.named;
  fits = All-append Fits xs ys a.fits b.fits;
  count = a.count + b.count;
  built = omega (arith, a.built, b.built);
  once =
      started-append xs ys
      ∙ ap (λ t. t ++ started ys) a.once
      ∙ ap (λ t. count_from me.built a.count ++ t) (b.once ∙ ap (λ s. count_from s b.count) a.built)
      ∙ count_from-add me.built a.count b.count;
}

unchanged : (me : Replays) → Named me → Assigned me [] me
unchanged me v = record { named = v; fits = tt; count = 0; built = omega arith; once = refl }

build-Named : (me : Replays) (id : ℕ) → Named me → Named (build me id).1
unfolding build
build-Named me id v j = elim (Bool-cases (id == j)) [
  | inl same ↦ rw same (inr (record { rid = id; number = me.built }, refl, (==_iff id j).0 same))
  | inr other ↦ rw other (v j)
]

assign_new-Assigned :
    (me : Replays) (c : Connection) (t : ConnectionType)
    → Named me
    → Assigned me (assign_new me c t).0 (assign_new me c t).1
unfolding assign_new build
assign_new-Assigned me c reader v = record {
  named = v;
  fits = tt;
  count = 0;
  built = omega arith;
  once = refl;
}
assign_new-Assigned me c writer v = record {
  named = unfold build in build-Named me c.header.id v;
  fits = (tt, (refl, tt));
  count = 1;
  built = refl;
  once = refl;
}

assign-Assigned :
    (me : Replays) (c : Connection)
    → Named me
    → Assigned me (assign_connection_to_replay me c).0 (assign_connection_to_replay me c).1
unfolding assign_connection_to_replay assign_to
assign-Assigned me c v = by_entry (v c.header.id)
  where
    by_entry :
        (me.replays c.header.id ≡ none)
          ⊎ ((r : Replay) × (me.replays c.header.id ≡ some r) × (r.rid ≡ c.header.id))
        → Assigned me
            (assign_to me c (me.replays c.header.id)).0
            (assign_to me c (me.replays c.header.id)).1
    by_entry (inl e) = rw e (assign_new-Assigned me c c.header.type_ v)
    by_entry (inr (r, e, f)) =
        rw e (record { named = v; fits = (f, tt); count = 0; built = omega arith; once = refl })

expire-Named : (me : Replays) (id : ℕ) → Named me → Named (expire me id)
unfolding expire
expire-Named me id v j = elim (Bool-cases (id == j)) [
  | inl same ↦ rw same (inl refl)
  | inr other ↦ rw other (v j)
]

expired :
    (me : Replays) (id : ℕ) (as' : List Assignment) (me' : Replays)
    → Assigned (expire me id) as' me'
    → Assigned me as' me'
unfolding expire
expired me id as' me' a = record {
  named = a.named;
  fits = a.fits;
  count = a.count;
  built = a.built;
  once = a.once;
}

handled-Assigned :
    (me : Replays) (res : ConnResult {0} Unit) (as' : List Assignment) (me' : Replays)
    → Assigned (connection_handled me res) as' me'
    → Assigned me as' me'
unfolding connection_handled
handled-Assigned me res as' me' a = record {
  named = a.named;
  fits = a.fits;
  count = a.count;
  built = a.built;
  once = a.once;
}

assigns :
    (me : Replays) (hs : List Happening)
    → Named me
    → Assigned me (assign_all me hs).0 (assign_all me hs).1
unfolding assign_all connection_handled
assigns me [] v = unchanged me v
assigns me (arrives c ∷ hs) v =
    let first = assign-Assigned me c v in
    Assigned-append me _ _ _ _ first (assigns (assign_connection_to_replay me c).1 hs first.named)
assigns me (handled res ∷ hs) v =
    handled-Assigned me res _ _ (assigns (connection_handled me res) hs v)
assigns me (expires id ∷ hs) v =
    expired me id _ _ (assigns (expire me id) hs (expire-Named me id v))

-- From a map whose replays have the ids they are found under, for any connections that arrive,
-- results of handled connections that come and entries that expire, in any order, every connection
-- goes to the replay of its id that runs, which is the last that began unless it expired since;
-- without one, a writer begins a new replay with its id and goes to it, and a reader is refused.
-- Every replay that is built is started exactly once, in the order of building, and the map stays
-- such a map. Every connection that arrives is either assigned, or counted once as one that no
-- replay matched; each result is counted once under its label, and nothing else is counted.
pub assign_all-Assigned :
    (me : Replays) (hs : List Happening)
    → Named me
    → Assigned me (assign_all me hs).0 (assign_all me hs).1
      × Follows me.replays [] me.built hs (assign_all me hs).0
      × Counted me (arrived hs) (λ l. results l hs) (assign_all me hs).0 (assign_all me hs).1
assign_all-Assigned me hs v = (assigns me hs v, assign_all-Follows me hs, assign_all-Counted me hs)
