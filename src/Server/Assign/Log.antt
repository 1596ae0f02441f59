-- ===== src/Server/Assign/Log.antt =====
-- The assignments of connections to replays, against a log of the replays that began and were gone.
use faf_rust_replayserver.Base.{
  ℕ, ◌+◌, ◌≡◌, refl, sym, ap, ◌∙◌, List, [], ◌∷◌, ◌++◌, Option, none, some, ◌==◌, if◌then◌else◌,
}
use faf_rust_replayserver.Server.Errors.{ConnResult}
use faf_rust_replayserver.Server.Assign.{
  ConnectionType, reader, writer, Connection, Replay, Assignment, connection, new_replay, Replays,
  build, assign_new, assign_to, assign_connection_to_replay, connection_handled, expire, Happening,
  arrives, handled, expires, assign_all,
}

-- What happened to replays, the latest first.
pub data Entry : Type 0 where
  began : Replay → Entry
  gone : ℕ → Entry

-- The replay of an id that runs: the last one that began, unless it was gone since; before the log
-- there are those of `before`.
abbrev pub running : (ℕ → Option Replay) → List Entry → ℕ → Option Replay
running before [] id = before id
running before (began r ∷ log) id = if r.rid == id then some r else running before log id
running before (gone j ∷ log) id = if j == id then none else running before log id

-- The assignments of a history, by a log: a connection joins the replay of its id that runs; without
-- one, a writer begins the next replay, with its id, and joins it, and a reader is turned away.
pub data Follows (before : ℕ → Option Replay)
    : List Entry → ℕ → List Happening → List Assignment → Type 0 where
  nothing : (log : List Entry) (count : ℕ) → Follows before log count [] []
  joins :
      (log : List Entry) (count : ℕ) (c : Connection) (r : Replay) (hs : List Happening)
      (as' : List Assignment)
      → running before log c.header.id ≡ some r
      → Follows before log count hs as'
      → Follows before log count (arrives c ∷ hs) (connection c r ∷ as')
  begins :
      (log : List Entry) (count : ℕ) (c : Connection) (r : Replay) (hs : List Happening)
      (as' : List Assignment)
      → running before log c.header.id ≡ none
      → c.header.type_ ≡ writer
      → (r.rid ≡ c.header.id) × (r.number ≡ count)
      → Follows before (began r ∷ log) (count + 1) hs as'
      → Follows before log count (arrives c ∷ hs) (new_replay r ∷ connection c r ∷ as')
  turned_away :
      (log : List Entry) (count : ℕ) (c : Connection) (hs : List Happening) (as' : List Assignment)
      → running before log c.header.id ≡ none
      → c.header.type_ ≡ reader
      → Follows before log count hs as'
      → Follows before log count (arrives c ∷ hs) as'
  counts :
      (log : List Entry) (count : ℕ) (res : ConnResult {0} Unit) (hs : List Happening)
      (as' : List Assignment)
      → Follows before log count hs as'
      → Follows before log count (handled res ∷ hs) as'
  ends :
      (log : List Entry) (count : ℕ) (id : ℕ) (hs : List Happening) (as' : List Assignment)
      → Follows before (gone id ∷ log) count hs as'
      → Follows before log count (expires id ∷ hs) as'

-- The map is what the log says.
abbrev Logged : (ℕ → Option Replay) → List Entry → Replays → Type 0
Logged before log me = (id : ℕ) → me.replays id ≡ running before log id

module _ (before : ℕ → Option Replay) where
  -- The rest of a history, from a map that its log describes.
  abbrev Later : List Happening → Type 0
  Later hs =
      (log : List Entry) (me : Replays)
      → Logged before log me
      → Follows before log me.built hs (assign_all me hs).0

  new_then :
      (log : List Entry) (me : Replays) (c : Connection) (t : ConnectionType) (hs : List Happening)
      → Logged before log me
      → me.replays c.header.id ≡ none
      → c.header.type_ ≡ t
      → Later hs
      → Follows before log me.built
          (arrives c ∷ hs)
          ((assign_new me c t).0 ++ (assign_all (assign_new me c t).1 hs).0)
  unfolding assign_new build
  new_then log me c reader hs v e type_is later =
      turned_away log me.built c hs _ (sym (v c.header.id) ∙ e) type_is (later log _ v)
  new_then log me c writer hs v e type_is later =
      begins log me.built c (record { rid = c.header.id; number = me.built }) hs _
        (sym (v c.header.id) ∙ e) type_is (refl, refl)
        (later (began (record { rid = c.header.id; number = me.built }) ∷ log) _ λ j.
          ap
            (λ o.
              if c.header.id == j
              then some (record { rid = c.header.id; number = me.built })
              else o)
            (v j))

  to_then :
      (log : List Entry) (me : Replays) (c : Connection) (o : Option Replay) (hs : List Happening)
      → Logged before log me
      → me.replays c.header.id ≡ o
      → Later hs
      → Follows before log me.built
          (arrives c ∷ hs)
          ((assign_to me c o).0 ++ (assign_all (assign_to me c o).1 hs).0)
  unfolding assign_to
  to_then log me c none hs v e later = new_then log me c c.header.type_ hs v e refl later
  to_then log me c (some r) hs v e later =
      joins log me.built c r hs _ (sym (v c.header.id) ∙ e) (later log me v)

  follows : (hs : List Happening) → Later hs
  unfolding assign_all assign_connection_to_replay connection_handled expire
  follows [] log me v = nothing log me.built
  follows (arrives c ∷ hs) log me v =
      to_then log me c (me.replays c.header.id) hs v refl (follows hs)
  follows (handled res ∷ hs) log me v = counts log me.built res hs _ (follows hs log _ v)
  follows (expires id ∷ hs) log me v =
      ends log me.built id hs _
        (follows hs (gone id ∷ log) _ λ j. ap (λ o. if id == j then none else o) (v j))

pub assign_all-Follows :
    (me : Replays) (hs : List Happening) → Follows me.replays [] me.built hs (assign_all me hs).0
assign_all-Follows me hs = follows me.replays hs [] me (λ id. refl)
