-- ===== src/Server/Assign.antt =====
-- replay/replays.rs: `Replays`. A connection and a replay are told apart by numbers. An entry of the
-- `WeakValueHashMap` is gone when the last reference to its replay is dropped (`expire`).
-- `Replays` has the counter of metrics.rs that its code raises.
pub mod Counts
pub mod Log
pub mod Laws
use faf_rust_replayserver.Base.{
  Bytes, ℕ, ◌+◌, Bool, List, [], ◌∷◌, ◌++◌, Option, none, some, ◌==◌, if◌then◌else◌,
}
use faf_rust_replayserver.Server.Errors.{
  cannot_assign_to_replay, ConnResult, error_of, Served, inc_served_conns,
}

-- accept/header.rs
pub data ConnectionType : Type 0 where
  reader writer : ConnectionType

pub record ConnectionHeader : Type 0 where
  pub type_ : ConnectionType
  pub id : ℕ
  pub name : Bytes

pub record Connection : Type 0 where
  pub number : ℕ
  pub header : ConnectionHeader

-- A replay: its id, and which of the replays that were built it is.
pub record Replay : Type 0 where
  pub rid : ℕ
  pub number : ℕ

pub data Assignment : Type 0 where
  connection : Connection → Replay → Assignment
  new_replay : Replay → Assignment

pub record Replays : Type 0 where
  pub replays : ℕ → Option Replay
  pub built : ℕ
  pub served : Served

unfoldable pub new : Served → Replays
new served = record { replays = λ _. none; built = 0; served = served }

-- `insert` of the map, after the builder made the replay.
unfoldable pub build : Replays → ℕ → Replay × Replays
build me id =
    let r : Replay = record { rid = id; number = me.built } in
    (r, record me { replays = λ j. if id == j then some r else me.replays j; built = me.built + 1 })

-- The branch for an id without a replay.
unfoldable pub assign_new : Replays → Connection → ConnectionType → List Assignment × Replays
assign_new me c reader =
    ([], record me { served = inc_served_conns me.served (some cannot_assign_to_replay) })
assign_new me c writer =
    let (r, me') = build me c.header.id in (new_replay r ∷ connection c r ∷ [], me')

unfoldable pub assign_to : Replays → Connection → Option Replay → List Assignment × Replays
assign_to me c (some r) = (connection c r ∷ [], me)
assign_to me c none = assign_new me c c.header.type_

unfoldable pub assign_connection_to_replay : Replays → Connection → List Assignment × Replays
assign_connection_to_replay me c = assign_to me c (me.replays c.header.id)

-- The replay of an id ended, and nothing refers to it any more.
unfoldable pub expire : Replays → ℕ → Replays
expire me id = record me { replays = λ j. if id == j then none else me.replays j }

-- `handle_connection` of the replay of an assigned connection returned. Starting the replay of a
-- `new_replay` counts nothing.
unfoldable pub connection_handled : Replays → ConnResult {0} Unit → Replays
connection_handled me res = record me { served = inc_served_conns me.served (error_of res) }

pub data Happening : Type 0 where
  arrives : Connection → Happening
  handled : ConnResult {0} Unit → Happening
  expires : ℕ → Happening

-- `handle_connections_and_replays`: the assignments, in order. The results of the assignments that
-- run come as they may.
unfoldable pub assign_all : Replays → List Happening → List Assignment × Replays
assign_all me [] = ([], me)
assign_all me (arrives c ∷ hs) =
    let (first, me') = assign_connection_to_replay me c in
    let (rest, me'') = assign_all me' hs in (first ++ rest, me'')
assign_all me (handled res ∷ hs) = assign_all (connection_handled me res) hs
assign_all me (expires id ∷ hs) = assign_all (expire me id) hs
