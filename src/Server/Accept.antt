-- ===== src/Server/Accept.antt =====
-- server/server.rs: what `Server::run` does with the connections, and `collect_server_connections`;
-- accept/producer.rs. The results of `read_initial_header` come
-- in the order in which the concurrent tasks have them; those after the shutdown never come.
pub mod Laws
use faf_rust_replayserver.Base.{
  ℕ, ◌+◌, Bool, true, false, List, [], ◌∷◌, ◌++◌, Option, none, some, if◌then◌else◌, ◌>>=◌, length,
}
use faf_rust_replayserver.Server.Assign
use faf_rust_replayserver.Server.Assign.{ConnectionHeader}
use faf_rust_replayserver.Server.Dispatch.{ReplayRunner, dispatch_connection}
use faf_rust_replayserver.Server.Connection.{Incoming}
use faf_rust_replayserver.Server.Errors.{
  ConnectionError, ConnResult, ok, err, is_no_data, Served, inc_served_conns,
}

-- What `run` keeps.
pub record Server : Type 0 where
  pub runner : ReplayRunner
  pub served : Served

-- A connection, by its number, and what reading its header gave.
pub record Outcome : Type 0 where
  pub number : ℕ
  pub header : ConnResult ConnectionHeader

-- The body of `for_each_concurrent`, after `read_initial_header`.
unfoldable pub accept_connection : Server → ℕ → ConnResult ConnectionHeader → Option Server
accept_connection me number (err e) =
    if is_no_data e
    then some me
    else some (record me { served = inc_served_conns me.served (some e) })
accept_connection me number (ok header) = do
  runner ← dispatch_connection me.runner (record { number = number; header = header })
  some (record me { runner = runner })

unfoldable pub run : Server → List Outcome → Option Server
run me [] = some me
run me (o ∷ os) = do me' ← accept_connection me o.number o.header; run me' os

-- What a listener gives: a socket that failed, one that is no websocket, or a stream.
pub data Listened : Type 0 where
  failed not_websocket : Listened
  socket : Incoming → Listened

-- `filter_map` of `tcp_listen`. Any socket is a TCP connection.
unfoldable pub tcp_connections : List (Option Incoming) → List Incoming
tcp_connections [] = []
tcp_connections (none ∷ ss) = tcp_connections ss
tcp_connections (some s ∷ ss) = s ∷ tcp_connections ss

-- `filter_map` of `websocket_listen`.
unfoldable pub websocket_connections : List Listened → List Incoming
websocket_connections [] = []
websocket_connections (failed ∷ ss) = websocket_connections ss
websocket_connections (not_websocket ∷ ss) = websocket_connections ss
websocket_connections (socket s ∷ ss) = s ∷ websocket_connections ss

pub record PortInfo : Type 0 where
  pub tcp : Option ℕ
  pub websocket : Option ℕ

-- The streams that are joined, under their keys.
pub data Source : Type 0 where
  tcp_stream websocket_stream : Source

-- `tcp_port` and `websocket_port` give the port that a listener on a configured one has.
unfoldable pub collect_server_connections :
    (ℕ → ℕ) → (ℕ → ℕ) → Option ℕ → Option ℕ → List (ℕ × Source) × PortInfo
collect_server_connections tcp_port websocket_port none none =
    ([], record { tcp = none; websocket = none })
collect_server_connections tcp_port websocket_port (some p) none =
    ((0, tcp_stream) ∷ [], record { tcp = some (tcp_port p); websocket = none })
collect_server_connections tcp_port websocket_port none (some q) =
    ((1, websocket_stream) ∷ [], record { tcp = none; websocket = some (websocket_port q) })
collect_server_connections tcp_port websocket_port (some p) (some q) = (
  (0, tcp_stream) ∷ (1, websocket_stream) ∷ [],
  record { tcp = some (tcp_port p); websocket = some (websocket_port q) },
)
