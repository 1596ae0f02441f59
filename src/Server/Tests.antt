-- ===== src/Server/Tests.antt =====
-- Witnesses for the connections of the server.
use faf_rust_replayserver.Base.{
  ℕ, ◌≡◌, ◌↔◌, refl, inl, true, List, [], ◌∷◌, none, arith, length, ◌<◌,
}
use faf_rust_replayserver.Util.Text.{text, from_utf8, utf8_from, utf8_next, utf8_lead, digits}
use faf_rust_replayserver.Util.Timeout.{ready}
use faf_rust_replayserver.Server.Errors.{no_data, bad_data, unexpected_eof, ok, err}
use faf_rust_replayserver.Server.Connection
use faf_rust_replayserver.Server.Connection.{Incoming}
use faf_rust_replayserver.Server.Connection.Laws.{start, opens, Metered, active_connections-Metered}
use faf_rust_replayserver.Server.Header.{read_connection_header, read_initial_header}
use faf_rust_replayserver.Server.Header.Laws.{
  spelled, Readable, read_connection_header-spelled, read_connection_header-no_data, Answers,
  read_initial_header-Answers,
}
use faf_rust_replayserver.Server.Accept.{Server, Outcome, run}
use faf_rust_replayserver.Server.Accept.Laws.{Accepts, run-Accepts}
use faf_rust_replayserver.Server.Websocket.{stream_of}
use faf_rust_replayserver.Server.Websocket.Laws.{
  Sent, bytes, pinged, frames, last_items, all_bytes, read_connection_header-stream_of,
}
use faf_rust_replayserver.Server.Assign
use faf_rust_replayserver.Server.Assign.{
  ConnectionType, reader, writer, ConnectionHeader, Connection, Happening, arrives, handled,
  expires,
}
use faf_rust_replayserver.Server.Assign.Log.{Follows}
use faf_rust_replayserver.Server.Assign.Counts.{results, Counted}
use faf_rust_replayserver.Server.Assign.Laws.{Named, Assigned, assign_all-Assigned}

abbrev arriving : ℕ → ConnectionType → ℕ → Connection
arriving number type_ id = record {
  number = number;
  header = record { type_ = type_; id = id; name = [] };
}

new-Named : Named (Assign.new (λ l. 0))
unfolding Assign.new
new-Named id = inl refl

-- Two writers and a reader of one game, a reader of no game, and the game again.
abbrev happenings : List Happening
happenings =
    arrives (arriving 0 writer 5)
    ∷ arrives (arriving 1 writer 5)
    ∷ arrives (arriving 2 reader 5)
    ∷ arrives (arriving 3 reader 6)
    ∷ handled (ok tt)
    ∷ handled (err (bad_data []))
    ∷ expires 5
    ∷ arrives (arriving 4 writer 5)
    ∷ []

assign_all-Assigned_example :
    Assigned
      (Assign.new (λ l. 0))
      (Assign.assign_all (Assign.new (λ l. 0)) happenings).0
      (Assign.assign_all (Assign.new (λ l. 0)) happenings).1
    × Follows (λ j. none) [] 0 happenings (Assign.assign_all (Assign.new (λ l. 0)) happenings).0
    × Counted
        (Assign.new (λ l. 0))
        5
        (λ l. results l happenings)
        (Assign.assign_all (Assign.new (λ l. 0)) happenings).0
        (Assign.assign_all (Assign.new (λ l. 0)) happenings).1
unfolding Assign.new
assign_all-Assigned_example = assign_all-Assigned (Assign.new (λ l. 0)) happenings new-Named

-- Two connections open.
abbrev incoming : Incoming
incoming = record { left = text "P/17/foo"; ending = unexpected_eof }

abbrev one_open : Connection.Connection × Connection.Gauges
one_open = Connection.new_from (λ l. 0) incoming (text "abcdefghijkl")

abbrev two_open : Connection.Connection × Connection.Gauges
two_open = Connection.new_from one_open.1 incoming (text "bcdefghijklm")

active_connections-Metered_example : Metered two_open.1 (two_open.0 ∷ one_open.0 ∷ [])
active_connections-Metered_example =
    active_connections-Metered two_open.1 (two_open.0 ∷ one_open.0 ∷ [])
      (opens (opens start incoming (text "abcdefghijkl")) incoming (text "bcdefghijklm"))

abbrev header : ConnectionHeader
header = record { type_ = writer; id = 4017; name = text "foo/bar" }

header-Readable : Readable header
unfolding from_utf8 utf8_from utf8_next utf8_lead digits
header-Readable =
    (omega arith, (refl, (refl, (refl, (refl, (refl, (refl, (refl, tt))))))), refl, omega arith)

read_connection_header-spelled_example :
    read_connection_header (record { left = spelled header (9 ∷ 0 ∷ []); ending = unexpected_eof })
    ≡ ok (header, record { left = 9 ∷ 0 ∷ []; ending = unexpected_eof })
read_connection_header-spelled_example =
    read_connection_header-spelled header (9 ∷ 0 ∷ []) unexpected_eof header-Readable

read_connection_header-no_data_example :
    (read_connection_header (record { left = 80 ∷ []; ending = unexpected_eof }) ≡ err no_data)
    ↔ ((length {A = ℕ} (80 ∷ []) < 2) × (unexpected_eof ≡ unexpected_eof))
read_connection_header-no_data_example = read_connection_header-no_data (80 ∷ []) unexpected_eof

read_initial_header-Answers_example :
    Answers
      (ready 3 tt)
      one_open.1
      one_open.0
      10
      (read_initial_header true (ready 3 tt) one_open.1 one_open.0 10)
read_initial_header-Answers_example =
    read_initial_header-Answers true (ready 3 tt) one_open.1 one_open.0 10

-- A connection with no data, one with a bad header, and two with an id.
abbrev outcomes : List Outcome
outcomes =
    record { number = 0; header = err no_data }
    ∷ record { number = 1; header = err (bad_data []) }
    ∷ record { number = 2; header = ok header }
    ∷ record { number = 3; header = ok (record header { id = 5 }) }
    ∷ []

abbrev server : Server
server = record { runner = record { worker_threads = 3; channels = λ j. [] }; served = λ l. 0 }

run-Accepts_example : Accepts server outcomes (run server outcomes)
run-Accepts_example = run-Accepts server outcomes (omega arith)

abbrev sent : List Sent
sent = bytes (text "P/1") ∷ pinged [] ∷ bytes (text "7/foo") ∷ bytes (0 ∷ []) ∷ []

read_connection_header-stream_of_example :
    (stream_of (frames sent (last_items true 1000 []))
      ≡ record { left = all_bytes sent; ending = unexpected_eof })
    × (read_connection_header (stream_of (frames sent (last_items true 1000 [])))
        ≡ read_connection_header (record { left = all_bytes sent; ending = unexpected_eof }))
read_connection_header-stream_of_example = read_connection_header-stream_of sent true 1000 []
