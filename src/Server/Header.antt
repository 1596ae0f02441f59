-- ===== src/Server/Header.antt =====
-- accept/header.rs: the header of a connection, `P/<id>/<name>` or `G/<id>/<name>` before a byte 0.
pub mod Laws
use faf_rust_replayserver.Base.{
  Bytes, ℕ, ◌+◌, Bool, true, false, ◌&&◌, List, [], ◌∷◌, ◌++◌, Option, none, some, ◌==◌,
  if◌then◌else◌, take, drop,
}
use faf_rust_replayserver.Streams.HeaderParser.{split_after}
use faf_rust_replayserver.Server.Assign.{ConnectionType, reader, writer, ConnectionHeader}
use faf_rust_replayserver.Server.Errors.{
  ErrorKind, ConnectionError, no_data, bad_data, io, ConnResult, ok, err, is_eof, ok_or, ◌>>=◌,
}
use faf_rust_replayserver.Server.Connection.{Incoming, Connection, Gauges, set_header}
use faf_rust_replayserver.Util.Text.{text, from_utf8, parse_u64, pretty_bytes}
use faf_rust_replayserver.Util.Timeout.{Future, never, ready, timeout}

-- `read_exact` of two bytes.
unfoldable pub read_two : Bytes → ErrorKind → ConnResult (ℕ × ℕ × Bytes)
read_two (a ∷ b ∷ bs) ending = ok (a, b, bs)
read_two (a ∷ []) ending = err (io ending)
read_two [] ending = err (io ending)

unfoldable pub type_of : ℕ → ℕ → ConnResult ConnectionType
type_of a b =
    if a == b'P' && b == b'/'
    then ok writer
    else if a == b'G' && b == b'/'
    then ok reader
    else err (bad_data (text "Invalid connection type: '" ++ pretty_bytes (a ∷ b ∷ []) ++ text "'"))

unfoldable pub read_type : Incoming → ConnResult (ConnectionType × Incoming)
read_type conn = do
  (a, b, left) ← read_two conn.left conn.ending
  type_ ← type_of a b
  ok (type_, record conn { left = left })

-- `line.pop()`
unfoldable pub pop : Bytes → Bytes
pop [] = []
pop (b ∷ []) = []
pop (b ∷ c ∷ bs) = b ∷ pop (c ∷ bs)

-- `splitn(2, d)`: `none` if there is only one piece.
unfoldable pub split_once : ℕ → Bytes → Option (Bytes × Bytes)
split_once d [] = none
split_once d (b ∷ bs) =
    let rest = split_once d bs in
    if b == d
    then some ([], bs)
    else elim rest [ none ↦ none | some (first, second) ↦ some (b ∷ first, second) ]

unfoldable pub parse_id : Bytes → Option ℕ
parse_id bs = elim (from_utf8 bs) [ none ↦ none | some s ↦ parse_u64 s ]

unfoldable pub read_game_data : Incoming → ConnResult ((ℕ × Bytes) × Incoming)
read_game_data conn = do
  (line, left) ←
      ok_or (split_after 0 (take 1024 conn.left))
        (bad_data (text "Connection header is incomplete"))
  (id_bytes, name_bytes) ←
      ok_or (split_once b'/' (pop line)) (bad_data (text "No slash between game ID and name"))
  id ← ok_or (parse_id id_bytes) (bad_data (text "Failed to parse replay ID"))
  name ← ok_or (from_utf8 name_bytes) (bad_data (text "Failed to decode connection string id"))
  ok ((id, name), record conn { left = left ++ drop 1024 conn.left })

-- An early end is a connection with no data.
unfoldable pub eof_is_no_data {ℓ} : {A : Type ℓ} → ConnResult A → ConnResult A
eof_is_no_data (ok a) = ok a
eof_is_no_data (err e) = err (if is_eof e then no_data else e)

unfoldable pub read_connection_header : Incoming → ConnResult (ConnectionHeader × Incoming)
read_connection_header conn = do
  (type_, conn₁) ← eof_is_no_data (read_type conn)
  ((id, name), conn₂) ← read_game_data conn₁
  ok (record { type_ = type_; id = id; name = name }, conn₂)

-- The connection with its header, and the gauges.
unfoldable pub read_and_set_connection_header :
    Gauges → Connection → ConnResult (Option (Connection × Gauges))
read_and_set_connection_header g c = do
  (header, stream) ← read_connection_header c.stream
  ok (set_header g (record c { stream = stream }) header)

unfoldable pub or_timed_out {ℓ} : {A : Type ℓ} → Option (ConnResult A) → ConnResult A
or_timed_out (some res) = res
or_timed_out none = err (bad_data (text "Timed out while accepting connection"))

abbrev pub when_ready {ℓ κ} : {A : Type ℓ} {B : Type κ} → (A → B) → Future A → Future B
when_ready f never = never
when_ready f (ready t a) = ready t (f a)

-- `arrival` is the time at which the connection delivered what decides its header, if it does.
unfoldable pub read_initial_header :
    Bool
    → Future (Unit {0})
    → Gauges
    → Connection
    → ℕ
    → Future (ConnResult (Option (Connection × Gauges)))
read_initial_header tie arrival g c until =
    when_ready or_timed_out
      (timeout tie (when_ready (λ _. read_and_set_connection_header g c) arrival) until)
