-- ===== src/Server/Connection.antt =====
-- server/connection.rs: `Connection`, and the gauge of active connections in metrics.rs. What the
-- reader delivers is its bytes, and the error that it ends with.
pub mod Laws
use faf_rust_replayserver.Base.{
  Bytes, ℕ, ◌+◌, ◌-◌, Bool, ◌≡◌, List, [], ◌∷◌, ◌++◌, Option, none, some, leb, ◌==◌, if◌then◌else◌,
  ◌>>=◌, ◌>>◌, assert,
}
use faf_rust_replayserver.Server.Assign.{ConnectionType, reader, writer, ConnectionHeader}
use faf_rust_replayserver.Server.Errors.{ErrorKind}
use faf_rust_replayserver.Util.Text.{text, show_u64}

-- The bytes that are still to come, and how the stream fails after them; `unexpected_eof` stands
-- for the regular end and for an error of that kind, which the code does not tell apart.
pub record Incoming : Type 0 where
  pub left : Bytes
  pub ending : ErrorKind

pub record Connection : Type 0 where
  pub stream : Incoming
  pub header : Option ConnectionHeader
  pub id : Bytes

-- `ACTIVE_CONNS`, by its label. A gauge that would become negative is `none` below.
pub data Category : Type 0 where
  initial reading writing : Category

abbrev pub same_category : Category → Category → Bool
same_category initial initial = Bool.true
same_category reading reading = Bool.true
same_category writing writing = Bool.true
same_category _ _ = Bool.false

abbrev pub Gauges : Type 0
Gauges = Category → ℕ

abbrev pub type_category : ConnectionType → Category
type_category reader = reading
type_category writer = writing

unfoldable pub header2label : Option ConnectionHeader → Category
header2label none = initial
header2label (some h) = type_category h.type_

abbrev pub set_gauge : Gauges → Category → ℕ → Gauges
set_gauge g l n j = if same_category l j then n else g j

unfoldable pub set_metric : Gauges → Connection → Gauges
set_metric g c = set_gauge g (header2label c.header) (g (header2label c.header) + 1)

unfoldable pub reset_metric : Gauges → Connection → Option Gauges
reset_metric g c = do
  assert (leb 1 (g (header2label c.header)))
  some (set_gauge g (header2label c.header) (g (header2label c.header) - 1))

-- `new_from`, with the random letters that it draws.
unfoldable pub new_from : Gauges → Incoming → Bytes → Connection × Gauges
new_from g stream letters =
    let c : Connection = record { stream = stream; header = none; id = letters } in
    (c, set_metric g c)

unfoldable pub set_header : Gauges → Connection → ConnectionHeader → Option (Connection × Gauges)
set_header g c header = do
  g' ← reset_metric g c
  let c' : Connection = record c { header = some header }
  some (c', set_metric g' c')

-- `Drop`
unfoldable pub drop_connection : Gauges → Connection → Option Gauges
drop_connection g c = reset_metric g c

-- `unwrap` of a header that was not set panics.
unfoldable pub get_header : Connection → Option ConnectionHeader
get_header c = c.header

abbrev pub type_name : ConnectionType → Bytes
type_name reader = text "reader"
type_name writer = text "writer"

-- `Display`
unfoldable pub show_connection : Connection → Bytes
show_connection c = elim c.header [
  | none ↦ text "Connection " ++ c.id
  | some h ↦
      text "Connection "
      ++ c.id
      ++ text ", "
      ++ type_name h.type_
      ++ text " '"
      ++ h.name
      ++ text "' for replay "
      ++ show_u64 h.id
]
