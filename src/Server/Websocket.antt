-- ===== src/Server/Websocket.antt =====
-- server/websocket_stream.rs: how the messages of a websocket become the bytes of a connection. The
-- frames are those of the library, as far as the code tells them apart.
pub mod Laws
use faf_rust_replayserver.Base.{
  Bytes, ℕ, Bool, true, false, not, List, [], ◌∷◌, ◌++◌, ◌==◌, if◌then◌else◌,
}
use faf_rust_replayserver.Server.Connection.{Incoming}
use faf_rust_replayserver.Server.Errors.{ErrorKind, unexpected_eof, other}
use faf_rust_replayserver.Util.Text.{text, show_u64}

-- `std::io::Error`, with the text of those that are made here.
pub data IoError : Type 0 where
  io_error : ErrorKind → Bytes → IoError

-- `tokio_websockets::Error`; the causes are the texts that they are printed as.
pub data Error : Type 0 where
  already_closed cannot_resolve_host another : Error
  protocol upgrade : Bytes → Error
  payload_too_long : ℕ → ℕ → Error
  io : IoError → Error

pub data Message : Type 0 where
  payload : Bytes → Message
  ping pong : Bytes → Message
  close : ℕ → Bytes → Message

pub data IoResult {ℓ} (A : Type ℓ) : Type ℓ where
  ok : A → IoResult A
  err : IoError → IoResult A

-- An item of the stream of messages.
pub data Item : Type 0 where
  message : Message → Item
  failure : Error → Item

abbrev pub other_e : Bytes → IoError
other_e s = io_error other s

unfoldable pub map_message_error_to_io_error : Error → IoError
map_message_error_to_io_error already_closed = other_e (text "Websocket already closed")
map_message_error_to_io_error cannot_resolve_host = other_e (text "Websocket cannot resolve host")
map_message_error_to_io_error (protocol e) = other_e (text "Websocket protocol error: " ++ e)
map_message_error_to_io_error (payload_too_long len max_len) =
    other_e (text "Websocket payload too long: " ++ show_u64 len ++ text " > " ++ show_u64 max_len)
map_message_error_to_io_error (io e) = e
map_message_error_to_io_error (upgrade e) = other_e (text "Websocket upgrade error: " ++ e)
map_message_error_to_io_error another = other_e (text "Websocket unknown error")

-- `CloseCode::NORMAL_CLOSURE`
abbrev pub normal_closure : ℕ
normal_closure = 1000

unfoldable pub message_bytes : Message → IoResult Bytes
message_bytes (close code reason) =
    if not (code == normal_closure) then err (other_e reason) else ok []
message_bytes (ping bs) = ok []
message_bytes (pong bs) = ok []
message_bytes (payload bs) = ok bs

-- The function that `map_websocket_stream_to_bytes` maps over the stream.
unfoldable pub item_bytes : Item → IoResult Bytes
item_bytes (failure e) = err (map_message_error_to_io_error e)
item_bytes (message m) = message_bytes m

abbrev pub kind_of : IoError → ErrorKind
kind_of (io_error kind what) = kind

abbrev pub before : Bytes → Incoming → Incoming
before bs i = record { left = bs ++ i.left; ending = i.ending }

-- `make_websocket_stream_a_stream`: what a reader of the stream gets. It passes over chunks without
-- bytes, and stops at the first error or where the stream ends.
unfoldable pub stream_of : List Item → Incoming
stream_of [] = record { left = []; ending = unexpected_eof }
stream_of (i ∷ is) =
    let rest = stream_of is in
    elim (item_bytes i) [
      | ok bs ↦ before bs rest
      | err e ↦ record { left = []; ending = kind_of e }
    ]
