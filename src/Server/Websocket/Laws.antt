-- ===== src/Server/Websocket/Laws.antt =====
-- The bytes of a websocket, against those of a TCP connection.
use faf_rust_replayserver.Base.{
  Bytes, ℕ, ◌≡◌, refl, sym, ap, ◌∙◌, Bool, true, false, not, List, [], ◌∷◌, ◌++◌, append-nil,
  append_assoc, arith, ◌==◌, if◌then◌else◌, ◌&&◌,
}
use faf_rust_replayserver.Server.Connection.{Incoming}
use faf_rust_replayserver.Server.Errors.{ErrorKind, unexpected_eof, other}
use faf_rust_replayserver.Server.Header.{read_connection_header}
use faf_rust_replayserver.Server.Websocket.{
  payload, ping, pong, close, Item, message, message_bytes, item_bytes, stream_of, before,
  normal_closure,
}

-- What a client sends while the connection is open.
pub data Sent : Type 0 where
  bytes pinged ponged : Bytes → Sent

abbrev pub frame : Sent → Item
frame (bytes bs) = message (payload bs)
frame (pinged bs) = message (ping bs)
frame (ponged bs) = message (pong bs)

abbrev pub data_of : Sent → Bytes
data_of (bytes bs) = bs
data_of (pinged bs) = []
data_of (ponged bs) = []

abbrev pub frames : List Sent → List Item → List Item
frames [] is = is
frames (s ∷ ss) is = frame s ∷ frames ss is

abbrev pub all_bytes : List Sent → Bytes
all_bytes [] = []
all_bytes (s ∷ ss) = data_of s ++ all_bytes ss

stream_of-frames :
    (ss : List Sent) (is : List Item)
    → stream_of (frames ss is) ≡ before (all_bytes ss) (stream_of is)
unfolding stream_of item_bytes message_bytes
stream_of-frames [] is = refl
stream_of-frames (bytes bs ∷ ss) is =
    ap (before bs) (stream_of-frames ss is)
    ∙ ap (λ l. record { left = l; ending = (stream_of is).ending })
        (sym (append_assoc bs (all_bytes ss) (stream_of is).left))
stream_of-frames (pinged bs ∷ ss) is = stream_of-frames ss is
stream_of-frames (ponged bs ∷ ss) is = stream_of-frames ss is

-- How the client goes away: the stream ends, or a close message with a code comes before that.
abbrev pub last_items : Bool → ℕ → Bytes → List Item
last_items closes code reason = if closes then message (close code reason) ∷ [] else []

abbrev pub ending_of : Bool → ℕ → ErrorKind
ending_of closes code = if closes && not (code == normal_closure) then other else unexpected_eof

stream_of-last :
    (closes : Bool) (code : ℕ) (reason : Bytes)
    → stream_of (last_items closes code reason)
      ≡ record { left = []; ending = ending_of closes code }
unfolding stream_of item_bytes message_bytes
stream_of-last false code reason = refl
stream_of-last true code reason = ground arith

-- However a client cuts its bytes into messages, and whatever pings and pongs are between them,
-- what is read from its websocket is what is read from a TCP connection with the same bytes, which
-- ends regularly if the client leaves with the normal code or without a close message, and with an
-- error otherwise. So is the header of the connection.
pub read_connection_header-stream_of :
    (ss : List Sent) (closes : Bool) (code : ℕ) (reason : Bytes)
    → let tcp : Incoming = record { left = all_bytes ss; ending = ending_of closes code } in
      let websocket = stream_of (frames ss (last_items closes code reason)) in
      (websocket ≡ tcp) × (read_connection_header websocket ≡ read_connection_header tcp)
read_connection_header-stream_of ss closes code reason =
    let same : stream_of (frames ss (last_items closes code reason))
        ≡ record { left = all_bytes ss; ending = ending_of closes code } =
      stream_of-frames ss (last_items closes code reason)
      ∙ ap (before (all_bytes ss)) (stream_of-last closes code reason)
      ∙ ap (λ l. record { left = l; ending = ending_of closes code }) (append-nil (all_bytes ss)) in
    (same, ap read_connection_header same)
