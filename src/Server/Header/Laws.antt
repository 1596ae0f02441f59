-- ===== src/Server/Header/Laws.antt =====
-- The header of a connection: its spelling, the error for no data, and the timeout.
use faf_rust_replayserver.Base.{
  Bytes, ℕ, suc, ◌+◌, ◌-◌, ◌≤◌, ◌<◌, ◌≡◌, ◌↔◌, refl, sym, ap, ap₂, ◌∙◌, ◌⊎◌, inl, inr, true, false,
  Bool, [], ◌∷◌, ◌++◌, Option, some, arith, ◌==◌, length, take, drop, take-append_of_ge,
  drop-append_of_ge, take-append-drop, All, All-append,
}
use faf_rust_replayserver.Streams.HeaderParser.{split_after}
use faf_rust_replayserver.Server.Assign.{ConnectionType, reader, writer, ConnectionHeader}
use faf_rust_replayserver.Server.Errors.{
  ErrorKind, unexpected_eof, other, no_data, bad_data, ConnResult, ok, err, is_eof,
}
use faf_rust_replayserver.Server.Connection.{Incoming, Connection, Gauges}
use faf_rust_replayserver.Server.Header.{
  read_two, type_of, read_type, pop, split_once, parse_id, read_game_data, eof_is_no_data,
  read_connection_header, read_and_set_connection_header, or_timed_out, when_ready,
  read_initial_header,
}
use faf_rust_replayserver.Util.Timeout.{Future, never, ready, timeout-Races}
use faf_rust_replayserver.Util.Text.{text, from_utf8, show_u64, u64_mod}
use faf_rust_replayserver.Util.Text.Laws.{
  IsDigit, parse_u64-show_u64, show_u64-IsDigit, from_utf8-digits,
}

-- The byte does not occur.
abbrev pub Free : ℕ → Bytes → Type 0
Free d bs = All (λ b. (b == d) ≡ false) bs

split_after-Free :
    (d : ℕ) (xs ys : Bytes) → Free d xs → split_after d (xs ++ d ∷ ys) ≡ some (xs ++ d ∷ [], ys)
unfolding split_after
split_after-Free d [] ys free = let same : (d == d) ≡ true = ground arith in rw same refl
split_after-Free d (x ∷ xs) ys free = rw (free.0) (rw (split_after-Free d xs ys free.1) refl)

pub split_once-Free :
    (d : ℕ) (xs ys : Bytes) → Free d xs → split_once d (xs ++ d ∷ ys) ≡ some (xs, ys)
unfolding split_once
split_once-Free d [] ys free = let same : (d == d) ≡ true = ground arith in rw same refl
split_once-Free d (x ∷ xs) ys free = rw (free.0) (rw (split_once-Free d xs ys free.1) refl)

pop-append : (xs : Bytes) (d : ℕ) → pop (xs ++ d ∷ []) ≡ xs
unfolding pop
pop-append [] d = refl
pop-append (x ∷ []) d = refl
pop-append (x ∷ y ∷ xs) d = ap (◌∷◌ x) (pop-append (y ∷ xs) d)

digits_Free : (d : ℕ) (xs : Bytes) → d < 48 → All IsDigit xs → Free d xs
digits_Free d [] below a = tt
digits_Free d (x ∷ xs) below a = (ground (arith, a.0), digits_Free d xs below a.1)

-- A line of less than 1024 bytes is found, and what follows it is left.
split_line :
    (xs rest : Bytes) (k : ℕ)
    → Free 0 xs
    → 1024 ≡ length xs + suc k
    → split_after 0 (take 1024 (xs ++ 0 ∷ rest)) ≡ some (xs ++ 0 ∷ [], take k rest)
unfolding take
split_line xs rest k free e =
    ap (split_after 0) (take-append_of_ge 1024 (suc k) xs (0 ∷ rest) e)
    ∙ split_after-Free 0 xs (take k rest) free

rest_line :
    (xs rest : Bytes) (k : ℕ)
    → 1024 ≡ length xs + suc k
    → take k rest ++ drop 1024 (xs ++ 0 ∷ rest) ≡ rest
unfolding drop
rest_line xs rest k e =
    ap (λ bs. take k rest ++ bs) (drop-append_of_ge 1024 (suc k) xs (0 ∷ rest) e)
    ∙ take-append-drop k rest

-- The bytes of a header, without its type and the final 0.
abbrev pub payload : ConnectionHeader → Bytes
payload h = show_u64 h.id ++ b'/' ∷ h.name

abbrev pub type_letter : ConnectionType → ℕ
type_letter writer = b'P'
type_letter reader = b'G'

-- What a client sends.
abbrev pub spelled : ConnectionHeader → Bytes → Bytes
spelled h rest = type_letter h.type_ ∷ b'/' ∷ (payload h ++ 0 ∷ rest)

-- The id is a `u64`, the name is UTF-8 without a byte 0, and the line is not too long.
abbrev pub Readable : ConnectionHeader → Type 0
Readable h =
    (h.id < u64_mod)
    × Free 0 h.name
    × (from_utf8 h.name ≡ some h.name)
    × (length (payload h) < 1024)

parse_id-show_u64 : (id : ℕ) → id < u64_mod → parse_id (show_u64 id) ≡ some id
unfolding parse_id
parse_id-show_u64 id lt =
    rw (parse_id, from_utf8-digits (show_u64 id) (show_u64-IsDigit id lt))
      (parse_u64-show_u64 id lt)

payload-Free : (h : ConnectionHeader) → Readable h → Free 0 (payload h)
payload-Free h (lt, free, valid, short) =
    All-append (λ b. (b == 0) ≡ false) (show_u64 h.id) (b'/' ∷ h.name)
      (digits_Free 0 (show_u64 h.id) (omega arith) (show_u64-IsDigit h.id lt)) (refl, free)

read_game_data-payload :
    (h : ConnectionHeader) (rest : Bytes) (ending : ErrorKind)
    → Readable h
    → read_game_data (record { left = payload h ++ 0 ∷ rest; ending = ending })
      ≡ ok ((h.id, h.name), record { left = rest; ending = ending })
unfolding read_game_data
read_game_data-payload h rest ending ok_header =
    let (lt, free, valid, short) = ok_header in
    let k = 1023 - length (payload h) in
    let fits : 1024 ≡ length (payload h) + suc k = omega arith in
    let line = split_line (payload h) rest k (payload-Free h ok_header) fits in
    let pieces =
      split_once-Free b'/' (show_u64 h.id) h.name
        (digits_Free b'/' (show_u64 h.id) (omega arith) (show_u64-IsDigit h.id lt)) in
    rw line (
      rw (pop-append (payload h) 0) (
        rw pieces (
          rw (parse_id-show_u64 h.id lt) (
            rw valid (
              ap (λ bs. ok ((h.id, h.name), record { left = bs; ending = ending }))
                (rest_line (payload h) rest k fits))))))

read_type-letter :
    (t : ConnectionType) (bs : Bytes) (ending : ErrorKind)
    → read_type (record { left = type_letter t ∷ b'/' ∷ bs; ending = ending })
      ≡ ok (t, record { left = bs; ending = ending })
unfolding read_type read_two type_of
read_type-letter reader bs ending = refl
read_type-letter writer bs ending = refl

-- A header that a client sends is read back: its type, its id and its name, and the connection is
-- left with exactly what follows it. The id is below 2 ^ 64, the name is UTF-8 without a byte 0,
-- and id, slash and name take less than 1024 bytes.
pub read_connection_header-spelled :
    (h : ConnectionHeader) (rest : Bytes) (ending : ErrorKind)
    → Readable h
    → read_connection_header (record { left = spelled h rest; ending = ending })
      ≡ ok (h, record { left = rest; ending = ending })
unfolding read_connection_header eof_is_no_data
read_connection_header-spelled h rest ending ok_header =
    rw (read_type-letter h.type_ (payload h ++ 0 ∷ rest) ending)
      (rw (read_game_data-payload h rest ending ok_header) refl)

read_game_data_has_data : (conn : Incoming) → read_game_data conn ≡ err no_data → ⊥
unfolding read_game_data
read_game_data_has_data conn h = ground arith

header_has_data :
    (a b : ℕ) (bs : Bytes) (ending : ErrorKind)
    → read_connection_header (record { left = a ∷ b ∷ bs; ending = ending }) ≡ err no_data
    → ⊥
unfolding read_connection_header read_type read_two eof_is_no_data type_of is_eof
header_has_data a b bs ending h =
    ground (arith, read_game_data_has_data (record { left = bs; ending = ending }))

-- A connection counts as one with no data exactly if it ends before its second byte, regularly or
-- with an error of kind `UnexpectedEof`: any other end, and any other bytes, give the header or
-- another error.
pub read_connection_header-no_data :
    (bs : Bytes) (ending : ErrorKind)
    → (read_connection_header (record { left = bs; ending = ending }) ≡ err no_data)
      ↔ ((length bs < 2) × (ending ≡ unexpected_eof))
unfolding read_connection_header read_type read_two eof_is_no_data is_eof
read_connection_header-no_data [] unexpected_eof = (λ h. (omega arith, refl), λ h. refl)
read_connection_header-no_data [] other = (λ h. absurd cc, λ h. absurd cc)
read_connection_header-no_data (a ∷ []) unexpected_eof = (λ h. (omega arith, refl), λ h. refl)
read_connection_header-no_data (a ∷ []) other = (λ h. absurd cc, λ h. absurd cc)
read_connection_header-no_data (a ∷ b ∷ bs) ending =
    (λ h. absurd (header_has_data a b bs ending h), λ h. absurd (omega arith))

-- What answers a connection: its header or the error of its bytes, if it delivers them in time, and
-- an error when the time is over otherwise.
abbrev pub Answers :
    Future (Unit {0})
    → Gauges
    → Connection
    → ℕ
    → Future (ConnResult (Option (Connection × Gauges)))
    → Type 0
Answers arrival g c until r =
    ((r ≡ ready until (err (bad_data (text "Timed out while accepting connection"))))
      × ((t : ℕ) → arrival ≡ ready t tt → until ≤ t))
    ⊎ ((t : ℕ) × (arrival ≡ ready t tt)
        × (t ≤ until)
        × (r ≡ ready t (read_and_set_connection_header g c)))

never≢ready {ℓ} : {A : Type ℓ} (t : ℕ) {a : A} → never ≡ ready t a → ⊥
never≢ready t h = cc

-- `read_initial_header` always answers, at `until` at the latest: with what the bytes of the
-- connection give if they arrived by then, and with an error if they did not arrive before.
pub read_initial_header-Answers :
    (tie : Bool) (arrival : Future (Unit {0})) (g : Gauges) (c : Connection) (until : ℕ)
    → Answers arrival g c until (read_initial_header tie arrival g c until)
unfolding read_initial_header or_timed_out
read_initial_header-Answers tie never g c until =
    let unread : Future (ConnResult (Option (Connection × Gauges))) = never in
    elim (timeout-Races tie unread until) [
      | inl (e, f) ↦ inl (ap (when_ready or_timed_out) e, λ t h. absurd (never≢ready t h))
      | inr (t, a, e, r, le) ↦ absurd (never≢ready t e)
    ]
read_initial_header-Answers tie (ready u _) g c until =
    let answer = read_and_set_connection_header g c in
    elim (timeout-Races tie (ready u answer) until) [
      | inl (e, f) ↦ inl (
        ap (when_ready or_timed_out) e,
        λ t h. let same : u ≡ t = cc h in f t answer (ap (λ k. ready k answer) same),
      )
      | inr (t, a, e, r, le) ↦
          let same : u ≡ t = cc e in
          let value : a ≡ answer = cc e in
          inr (
            u,
            refl,
            omega (arith, same),
            ap (when_ready or_timed_out) r ∙ ap₂ ready (sym same) value,
          )
    ]
