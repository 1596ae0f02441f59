-- ===== src/Streams/HeaderParser.antt =====
-- replay/streams/header.rs: reading the header of a replay, with `read_until_exact` of
-- server/connection.rs. The connection is the bytes that it still delivers before it ends; an error is
-- `none`.
pub mod Reads
pub mod Laws
use faf_rust_replayserver.Base.{
  Bytes, ℕ, zero, suc, ◌+◌, ◌*◌, ◌/◌, ◌%◌, Bool, List, [], ◌∷◌, ◌++◌, Option, none, some, ltb, ◌==◌,
  not, if◌then◌else◌, ◌>>=◌, length, take, drop,
}
use faf_rust_replayserver.Streams.ReplayHeader.{ReplayHeader}

abbrev pub max_size : ℕ
max_size = 1024 * 1024

-- `data`, and what `r` still delivers.
pub record Input : Type 0 where
  pub data_read : Bytes
  pub left : Bytes

-- The bytes through the first delimiter, and the others.
unfoldable pub split_after : ℕ → Bytes → Option (Bytes × Bytes)
split_after delimiter [] = none
split_after delimiter (b ∷ bs) =
    let rest = split_after delimiter bs in
    if b == delimiter then some (b ∷ [], bs) else (do (taken, left) ← rest; some (b ∷ taken, left))

unfoldable pub read_until_exact : ℕ → Input → Option Input
read_until_exact delimiter r = do
  (taken, left) ← split_after delimiter r.left
  some (record { data_read = r.data_read ++ taken; left = left })

unfoldable pub skip : ℕ → Input → Option Input
skip count r =
    if ltb (length r.left) count
    then none
    else some (record { data_read = r.data_read ++ take count r.left; left = drop count r.left })

unfoldable pub take_u8 : Bytes → Option (ℕ × Bytes)
take_u8 [] = none
take_u8 (b ∷ bs) = some (b, bs)

-- `read_value!(read_u8)`
unfoldable pub read_u8 : Input → Option (ℕ × Input)
read_u8 r = do
  (v, left) ← take_u8 r.left
  some (v, record { data_read = r.data_read ++ v ∷ []; left = left })

-- `to_le_bytes`
unfoldable pub le_bytes : ℕ → Bytes
le_bytes v = v % 256 ∷ v / 256 % 256 ∷ v / 65536 % 256 ∷ v / 16777216 % 256 ∷ []

-- Four bytes, as `read_u32_le` takes them.
unfoldable pub take_u32 : Bytes → Option (ℕ × Bytes)
take_u32 (a ∷ b ∷ c ∷ d ∷ bs) = some (a + 256 * b + 65536 * c + 16777216 * d, bs)
take_u32 _ = none

-- `read_value!(read_u32_le)`
unfoldable pub read_u32_le : Input → Option (ℕ × Input)
read_u32_le r = do
  (v, left) ← take_u32 r.left
  some (v, record { data_read = r.data_read ++ le_bytes v; left = left })

-- The loop over the players.
unfoldable pub read_players : ℕ → Input → Option Input
read_players zero r = some r
read_players (suc n) r = do r₁ ← read_until_exact 0 r; (_, r₂) ← read_u32_le r₁; read_players n r₂

-- The loop over the armies.
unfoldable pub read_armies : ℕ → Input → Option Input
read_armies zero r = some r
read_armies (suc n) r = do
  (army_size, r₁) ← read_u32_le r
  r₂ ← skip army_size r₁
  (player_id, r₃) ← read_u8 r₂
  r₄ ← if not (player_id == 255) then skip 1 r₃ else some r₃
  read_armies n r₄

-- The header, and what the connection still delivers.
unfoldable pub do_from_connection : Bytes → Option (ReplayHeader × Bytes)
do_from_connection bytes = do
  r₁ ← read_until_exact 0 (record { data_read = []; left = bytes })
  r₂ ← skip 3 r₁
  r₃ ← read_until_exact 0 r₂
  r₄ ← skip 4 r₃
  (mod_data_size, r₅) ← read_u32_le r₄
  r₆ ← skip mod_data_size r₅
  (scenario_info_size, r₇) ← read_u32_le r₆
  r₈ ← skip scenario_info_size r₇
  (player_count, r₉) ← read_u8 r₈
  p ← read_players player_count r₉
  (_, q₁) ← read_u8 p
  (army_count, q₂) ← read_u8 q₁
  a ← read_armies army_count q₂
  (_, last) ← read_u32_le a
  some (record { bytes = last.data_read }, last.left)

-- `take(MAX_SIZE)`: the reader ends after so many bytes; the others stay in the connection.
unfoldable pub from_connection : Bytes → Option (ReplayHeader × Bytes)
from_connection c = do
  (header, left) ← do_from_connection (take max_size c)
  some (header, left ++ drop max_size c)
