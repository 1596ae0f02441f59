-- ===== src/Save/Directory.antt =====
-- replay/save/directory.rs: `SavedReplayDirectory`. A path is the list of its components; the file
-- system is the list of its files, and which directories it refuses to make. A panic is `none`.
pub mod Digits
pub mod Laws
use faf_rust_replayserver.Base.{
  Bytes, ℕ, ◌+◌, ◌-◌, ◌^◌, Bool, true, false, ◌&&◌, ◌||◌, List, [], ◌∷◌, ◌++◌, Option, none, some,
  ltb, ◌==◌, if◌then◌else◌, ◌>>=◌, ◌>>◌, assert, length, take, drop, replicate,
}
use faf_rust_replayserver.Util.Text.{text, parse_u64, show_u64}

abbrev pub Path' : Type 0
Path' = List Bytes

pub record SavedReplayDirectory : Type 0 where
  pub root : Path'

unfoldable pub new : Path' → SavedReplayDirectory
new root = record { root = root }

-- `format!("{:0>10}", …)`
unfoldable pub pad : Bytes → Bytes
pad s = replicate (10 - length s) b'0' ++ s

-- `&s[start..end]`
unfoldable pub slice : ℕ → ℕ → Bytes → Bytes
slice start end s = drop start (take end s)

-- `x.parse::<i32>().unwrap().to_string()`, of a text without a minus sign.
unfoldable pub without_padding : Bytes → Option Bytes
without_padding x = do n ← parse_u64 x; assert (ltb n (2 ^ 31)); some (show_u64 n)

-- `fold` with `push`
unfoldable pub push_all : Path' → List Bytes → Option Path'
push_all p [] = some p
push_all p (x ∷ xs) = do d ← without_padding x; push_all (p ++ d ∷ []) xs

unfoldable pub replay_path : SavedReplayDirectory → ℕ → Option Path'
replay_path me replay_id =
    let padded_id = pad (show_u64 replay_id) in
    let digits = slice (length padded_id - 10) (length padded_id - 2) padded_id in
    push_all me.root
      (slice 0 2 digits ∷ slice 2 4 digits ∷ slice 4 6 digits ∷ slice 6 8 digits ∷ [])

-- Equality of paths.
unfoldable pub same_bytes : Bytes → Bytes → Bool
same_bytes [] [] = true
same_bytes [] (y ∷ ys) = false
same_bytes (x ∷ xs) [] = false
same_bytes (x ∷ xs) (y ∷ ys) = x == y && same_bytes xs ys

unfoldable pub same_path : Path' → Path' → Bool
same_path [] [] = true
same_path [] (y ∷ ys) = false
same_path (x ∷ xs) [] = false
same_path (x ∷ xs) (y ∷ ys) = same_bytes x y && same_path xs ys

unfoldable pub exists : Path' → List Path' → Bool
exists p [] = false
exists p (q ∷ qs) = same_path p q || exists p qs

-- The files with what is in them, and whether a directory can be made and a file can be opened.
pub record Files : Type 0 where
  pub paths : List Path'
  pub can_create_dir : Path' → Bool
  pub can_open : Path' → Bool

pub data Touched : Type 0 where
  io_error : Touched
  opened : Path' → Files → Touched

-- `create_dir_all`, and `open` with `create_new`.
unfoldable pub touch : Files → Path' → Path' → Touched
touch fs directory target =
    if fs.can_create_dir directory && fs.can_open target
    then if exists target fs.paths
      then io_error
      else opened target (record fs { paths = target ∷ fs.paths })
    else io_error

unfoldable pub touch_and_return_file : SavedReplayDirectory → Files → ℕ → Option Touched
touch_and_return_file me fs replay_id = do
  directory ← replay_path me replay_id
  let basename = show_u64 replay_id ++ text ".fafreplay"
  some (touch fs directory (directory ++ basename ∷ []))
