-- ===== src/Server/Errors.antt =====
-- error.rs, and the counter of served connections in metrics.rs.
use faf_rust_replayserver.Base.{
  ℕ, ◌+◌, Bytes, Bool, true, false, ◌≡◌, Option, none, some, if◌then◌else◌,
}

-- `std::io::ErrorKind`: the code tells the end of the input from the others.
pub data ErrorKind : Type 0 where
  unexpected_eof other : ErrorKind

pub data ConnectionError : Type 0 where
  no_data cannot_assign_to_replay : ConnectionError
  bad_data : Bytes → ConnectionError
  io : ErrorKind → ConnectionError

-- `ConnResult`
pub data ConnResult {ℓ} (A : Type ℓ) : Type ℓ where
  ok : A → ConnResult A
  err : ConnectionError → ConnResult A

unfoldable pub is_eof : ConnectionError → Bool
is_eof (io unexpected_eof) = true
is_eof (io other) = false
is_eof no_data = false
is_eof cannot_assign_to_replay = false
is_eof (bad_data what) = false

unfoldable pub is_no_data : ConnectionError → Bool
is_no_data no_data = true
is_no_data cannot_assign_to_replay = false
is_no_data (bad_data what) = false
is_no_data (io kind) = false

-- `?` on a `ConnResult`.
infixl 5 ◌>>=◌
abbrev pub ◌>>=◌ {ℓ κ} :
    {A : Type ℓ} {B : Type κ} → ConnResult A → (A → ConnResult B) → ConnResult B
ok a >>= f = f a
err e >>= f = err e

-- `ok_or`, and `map_err` after it.
abbrev pub ok_or {ℓ} : {A : Type ℓ} → Option A → ConnectionError → ConnResult A
ok_or (some a) e = ok a
ok_or none e = err e

-- `Result::err`
abbrev pub error_of {ℓ} : {A : Type ℓ} → ConnResult A → Option ConnectionError
error_of (ok a) = none
error_of (err e) = some e

-- A chain fails with an error only if one of its parts does.
pub bind-avoids {ℓ κ} :
    {A : Type ℓ} {B : Type κ} (m : ConnResult A) (f : A → ConnResult B) {e : ConnectionError}
    → (m ≡ err e → ⊥)
    → ((a : A) → f a ≡ err e → ⊥)
    → (m >>= f) ≡ err e
    → ⊥
bind-avoids (ok a) f hm hf h = hf a h
bind-avoids (err e') f hm hf h = hm cc

pub ok-avoids {ℓ} : {A : Type ℓ} (a : A) {e : ConnectionError} → ok a ≡ err e → ⊥
ok-avoids a h = cc

pub ok_or-avoids {ℓ} :
    {A : Type ℓ} (o : Option A) (what : Bytes) → ok_or o (bad_data what) ≡ err no_data → ⊥
ok_or-avoids (some a) what h = cc
ok_or-avoids none what h = cc

-- The label of `inc_served_conns`.
pub data Label : Type 0 where
  success empty_connection bad io_error no_replay_matched : Label

unfoldable pub served_label : Option ConnectionError → Label
served_label none = success
served_label (some no_data) = empty_connection
served_label (some (bad_data what)) = bad
served_label (some (io kind)) = io_error
served_label (some cannot_assign_to_replay) = no_replay_matched

-- `SERVED_CONNS`, by its label.
abbrev pub Served : Type 0
Served = Label → ℕ

abbrev pub same_label : Label → Label → Bool
same_label success success = true
same_label empty_connection empty_connection = true
same_label bad bad = true
same_label io_error io_error = true
same_label no_replay_matched no_replay_matched = true
same_label _ _ = false

unfoldable pub inc_served_conns : Served → Option ConnectionError → Served
inc_served_conns served res l = if same_label (served_label res) l then served l + 1 else served l
