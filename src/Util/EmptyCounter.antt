-- ===== src/Util/EmptyCounter.antt =====
-- util/empty_counter.rs. The `watch` channel is the number that it holds; what a waiter can be woken by
-- is a sequence of happenings. An underflow is `none`.
pub mod Laws
use faf_rust_replayserver.Base.{
  ℕ, ◌+◌, ◌-◌, Bool, true, false, List, [], ◌∷◌, Option, none, some, leb, ◌==◌, if◌then◌else◌,
  ◌>>=◌, ◌>>◌, assert,
}

pub record EmptyCounter : Type 0 where
  pub counter : ℕ

unfoldable pub new : EmptyCounter
new = record { counter = 0 }

unfoldable pub inc : EmptyCounter → EmptyCounter
inc c = record { counter = c.counter + 1 }

unfoldable pub dec : EmptyCounter → Option EmptyCounter
dec c = do assert (leb 1 c.counter); some (record { counter = c.counter - 1 })

-- What happens while a waiter waits: another count is sent, and the waiter runs and sees it; one is
-- sent before the waiter runs again; the sender is dropped; or the waiter runs since the timeout of
-- its `sleep` passed, which it does before it looks at an unseen count.
pub data Wakeup : Type 0 where
  changed unseen : ℕ → Wakeup
  closed timed_out : Wakeup

-- `Some(*watcher.borrow()).filter(|c| *c != 0)`
abbrev pub nonzero : ℕ → Option ℕ
nonzero c = if c == 0 then none else some c

-- A turn of the loop of `wait_until_empty_for`, with the count that the channel holds: `none` ends it.
-- No `sleep` runs while the last count is not 0.
unfoldable pub turn : ℕ → ℕ → Wakeup → Option ℕ
turn held last_count (changed c) = some c
turn held last_count (unseen c) = some last_count
turn held last_count closed = none
turn held last_count timed_out = if last_count == 0 then nonzero held else some last_count

-- The count that the channel holds after a happening.
abbrev pub held_after : ℕ → Wakeup → ℕ
held_after held (changed c) = c
held_after held (unseen c) = c
held_after held closed = held
held_after held timed_out = held

-- `wait_until_empty_for`: the happenings that are left when it ends, or `none` if it still waits.
unfoldable pub wait_until_empty_for : ℕ → Option ℕ → List Wakeup → Option (List Wakeup)
wait_until_empty_for held none ws = some ws
wait_until_empty_for held (some last_count) [] = none
wait_until_empty_for held (some last_count) (w ∷ ws) =
    wait_until_empty_for (held_after held w) (turn held last_count w) ws

-- A waiter starts with the count that the channel holds.
abbrev pub wait : EmptyCounter → List Wakeup → Option (List Wakeup)
wait c ws = wait_until_empty_for c.counter (some c.counter) ws
