-- ===== src/Send/Laws.antt =====
-- The copy of a replay while it is written.
use mathlib.Core.Bool.{false≢true}
use faf_rust_replayserver.Base.{
  Bytes, ℕ, ◌+◌, ◌-◌, ◌≤◌, ◌≡◌, refl, sym, ap, ap₂, ◌∙◌, inl, inr, Bool, true, false, List, [], ◌∷◌,
  ◌++◌, append-nil, append_assoc, Option, none, some, arith, length, length-append, length-drop,
  take, drop, take-zero, take-append_of_le, drop-append_of_le,
}
use faf_rust_replayserver.Util.ChunkedBuf.Chunks.{slice, slice-append}
use faf_rust_replayserver.Streams.MergedReplay.{MergedReplay}
use faf_rust_replayserver.Streams.MergedReplay.Laws.{Holds}
use faf_rust_replayserver.Streams.MergedReplay.Read.{visible, poll_read-cases}
use faf_rust_replayserver.Send.{written, copy, send_replay_to_connection}

-- A replay at the time of a poll, and the data that was merged by then.
abbrev pub Snapshot : Type 0
Snapshot = MergedReplay × Bytes

-- What may be seen at the last of the polls.
abbrev pub final : Bytes → List Snapshot → Bytes
final v [] = v
final v ((m, c) ∷ ss) = final (visible m c) ss

abbrev pub replays : List Snapshot → List MergedReplay
replays [] = []
replays ((m, c) ∷ ss) = m ∷ replays ss

-- What may be seen only grows, and not any more once the replay is finished.
abbrev pub Grows : Bytes → List Snapshot → Type 0
Grows v [] = Unit
Grows v ((m, c) ∷ ss) =
    Holds m c
    × ((more : Bytes) × (visible m c ≡ v ++ more))
    × (m.finished ≡ true → final (visible m c) ss ≡ visible m c)
    × Grows (visible m c) ss

Grows-final :
    (v : Bytes) (ss : List Snapshot) → Grows v ss → (more : Bytes) × (final v ss ≡ v ++ more)
Grows-final v [] g = ([], sym (append-nil v))
Grows-final v ((m, c) ∷ ss) (h, (more, e), f, g) =
    let (rest, e') = Grows-final (visible m c) ss g in
    (more ++ rest, e' ∙ ap (λ w. w ++ rest) e ∙ append_assoc v more rest)

-- What is written is the part of the final replay from the position on, and all of it if the copy
-- is over.
abbrev pub Sends : Bytes → ℕ → Option (Bytes × Bool) → Type 0
Sends f position o =
    (bs : Bytes) × (done : Bool) × (o ≡ some (bs, done))
    × (bs ≡ slice f position (position + length bs))
    × (position + length bs ≤ length f)
    × (done ≡ true → position + length bs ≡ length f)

slice-grows :
    (v more : Bytes) (a b : ℕ) → a ≤ b → b ≤ length v → slice (v ++ more) a b ≡ slice v a b
slice-grows v more a b le fits =
    let drops : drop a (v ++ more) ≡ drop a v ++ more = drop-append_of_le a v more (omega arith) in
    ap (take (b - a)) drops
    ∙ take-append_of_le (b - a) (drop a v) more (omega (arith, length-drop a v))

slice-empty : (v : Bytes) (a : ℕ) → [] ≡ slice v a (a + 0)
slice-empty v a =
    sym (ap (λ n. take n (drop a v)) {x = a + 0 - a} {y = 0} (omega arith) ∙ take-zero (drop a v))

module _ (task room : ℕ) (some_room : 1 ≤ room) where
  -- A poll that waits or ends writes nothing; one that copies goes before what later polls give.
  Sends-cons :
      (f : Bytes) (position : ℕ) (b : ℕ) (bs : Bytes) (o : Option (Bytes × Bool))
      → b ∷ bs ≡ slice f position (position + length (b ∷ bs))
      → Sends f (position + length (b ∷ bs)) o
      → Sends f position (written (some (b ∷ bs)) o)
  unfolding written
  Sends-cons f position b bs o e (rest, done, g, e', le, all) =
      let n = length-append (b ∷ bs) rest in
      (
        b ∷ bs ++ rest,
        done,
        rw g refl,
        ap₂ ◌++◌ e e'
            ∙ slice-append f position (position + length (b ∷ bs))
                (position + length (b ∷ bs) + length rest) (omega arith) (omega arith)
            ∙ ap (slice f position) (omega (arith, n)),
        omega (arith, n),
        λ d. omega (arith, n, all d),
      )

  Sends-none :
      (f : Bytes) (position : ℕ) (o : Option (Bytes × Bool))
      → Sends f position o
      → Sends f position (written none o)
  unfolding written
  Sends-none f position o s = s

  Sends-ends :
      (f : Bytes) (position : ℕ) (o : Option (Bytes × Bool))
      → position ≡ length f
      → Sends f position (written (some []) o)
  unfolding written
  Sends-ends f position o at_end =
      ([], true, refl, slice-empty f position, omega arith, λ d. omega arith)

  copy-Sends :
      (v : Bytes) (position : ℕ) (ss : List Snapshot)
      → position ≤ length v
      → Grows v ss
      → Sends (final v ss) position (copy task room position (replays ss))
  unfolding copy
  copy-Sends v position [] le g =
      ([], false, refl, slice-empty v position, omega arith, λ d. absurd (false≢true d))
  copy-Sends v position ((m, c) ∷ ss) le (h, (more, e), stays, g) =
      let seen = visible m c in
      let longer : length v ≤ length seen = omega (arith, length-append v more, ap length e) in
      elim (poll_read-cases m c h position task room) [
        | inl (bytes, got, lt, cut, fits, least, within) ↦ rw got (
            copies bytes cut (omega arith) within
              (copy-Sends seen (position + length bytes) ss within g))
        | inr (inl (got, past, over)) ↦
            rw got (Sends-ends (final seen ss) position _ (omega (arith, ap length (stays over))))
        | inr (inr (got, past, running)) ↦
            rw got
              (Sends-none (final seen ss) position _ (copy-Sends seen position ss (omega arith) g))
      ]
    where
      copies :
          (bytes : Bytes)
          → bytes ≡ slice (visible m c) position (position + length bytes)
          → 1 ≤ length bytes
          → position + length bytes ≤ length (visible m c)
          → Sends
              (final (visible m c) ss)
              (position + length bytes)
              (copy task room (position + length bytes) (replays ss))
          → Sends
              (final (visible m c) ss)
              position
              (written (some bytes) (copy task room (position + length bytes) (replays ss)))
      copies [] cut some_bytes within s = absurd (omega arith)
      copies (b ∷ bs) cut some_bytes within s =
          let (rest, f) = Grows-final (visible m c) ss g in
          Sends-cons (final (visible m c) ss) position b bs _
            (cut
              ∙ sym (
                  slice-grows (visible m c) rest position (position + length (b ∷ bs)) (omega arith)
                    within)
              ∙ ap (λ w. slice w position (position + length (b ∷ bs))) (sym f))
            s

-- While the replay is written, what a connection was sent is always the beginning of the header
-- and the delayed data as they are at the last poll, without a gap, and it is all of them once the
-- sending is over. The buffer has room, and what may be seen only grows, and not after the replay
-- is finished.
pub send_replay_to_connection-Sends :
    (task room : ℕ) (ss : List Snapshot)
    → 1 ≤ room
    → Grows [] ss
    → Sends (final [] ss) 0 (send_replay_to_connection task room (replays ss))
unfolding send_replay_to_connection
send_replay_to_connection-Sends task room ss some_room g =
    copy-Sends task room some_room [] 0 ss (omega arith) g
