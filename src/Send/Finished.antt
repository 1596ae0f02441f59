-- ===== src/Send/Finished.antt =====
-- The copy of a finished replay.
use mathlib.Core.Bool.{false≢true}
use faf_rust_replayserver.Base.{
  Bytes, ℕ, zero, suc, ◌+◌, ◌-◌, ◌≤◌, ◌<◌, ◌≡◌, sym, ap, ap₂, ◌∙◌, inl, inr, Bool, true, [], ◌∷◌,
  ◌++◌, Option, some, arith, length, take, drop, replicate, take-append-drop, drop-drop,
  drop-eq-nil,
}
use faf_rust_replayserver.Util.ChunkedBuf.Chunks.{slice}
use faf_rust_replayserver.Streams.MergedReplay.{MergedReplay}
use faf_rust_replayserver.Streams.MergedReplay.Laws.{Holds}
use faf_rust_replayserver.Streams.MergedReplay.Read.{visible, poll_read-cases}
use faf_rust_replayserver.Send.{written, copy}

written-cons :
    (b : ℕ) (bs rest all : Bytes) (o : Option (Bytes × Bool))
    → o ≡ some (rest, true)
    → b ∷ bs ++ rest ≡ all
    → written (some (b ∷ bs)) o ≡ some (all, true)
unfolding written
written-cons b bs rest all o e f = rw e (ap (λ a. some (a, true)) f)

module _ (task room : ℕ) (some_room : 1 ≤ room) (m : MergedReplay) (c : Bytes) (h : Holds m c)
    (over : m.finished ≡ true) where
  pub copy-finished :
      (n position : ℕ)
      → position ≤ length (visible m c)
      → length (visible m c) < position + n
      → copy task room position (replicate n m) ≡ some (drop position (visible m c), true)
  unfolding copy replicate
  copy-finished zero position le enough = absurd (omega arith)
  copy-finished (suc n) position le enough = elim (poll_read-cases m c h position task room) [
    | inl (bytes, got, lt, cut, fits, least, within) ↦ rw got (
        copies bytes cut (omega arith)
          (copy-finished n (position + length bytes) within (omega arith)))
    | inr (inl (got, past, _)) ↦ rw got (at_end (drop-eq-nil position (visible m c) past))
    | inr (inr (got, past, running)) ↦ absurd (false≢true (sym running ∙ over))
  ]
    where
      at_end :
          drop position (visible m c) ≡ []
          → written (some []) (copy task room position (replicate n m))
            ≡ some (drop position (visible m c), true)
      at_end e = unfold written in ap (λ a. some (a, true)) (sym e)

      copies :
          (bytes : Bytes)
          → bytes ≡ slice (visible m c) position (position + length bytes)
          → 1 ≤ length bytes
          → copy task room (position + length bytes) (replicate n m)
            ≡ some (drop (position + length bytes) (visible m c), true)
          → written (some bytes) (copy task room (position + length bytes) (replicate n m))
            ≡ some (drop position (visible m c), true)
      copies [] cut some_bytes later = absurd (omega arith)
      copies (b ∷ bs) cut some_bytes later =
          let k = length (b ∷ bs) in
          let count : position + k - position ≡ k = omega arith in
          let first : b ∷ bs ≡ take k (drop position (visible m c)) =
            cut ∙ ap (λ i. take i (drop position (visible m c))) count in
          let rest : drop (position + k) (visible m c) ≡ drop k (drop position (visible m c)) =
            sym (drop-drop k position (visible m c)) in
          written-cons b bs (drop (position + k) (visible m c)) (drop position (visible m c)) _
            later (ap₂ ◌++◌ first rest ∙ take-append-drop k (drop position (visible m c)))
