-- ===== src/Util/BufDeque/Write.antt =====
-- `write_all`, and the data that a deque stands for.
use mathlib.Core.Path.{subst}
use faf_rust_replayserver.Base.{
  Bytes, false, ℕ, zero, suc, ◌≤◌, ◌≡◌, refl, sym, ap, ◌∙◌, [], ◌∷◌, ◌++◌, Option, some, arith,
  length, take, drop, length-drop, append-nil, ◌==◌, append_assoc, take-append-drop,
}
use faf_rust_replayserver.Util.BufDeque.{BufDeque, append_some, write_rounds, write_all}
use faf_rust_replayserver.Util.BufDeque.Rep.{Rep}
use faf_rust_replayserver.Util.BufDeque.Append.{Appended, Appends, append_some-Appends}

-- The deque took all of `buf`, and its window starts where it did.
abbrev pub Writes : BufDeque → Bytes → Bytes → Option BufDeque → Type 0
Writes d h buf r =
    (d' : BufDeque) × (r ≡ some d') × Rep d' (h ++ buf) × (d'.discarded_chunks ≡ d.discarded_chunks)

Writes-after :
    (d : BufDeque) (h buf : Bytes) (n : ℕ) (d' : BufDeque) (r : Option BufDeque)
    → Appended d h buf n d'
    → Writes d' (h ++ take n buf) (drop n buf) r
    → Writes d h buf r
Writes-after d h buf n d' r a (d'', run, rep, same) = (
  d'',
  run,
  subst (Rep d'') (append_assoc h (take n buf) (drop n buf) ∙ ap (◌++◌ h) (take-append-drop n buf))
      rep,
  same ∙ a.same_start,
)

write_round :
    (fuel : ℕ) (d : BufDeque) (h : Bytes) (b : ℕ) (bs : Bytes)
    → Appends d h (b ∷ bs) (append_some d (b ∷ bs))
    → ((n : ℕ) (d' : BufDeque)
        → Appended d h (b ∷ bs) n d'
        → Writes d'
            (h ++ take n (b ∷ bs))
            (drop n (b ∷ bs))
            (write_rounds fuel d' (drop n (b ∷ bs))))
    → Writes d h (b ∷ bs) (write_rounds (suc fuel) d (b ∷ bs))
unfolding write_rounds
write_round fuel d h b bs (n, d', run, a) later =
    let pos : (n == 0) ≡ false = ground (arith, a.progress (omega arith)) in
    rw (run, pos) (Writes-after d h (b ∷ bs) n d' _ a (later n d' a))

write_rounds-Writes :
    (fuel : ℕ) (d : BufDeque) (h buf : Bytes)
    → Rep d h
    → length buf ≤ fuel
    → Writes d h buf (write_rounds fuel d buf)
unfolding write_rounds
write_rounds-Writes fuel d h [] r enough = (d, refl, subst (Rep d) (sym (append-nil h)) r, refl)
write_rounds-Writes zero d h (b ∷ bs) r enough = absurd (omega arith)
write_rounds-Writes (suc fuel) d h (b ∷ bs) r enough =
    write_round fuel d h b bs (append_some-Appends d h (b ∷ bs) r) λ n d' a.
      write_rounds-Writes fuel d' _ (drop n (b ∷ bs)) a.rep
        (omega (arith, length-drop n (b ∷ bs), a.progress (omega arith)))

-- Writing `buf` to a deque that stands for the data `h` succeeds, and the deque then stands for
-- `h` followed by `buf`, whatever part of either was discarded; the start of the window does not
-- move.
pub write_all-Writes : (d : BufDeque) (h buf : Bytes) → Rep d h → Writes d h buf (write_all d buf)
unfolding write_all
write_all-Writes d h buf r = write_rounds-Writes (length buf) d h buf r (omega arith)
