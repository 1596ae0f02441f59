-- ===== src/Util/BufDeque/Discard.antt =====
-- `discard`, and the data that a deque stands for.
use mathlib.Core.Path.{subst}
use faf_rust_replayserver.Base.{
  Bytes, ℕ, suc, ◌+◌, ◌-◌, ◌*◌, ◌/◌, ◌<◌, ◌≡◌, refl, sym, ap, ◌∙◌, max, List, [], ◌∷◌, arith, take,
  drop, concat, length-drop, drop-nil, drop-take, drop-drop, drop-concat, All-drop, ltb, ltb→lt,
  ltb→ge, Bool-cases, inl, inr,
}
use faf_rust_replayserver.Util.BufDeque.{
  BufDeque, chunk_size, window_start, pop_front_until, discard, len,
}
use faf_rust_replayserver.Util.BufDeque.Rep.{Rep}

-- The loop drops a chunk for each step up to `discardable`, as far as there are chunks.
pop_front_until_lem :
    (discardable discarded : ℕ) (cs : List Bytes)
    → let (cs', k) = pop_front_until discardable discarded cs in
      (cs' ≡ drop (max discardable discarded - discarded) cs)
      × (max discardable k ≡ max discardable discarded)
unfolding pop_front_until drop
pop_front_until_lem discardable discarded [] = (sym (drop-nil _), refl)
pop_front_until_lem discardable discarded (c ∷ cs) = elim (Bool-cases (ltb discarded discardable)) [
  | inr done ↦
      let k : max discardable discarded - discarded ≡ 0 = omega (arith, ltb→ge _ _ done) in
      rw (done, k) (refl, refl)
  | inl more ↦
      let lt : discarded < discardable = ltb→lt _ _ more in
      let ih = pop_front_until_lem discardable (discarded + 1) cs in
      let k : max discardable discarded - discarded
          ≡ suc (max discardable (discarded + 1) - (discarded + 1)) =
        omega arith in
      rw (more, k) (ih.0, ih.1 ∙ omega arith)
]

discard_lem :
    (d : BufDeque) (until : ℕ)
    → let k = max (until / chunk_size) d.discarded_chunks in
      discard d until
      ≡ record d { chunks = drop (k - d.discarded_chunks) d.chunks; discarded_chunks = k }
unfolding discard
discard_lem d until =
    let e = pop_front_until_lem (until / chunk_size) d.discarded_chunks d.chunks in rw (e.0, e.1)

discarded-Rep :
    (d : BufDeque) (h : Bytes) (n k : ℕ)
    → Rep d h
    → k ≡ d.discarded_chunks + n
    → Rep (record d { chunks = drop n d.chunks; discarded_chunks = k }) h
discarded-Rep d h n k r e = record {
  sizes = All-drop _ n d.chunks r.sizes;
  end = r.end;
  enough = omega (arith, length-drop n d.chunks, r.enough);
  tight = omega (arith, length-drop n d.chunks, r.tight);
  content =
      ap (take (d.window_end - k * chunk_size)) (sym (drop-concat chunk_size n d.chunks r.sizes))
      ∙ ap (λ m. take m (drop (n * chunk_size) (concat d.chunks)))
          {y = d.window_end - window_start d - n * chunk_size} (omega arith)
      ∙ sym (drop-take (n * chunk_size) (d.window_end - window_start d) (concat d.chunks))
      ∙ ap (drop (n * chunk_size)) r.content
      ∙ drop-drop (n * chunk_size) (window_start d) h
      ∙ ap (λ m. drop m h) {x = window_start d + n * chunk_size} {y = k * chunk_size} (omega arith);
}

-- Discarding up to any position, past the end included, leaves a deque that stands for the same
-- data.
pub discard-Rep : (d : BufDeque) (h : Bytes) (until : ℕ) → Rep d h → Rep (discard d until) h
discard-Rep d h until r =
    subst (λ d'. Rep d' h) (sym (discard_lem d until)) (discarded-Rep d h _ _ r (omega arith))

-- The window then starts at the last chunk border up to `until`, or where it was.
pub window_start-discard :
    (d : BufDeque) (until : ℕ)
    → window_start (discard d until) ≡ max (until / chunk_size * chunk_size) (window_start d)
window_start-discard d until = rw (discard_lem d until) (omega arith)

pub len-discard : (d : BufDeque) (until : ℕ) → len (discard d until) ≡ len d
len-discard d until = rw (discard_lem d until)
