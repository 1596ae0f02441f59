-- ===== src/Util/BufDeque/Append.antt =====
-- `append_some`, and the data that a deque stands for.
use mathlib.Core.Path.{subst}
use faf_rust_replayserver.Base.{
  Bytes, false, ℕ, ◌+◌, ◌-◌, ◌*◌, ◌%◌, ◌≤◌, ◌<◌, ◌≡◌, refl, sym, ap, ◌∙◌, inl, inr, List, [], ◌∷◌,
  ◌++◌, Option, some, ◌>>=◌, arith, min, length, take, drop, concat, All, length-append,
  length-take, length-drop, length-concat, take-append_of_le, drop-append_of_le, append-nil,
  concat-append, All-append, Bool-cases, ◌==◌, ltb, append_assoc, drop-eq-nil, take-nil, take-add,
  ltb→lt, ltb→ge,
}
use faf_rust_replayserver.Util.BufDeque.{
  BufDeque, chunk_size, window_start, window_size, no_space_in_last_chunk, zeros, get_last_chunk,
  overwrite, modify_last, append_to_chunk, append_some,
}
use faf_rust_replayserver.Util.BufDeque.Rep.{
  Rep, Extended, Extends, modify_last-Extends, length-zeros,
}

abbrev used : BufDeque → ℕ
used d = d.window_end - window_start d

-- Chunks with room after the used part.
abbrev Room : BufDeque → Bytes → List Bytes → Type 0
Room d h cs =
    All (λ c. length c ≡ chunk_size) cs
    × (used d < length cs * chunk_size)
    × (length cs * chunk_size ≤ used d + chunk_size)
    × (take (used d) (concat cs) ≡ drop (window_start d) h)

new_chunk-Room :
    (d : BufDeque) (h : Bytes)
    → Rep d h
    → used d ≡ length d.chunks * chunk_size
    → Room d h (d.chunks ++ zeros ∷ [])
new_chunk-Room d h r full = (
  All-append _ d.chunks (zeros ∷ []) r.sizes (length-zeros, tt),
  omega (arith, length-append d.chunks (zeros ∷ [])),
  omega (arith, length-append d.chunks (zeros ∷ [])),
  ap (take (used d)) (concat-append d.chunks (zeros ∷ []))
      ∙ take-append_of_le (used d) (concat d.chunks) _
          (omega (arith, length-concat chunk_size d.chunks r.sizes))
      ∙ r.content,
)

old_chunk-Room :
    (d : BufDeque) (h : Bytes)
    → Rep d h
    → (used d == length d.chunks * chunk_size) ≡ false
    → Room d h d.chunks
old_chunk-Room d h r room = (r.sizes, grind (arith, r.enough), omega (arith, r.tight), r.content)

get_last_chunk-Room :
    (d : BufDeque) (h : Bytes)
    → Rep d h
    → window_start d ≤ d.window_end
    → (cs : List Bytes) × (get_last_chunk d ≡ some (record d { chunks = cs })) × Room d h cs
unfolding get_last_chunk no_space_in_last_chunk window_size
get_last_chunk-Room d h r ord = elim (Bool-cases (used d == length d.chunks * chunk_size)) [
  | inl full ↦ (d.chunks ++ zeros ∷ [], ground arith, new_chunk-Room d h r (ground arith))
  | inr room ↦ (d.chunks, ground arith, old_chunk-Room d h r room)
]

-- The deque took the first `n` bytes of `buf`.
pub record Appended (d : BufDeque) (h buf : Bytes) (n : ℕ) (d' : BufDeque) : Type 0 where
  pub rep : Rep d' (h ++ take n buf)
  pub some_of : n ≤ length buf
  pub progress : 0 < length buf → 0 < n
  pub same_start : d'.discarded_chunks ≡ d.discarded_chunks

abbrev pub Appends : BufDeque → Bytes → Bytes → Option (ℕ × BufDeque) → Type 0
Appends d h buf r = (n : ℕ) × (d' : BufDeque) × (r ≡ some (n, d')) × Appended d h buf n d'

module _ (d : BufDeque) (h : Bytes) (cs : List Bytes) (end : d.window_end ≡ length h)
    (ord : window_start d ≤ d.window_end) (room : Room d h cs) where
  filled-Rep :
      (bytes : Bytes) (cs' : List Bytes) (written : ℕ)
      → written ≡ length bytes
      → 0 < written
      → d.window_end % chunk_size + written ≤ chunk_size
      → Extended cs (used d) bytes cs'
      → Rep (record d { chunks = cs'; window_end = d.window_end + written }) (h ++ bytes)
  filled-Rep bytes cs' written w pos fits (sizes, len, cont) = record {
    sizes = sizes;
    end = omega (arith, length-append h bytes);
    enough = omega arith;
    tight = omega arith;
    content =
        ap (λ k. take k (concat cs')) {x = d.window_end + written - window_start d} (omega arith)
        ∙ cont
        ∙ ap (λ t. t ++ bytes) room.3
        ∙ sym (drop-append_of_le (window_start d) h bytes (omega arith));
  }

  append_to_chunk-Appends :
      (b : ℕ) (bs : Bytes)
      → get_last_chunk d ≡ some (record d { chunks = cs })
      → Appends d h (b ∷ bs) (append_to_chunk d (b ∷ bs))
  unfolding append_to_chunk
  append_to_chunk-Appends b bs got =
      let offset = d.window_end % chunk_size in
      let written = min (chunk_size - offset) (length (b ∷ bs)) in
      finish written refl (
        modify_last-Extends cs (used d) offset (take written (b ∷ bs)) room.0 (omega arith) room.1
          room.2 (omega (arith, length-take written (b ∷ bs))))
    where
      finish :
          (written : ℕ)
          → written ≡ min (chunk_size - (d.window_end % chunk_size)) (length (b ∷ bs))
          → Extends cs
              (used d)
              (take written (b ∷ bs))
              (modify_last (overwrite (d.window_end % chunk_size) (take written (b ∷ bs))) cs)
          → Appends d h (b ∷ bs) (append_to_chunk d (b ∷ bs))
      finish written e (cs', run, ext) = (
        written,
        record d { chunks = cs'; window_end = d.window_end + written },
        rw (got) (rw (← e) (rw run)),
        record {
          rep =
              filled-Rep (take written (b ∷ bs)) cs' written
                (omega (arith, length-take written (b ∷ bs))) (omega arith) (omega arith) ext;
          some_of = omega arith;
          progress = λ _. omega arith;
          same_start = refl;
        },
      )

append_to_chunk-Appends' :
    (d : BufDeque) (h buf : Bytes)
    → Rep d h
    → (0 < length buf → window_start d ≤ d.window_end)
    → Appends d h buf (append_to_chunk d buf)
unfolding append_to_chunk
append_to_chunk-Appends' d h [] r ord = (
  0,
  d,
  refl,
  record {
    rep = subst (Rep d) (sym (ap (◌++◌ h) (take-nil 0) ∙ append-nil h)) r;
    some_of = omega arith;
    progress = λ p. p;
    same_start = refl;
  },
)
append_to_chunk-Appends' d h (b ∷ bs) r ord =
    let (cs, got, room) = get_last_chunk-Room d h r (ord (omega arith)) in
    append_to_chunk-Appends d h cs r.end (ord (omega arith)) room b bs got

-- The bytes that fall before the window are only counted.
skipped-Rep :
    (d : BufDeque) (h bytes : Bytes) (k : ℕ)
    → Rep d h
    → d.window_end + length bytes ≤ window_start d
    → k ≡ d.window_end + length bytes
    → Rep (record d { window_end = k }) (h ++ bytes)
skipped-Rep d h bytes k r short e = record {
  sizes = r.sizes;
  end = omega (arith, length-append h bytes, r.end);
  enough = omega arith;
  tight = omega (arith, r.tight);
  content =
      ap (λ k. take k (concat d.chunks)) {x = k - window_start d} {y = 0} (omega arith)
      ∙ unfold take in
        sym
          (drop-eq-nil (window_start d) (h ++ bytes) (omega (arith, length-append h bytes, r.end)));
}

skip_append :
    (d : BufDeque) (h buf : Bytes) (skipped : ℕ) (r : Option (ℕ × BufDeque))
    → skipped ≤ length buf
    → (0 < length buf → 0 < skipped)
    → Appends
        (record d { window_end = d.window_end + skipped })
        (h ++ take skipped buf)
        (drop skipped buf)
        r
    → Appends d h buf (r >>= λ (written, d'). some (skipped + written, d'))
skip_append d h buf skipped r le pos (n, d', run, a) = (
  skipped + n,
  d',
  ap (λ m. m >>= λ (written, d''). some (skipped + written, d'')) run,
  record {
    rep =
        subst (Rep d')
          (append_assoc h (take skipped buf) _ ∙ ap (◌++◌ h) (sym (take-add skipped n buf))) a.rep;
    some_of = omega (arith, a.some_of, length-drop skipped buf);
    progress = λ p. omega (arith, pos p);
    same_start = a.same_start;
  },
)

pub append_some-Appends :
    (d : BufDeque) (h buf : Bytes) → Rep d h → Appends d h buf (append_some d buf)
unfolding append_some
append_some-Appends d h buf r = elim (Bool-cases (ltb d.window_end (window_start d))) [
  | inr inside ↦ rw inside (append_to_chunk-Appends' d h buf r (λ _. ltb→ge _ _ inside))
  | inl before ↦ rw before (
      let lt : d.window_end < window_start d = ltb→lt _ _ before in
      let skipped = min (window_start d - d.window_end) (length buf) in
      skip_append d h buf skipped _ (omega arith) (λ p. omega arith)
        (append_to_chunk-Appends' (record d { window_end = d.window_end + skipped })
          (h ++ take skipped buf) (drop skipped buf)
          (skipped-Rep d h (take skipped buf) (d.window_end + skipped) r
            (omega (arith, length-take skipped buf)) (omega (arith, length-take skipped buf)))
          (λ p. omega (arith, length-drop skipped buf))))
]
