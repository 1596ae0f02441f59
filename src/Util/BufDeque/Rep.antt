-- ===== src/Util/BufDeque/Rep.antt =====
-- What a `BufDeque` stands for: everything ever written to it, of which the discarded part is gone.
use faf_rust_replayserver.Base.{
  Bytes, ℕ, suc, ◌+◌, ◌-◌, ◌*◌, ◌%◌, ◌≤◌, ◌<◌, ◌≡◌, refl, sym, ap, ◌∙◌, List, [], ◌∷◌, ◌++◌, Option,
  some, ◌>>=◌, arith, length, take, drop, concat, All, length-append, length-take, length-drop,
  length-replicate, take-append_of_ge, append_assoc, append-nil, take-nil, drop-nil,
}
use faf_rust_replayserver.Util.BufDeque.{
  BufDeque, new, chunk_size, window_start, zeros, overwrite, modify_last,
}

-- `h` is all that was ever written. The chunks hold what lies in the window, and are no more than
-- it needs.
pub record Rep (d : BufDeque) (h : Bytes) : Type 0 where
  pub sizes : All (λ c. length c ≡ chunk_size) d.chunks
  pub end : d.window_end ≡ length h
  pub enough : d.window_end - window_start d ≤ length d.chunks * chunk_size
  pub tight : length d.chunks * chunk_size < d.window_end - window_start d + chunk_size
  pub content : take (d.window_end - window_start d) (concat d.chunks) ≡ drop (window_start d) h

pub length-zeros : length zeros ≡ chunk_size
unfolding zeros
length-zeros = length-replicate chunk_size 0

pub length-overwrite :
    (offset : ℕ) (bytes chunk : Bytes)
    → offset + length bytes ≤ length chunk
    → length (overwrite offset bytes chunk) ≡ length chunk
unfolding overwrite
length-overwrite offset bytes chunk h = omega (
  arith,
  length-append (take offset chunk) (bytes ++ drop (offset + length bytes) chunk),
  length-append bytes (drop (offset + length bytes) chunk),
  length-take offset chunk,
  length-drop (offset + length bytes) chunk,
)

-- The bytes before the overwritten ones stay, and those follow.
take-overwrite :
    (offset n : ℕ) (bytes chunk rest : Bytes)
    → offset ≤ length chunk
    → n ≡ offset + length bytes
    → take n (overwrite offset bytes chunk ++ rest) ≡ take offset chunk ++ bytes
unfolding overwrite
take-overwrite offset n bytes chunk rest h e =
    rw (append_assoc (take offset chunk), append_assoc bytes)
      (take-append_of_ge n (length bytes) (take offset chunk) _
          (omega (arith, length-take offset chunk))
        ∙ ap (◌++◌ (take offset chunk)) (
            take-append_of_ge (length bytes) 0 bytes _ (omega arith)
            ∙ unfold take in append-nil bytes))

one_chunk :
    (u : ℕ) (bytes c : Bytes)
    → u < chunk_size
    → length c ≡ chunk_size
    → take (u + length bytes) (overwrite u bytes c) ≡ take u c ++ bytes
one_chunk u bytes c lo e =
    ap (take (u + length bytes)) (sym (append-nil (overwrite u bytes c)))
    ∙ take-overwrite u (u + length bytes) bytes c [] (omega arith) refl

-- `cs'` is `cs` with the part used, `u` bytes, extended by `bytes`.
abbrev pub Extended : List Bytes → ℕ → Bytes → List Bytes → Type 0
Extended cs u bytes cs' =
    All (λ c. length c ≡ chunk_size) cs'
    × (length cs' ≡ length cs)
    × (take (u + length bytes) (concat cs') ≡ take u (concat cs) ++ bytes)

abbrev pub Extends : List Bytes → ℕ → Bytes → Option (List Bytes) → Type 0
Extends cs u bytes r = (cs' : List Bytes) × (r ≡ some cs') × Extended cs u bytes cs'

Extends-cons :
    (c : Bytes) (cs : List Bytes) (u v : ℕ) (bytes : Bytes) (r : Option (List Bytes))
    → length c ≡ chunk_size
    → u ≡ length c + v
    → Extends cs v bytes r
    → Extends (c ∷ cs) u bytes (r >>= λ rest. some (c ∷ rest))
unfolding concat
Extends-cons c cs u v bytes r size e (cs', run, (sizes, len, cont)) = (
  c ∷ cs',
  ap (λ m. m >>= λ rest. some (c ∷ rest)) run,
  (
    (size, sizes),
    ap suc len,
    take-append_of_ge (u + length bytes) (v + length bytes) c (concat cs') (omega arith)
        ∙ ap (◌++◌ c) cont
        ∙ sym (append_assoc c (take v (concat cs)) bytes)
        ∙ ap (λ t. t ++ bytes) (sym (take-append_of_ge u v c (concat cs) e)),
  ),
)

-- Writing into the last chunk at the end of the used part extends the used part.
pub modify_last-Extends :
    (cs : List Bytes) (u offset : ℕ) (bytes : Bytes)
    → All (λ c. length c ≡ chunk_size) cs
    → offset ≡ u % chunk_size
    → u < length cs * chunk_size
    → length cs * chunk_size ≤ u + chunk_size
    → offset + length bytes ≤ chunk_size
    → Extends cs u bytes (modify_last (overwrite offset bytes) cs)
unfolding modify_last concat
modify_last-Extends [] u offset bytes a o lo hi fits = absurd (omega arith)
modify_last-Extends (c ∷ []) u offset bytes a o lo hi fits = (
  overwrite offset bytes c ∷ [],
  refl,
  (
    (length-overwrite offset bytes c (omega arith) ∙ a.0, tt),
    refl,
    (let e : offset ≡ u = omega arith in simp (e, append-nil) (one_chunk u bytes c lo a.0)),
  ),
)
modify_last-Extends (c ∷ c' ∷ cs) u offset bytes a o lo hi fits =
    Extends-cons c (c' ∷ cs) u (u - chunk_size) bytes _ a.0 (omega arith) (
      modify_last-Extends (c' ∷ cs) (u - chunk_size) offset bytes a.1 (omega arith) (omega arith)
        (omega arith) fits)

pub new-Rep : Rep new []
unfolding new concat
new-Rep = record {
  sizes = tt;
  end = refl;
  enough = omega arith;
  tight = omega arith;
  content = take-nil 0 ∙ sym (drop-nil 0);
}
