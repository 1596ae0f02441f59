-- ===== src/Save/Directory/Laws.antt =====
-- The path of a replay by arithmetic on its id, and what touching its file does.
use faf_rust_replayserver.Base.{
  Bytes, ℕ, ◌+◌, ◌-◌, ◌*◌, ◌/◌, ◌%◌, ◌^◌, ◌≤◌, ◌<◌, ◌≡◌, ap, ◌∙◌, true, false, List, [], ◌∷◌, ◌++◌,
  map, append_assoc, some, arith, ◌==◌, ltb, length, length-append, take, drop, replicate,
  length-replicate, drop-take,
}
use faf_rust_replayserver.Util.Text.{show_u64, u64_mod, parse_u64, parse_digits}
use faf_rust_replayserver.Save.Directory.{
  Path', SavedReplayDirectory, pad, slice, without_padding, push_all, replay_path,
}
use faf_rust_replayserver.Save.Directory.Digits.{fixed, last-digits}
use faf_rust_replayserver.Util.Text.Laws.{push_digit-some}

-- Two digits of a number.
parse_two :
    (a b : ℕ) → a < 10 → b < 10 → parse_u64 ((b'0' + a) ∷ (b'0' + b) ∷ []) ≡ some (10 * a + b)
unfolding parse_u64 parse_digits
parse_two a b ha hb =
    let unsigned : (b'0' + a == b'+') ≡ false = ground arith in
    let first = push_digit-some 0 a ha (omega arith) in
    let second = push_digit-some (0 * 10 + a) b hb (omega arith) in
    rw unsigned (rw first (rw second (ap some (omega arith))))

two_digits :
    (a b n : ℕ)
    → a < 10
    → b < 10
    → 10 * a + b ≡ n
    → without_padding ((b'0' + a) ∷ (b'0' + b) ∷ []) ≡ some (show_u64 n)
unfolding without_padding
two_digits a b n ha hb e =
    let small : ltb (10 * a + b) (2 ^ 31) ≡ true = ground arith in
    rw (parse_two a b ha hb) (rw small (ap (λ k. some (show_u64 k)) e))

-- Of the padded id, the last ten digits but the last two.
padded_slice :
    (id : ℕ)
    → id < u64_mod
    → let p = pad (show_u64 id) in slice (length p - 10) (length p - 2) p ≡ take 8 (fixed 10 id)
unfolding slice pad
padded_slice id lt =
    let ds = show_u64 id in
    let p = pad ds in
    let zeros : Bytes = replicate (10 - length ds) b'0' in
    let zeros_long : length zeros ≡ 10 - length ds =
      length-replicate {A = ℕ} (10 - length ds) b'0' in
    let long : 10 ≤ length p = omega (arith, length-append zeros ds, zeros_long) in
    let eight : length p - 2 - (length p - 10) ≡ 8 = omega arith in
    drop-take (length p - 10) (length p - 2) p
    ∙ ap (λ n. take n (drop (length p - 10) p)) eight
    ∙ ap (take 8) (last-digits 20 10 id (omega arith))

-- The four numbers that the directories are named by.
abbrev pub groups : ℕ → List ℕ
groups id = id / 100_000_000 % 100 ∷ id / 1_000_000 % 100 ∷ id / 10_000 % 100 ∷ id / 100 % 100 ∷ []

push_four :
    (p : Path') (a b c d : Bytes) (a' b' c' d' : Bytes)
    → without_padding a ≡ some a'
    → without_padding b ≡ some b'
    → without_padding c ≡ some c'
    → without_padding d ≡ some d'
    → push_all p (a ∷ b ∷ c ∷ d ∷ []) ≡ some (p ++ a' ∷ b' ∷ c' ∷ d' ∷ [])
unfolding push_all
push_four p a b c d a' b' c' d' ea eb ec ed = rw (ea, eb, ec, ed) (ap some (simp append_assoc))

-- For every id, `replay_path` does not panic, and gives under the root the four groups of two
-- decimal digits that end before the last two digits of the id, each written as a number without
-- leading zeros: the quotients of the id by 10 ^ 8, 10 ^ 6, 10 ^ 4 and 100, modulo 100.
pub replay_path-groups :
    (me : SavedReplayDirectory) (id : ℕ)
    → id < u64_mod
    → replay_path me id ≡ some (me.root ++ map show_u64 (groups id))
unfolding replay_path take slice drop
replay_path-groups me id lt = rw (padded_slice id lt) (
    push_four me.root _ _ _ _ _ _ _ _ (two_digits _ _ _ (omega arith) (omega arith) (omega arith))
      (two_digits _ _ _ (omega arith) (omega arith) (omega arith))
      (two_digits _ _ _ (omega arith) (omega arith) (omega arith))
      (two_digits _ _ _ (omega arith) (omega arith) (omega arith)))
