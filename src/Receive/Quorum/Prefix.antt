-- ===== src/Receive/Quorum/Prefix.antt =====
-- `calculate_quorum_prefix`, against the common prefix of the replays of a quorum.
use mathlib.Core.Path.{subst}
use faf_rust_replayserver.Base.{
  Bytes, ℕ, ◌≤◌, ◌<◌, ◌≡◌, refl, sym, ap, ◌∙◌, ◌⊎◌, inl, inr, true, List, [], ◌∷◌, Option, some,
  arith, length, All, ltb, ltb→lt, ltb→ge, Bool-cases,
}
use faf_rust_replayserver.Util.ChunkedBuf.Prefix.{Agree, Differ}
use faf_rust_replayserver.Streams.WriterReplay
use faf_rust_replayserver.Receive.Sets.{contains}
use faf_rust_replayserver.Receive.Sets.Laws.{All-map, each_contained, contains-All}
use faf_rust_replayserver.Receive.State.{canon_data_len}
use faf_rust_replayserver.Receive.Quorum.{
  MergeQuorumState, keyed, min_by_key, calculate_quorum_prefix,
}
use faf_rust_replayserver.Receive.Quorum.Keys.{ids_of, KeyOf, keyed-Keys, Least, min_by_key-Least}
use faf_rust_replayserver.Receive.Quorum.Shorten.{Good, others-lt, shorten_prefix-Shortens}

-- The exact common prefix of some replays from `n` on, and the position `cp` up to which the quorum
-- merges: no less than the common prefix, and exactly it for at most two replays.
pub record Common (H : ℕ → Bytes) (n : ℕ) (quorum : List ℕ) (cp : ℕ) : Type 0 where
  pub shortest : ℕ
  pub of_quorum : contains quorum shortest ≡ true
  pub least : All (λ id. length (H shortest) ≤ length (H id)) quorum
  pub agreed : ℕ
  pub from : n ≤ agreed
  pub agree : All (λ id. Agree (H shortest) (H id) n agreed) quorum
  pub stop :
      (agreed ≡ length (H shortest))
      ⊎ ((id : ℕ) × (contains quorum id ≡ true) × Differ (H shortest) (H id) agreed)
  pub reached : agreed ≤ cp
  pub exact : (cp ≡ agreed) ⊎ (2 < length quorum)
  pub within : All (λ id. cp ≤ length (H id)) quorum

-- The prefix that the quorum agrees to merge.
abbrev pub Prefixes : (ℕ → Bytes) → ℕ → List ℕ → Option ℕ → Type 0
Prefixes H n quorum o = (cp : ℕ) × (o ≡ some cp) × Common H n quorum cp

module _ (H : ℕ → Bytes) (me : MergeQuorumState)
    (good : All (Good H (canon_data_len me.s) me.s) me.quorum) (pos : 0 < length me.quorum) where
  -- A pair of a replay and its length.
  abbrev Usable : ℕ → Type 0
  Usable id = Good H (canon_data_len me.s) me.s id × (contains me.quorum id ≡ true)

  usable : All Usable me.quorum
  usable = each_contained _ me.quorum λ id e. (contains-All _ me.quorum id good e, e)

  abbrev LengthOf : ℕ × ℕ → Type 0
  LengthOf p = Usable p.1 × (p.0 ≡ length (H p.1))

  key_length : (p : ℕ × ℕ) → Usable p.1 → KeyOf WriterReplay.data_len me.s p → LengthOf p
  key_length p ((rs, got, l, long), q) (rs', got', e) =
      (((rs, got, l, long), q), e ∙ ap (λ r. r.r.content.window_end) same ∙ l.holds.rep.end)
    where
      same : rs' ≡ rs
      same = cc

  lengths :
      (pairs : List (ℕ × ℕ))
      → All (KeyOf WriterReplay.data_len me.s) pairs
      → All Usable (ids_of pairs)
      → All LengthOf pairs
  lengths [] k g = tt
  lengths (p ∷ pairs) k g = (key_length p g.0 k.0, lengths pairs k.1 g.1)

  below :
      (cp : ℕ) (pairs : List (ℕ × ℕ))
      → All LengthOf pairs
      → All (λ p. cp ≤ p.0) pairs
      → All (λ id. cp ≤ length (H id)) (ids_of pairs)
  below cp [] l a = tt
  below cp (p ∷ pairs) l a = (omega (arith, l.0.1, a.0), below cp pairs l.1 a.1)

  shortest_found :
      (pairs : List (ℕ × ℕ))
      → keyed WriterReplay.data_len me.s me.quorum ≡ some pairs
      → ids_of pairs ≡ me.quorum
      → All LengthOf pairs
      → Least LengthOf pairs (min_by_key pairs)
      → Prefixes H (canon_data_len me.s) me.quorum (calculate_quorum_prefix me)
  unfolding calculate_quorum_prefix
  shortest_found pairs run e l ((len, id), least, (((rs, got, live, long), q), len_eq), all) =
      let shorter = subst (All (λ j. length (H id) ≤ length (H j))) e (
        below (length (H id)) pairs l
          (All-map _ _ pairs (λ p le. omega (arith, le, len_eq)) all)) in
      let (cp, run', x) =
        shorten_prefix-Shortens H (canon_data_len me.s) me.s id rs live me.quorum
          (WriterReplay.data_len rs.r) (length (H id)) long (omega (arith, live.holds.rep.end))
          (omega (arith, live.holds.rep.end))
          (each_contained _ me.quorum
            λ j e. (contains-All _ me.quorum j good e, contains-All _ me.quorum j shorter e)) in
      (
        cp,
        simp (run, least, got, run'),
        record {
          shortest = id;
          of_quorum = q;
          least = shorter;
          agreed = x.agreed;
          from = x.from;
          agree = x.agree;
          stop = x.stop;
          reached = x.reached;
          exact = elim (Bool-cases (ltb 2 (length me.quorum))) [
            | inl many ↦ inr (ltb→lt _ _ many)
            | inr few ↦ inl (
                x.one_else (omega (arith, others-lt id me.quorum q, ltb→ge _ _ few))
                  (live.holds.rep.end) refl)
          ];
          within = All-map _ _ me.quorum (λ j le. omega (arith, le, x.hi)) shorter;
        },
      )

  -- For a quorum that is not empty, of replays that are live and at least as long as the canonical
  -- replay, the prefix is computed without a panic. From the canonical length on, all replays of
  -- the quorum agree with a shortest of them up to some position at which that one ends or one
  -- differs from it; the prefix is at least this position, it is this position if the quorum has
  -- at most two replays, and it is at most the length of every replay of the quorum.
  pub calculate_quorum_prefix-Prefixes :
      Prefixes H (canon_data_len me.s) me.quorum (calculate_quorum_prefix me)
  calculate_quorum_prefix-Prefixes =
      let (pairs, run, e, k) =
        keyed-Keys WriterReplay.data_len me.s me.quorum
          (All-map _ _ me.quorum (λ id g. (g.0, g.1)) good) in
      let l = lengths pairs k (subst (All Usable) (sym e) usable) in
      shortest_found pairs run e l (min_by_key-Least LengthOf pairs (pos_pairs pairs e) l)
    where
      pos_pairs : (pairs : List (ℕ × ℕ)) → ids_of pairs ≡ me.quorum → 0 < length pairs
      pos_pairs [] e = omega (arith, ap length e)
      pos_pairs (p ∷ pairs) e = omega arith
