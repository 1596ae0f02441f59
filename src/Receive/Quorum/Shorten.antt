-- ===== src/Receive/Quorum/Shorten.antt =====
-- The loop of `calculate_quorum_prefix`, against the common prefix of the replays that it compares.
use mathlib.Core.Path.{subst}
use faf_rust_replayserver.Base.{
  Bytes, ℕ, ◌+◌, ◌≤◌, ◌<◌, ◌≡◌, refl, sym, ap, ◌∙◌, ◌⊎◌, inl, inr, true, false, List, [], ◌∷◌,
  Option, some, arith, length, get_elem?, All, ltb, ltb→lt, ltb→ge, ◌==◌, ==_iff, if◌then◌else◌,
  Bool-cases,
}
use faf_rust_replayserver.Util.BufDeque.Chunk.{as_chunked-Serves}
use faf_rust_replayserver.Util.ChunkedBuf.{max_cmp}
use faf_rust_replayserver.Util.ChunkedBuf.Prefix.{
  Agree, Differ, Compared, common_prefix_from_to-Compares,
}
use faf_rust_replayserver.Receive.Sets.{contains}
use faf_rust_replayserver.Receive.State.{ReplayState, SharedState, common_prefix_from_to}
use faf_rust_replayserver.Receive.State.Compare.{Live, window-le}
use faf_rust_replayserver.Receive.Quorum.{shorten_prefix}

-- A replay that the quorum can merge from position `n` on.
abbrev pub Good : (ℕ → Bytes) → ℕ → SharedState → ℕ → Type 0
Good H n s id =
    (rs : ReplayState) × (s.replays id ≡ some rs) × Live (H id) n rs × (n ≤ length (H id))

Agree-le : (g h : Bytes) (a b c : ℕ) → c ≤ b → Agree g h a b → Agree g h a c
Agree-le g h a b c le f i lo hi = f i lo (omega arith)

-- How many of some replays are not the shortest.
abbrev pub others : ℕ → List ℕ → ℕ
others s [] = 0
others s (id ∷ ids) = (if id == s then 0 else 1) + others s ids

others-le : (s : ℕ) (ids : List ℕ) → others s ids ≤ length ids
others-le s [] = omega arith
others-le s (id ∷ ids) = elim (Bool-cases (id == s)) [
  | inl same ↦ rw same (omega (arith, others-le s ids))
  | inr other ↦ rw other (omega (arith, others-le s ids))
]

pub others-lt : (s : ℕ) (ids : List ℕ) → contains ids s ≡ true → others s ids < length ids
unfolding contains
others-lt s [] e = absurd (ground arith)
others-lt s (id ∷ ids) e = elim (Bool-cases (id == s)) [
  | inl same ↦ rw same (omega (arith, others-le s ids))
  | inr other ↦ rw other (omega (arith, others-lt s ids (ground arith)))
]

in_rest : (id j : ℕ) (ids : List ℕ) → contains ids j ≡ true → contains (id ∷ ids) j ≡ true
unfolding contains
in_rest id j ids e = ground arith

in_first : (id : ℕ) (ids : List ℕ) → contains (id ∷ ids) id ≡ true
unfolding contains
in_first id ids = ground arith

module _ (H : ℕ → Bytes) (n : ℕ) (s : SharedState) (shortest_id : ℕ) (shortest : ReplayState)
    (live : Live (H shortest_id) n shortest) where
  abbrev h : Bytes
  h = H shortest_id

  -- One more replay: what the common prefix `m` becomes, when the position becomes `r`.
  record Cut (id cp m r : ℕ) : Type 0 where
    cut : ℕ
    from : n ≤ cut
    shorter : cut ≤ m
    reached : cut ≤ r
    hi : r ≤ length h
    agree : Agree h (H id) n cut
    stop : (cut ≡ m) ⊎ Differ h (H id) cut
    exact : cp ≡ length h → m ≡ length h → r ≡ cut

  Compared-Cut :
      (id cp m limit r : ℕ)
      → Compared h (H id) n limit r
      → cp ≤ limit
      → n ≤ m
      → m ≤ cp
      → cp ≤ length h
      → Cut id cp m r
  Compared-Cut id cp m limit r x full from le within = elim (Bool-cases (ltb r m)) [
    | inr ge ↦ record {
      cut = m;
      from = from;
      shorter = omega arith;
      reached = ltb→ge r m ge;
      hi = hi;
      agree = Agree-le h (H id) n r m (ltb→ge r m ge) x.agree;
      stop = inl refl;
      exact = λ e f. omega (arith, hi, ltb→ge r m ge, f);
    }
    | inl lt ↦ record {
      cut = r;
      from = x.from;
      shorter = omega (arith, ltb→lt r m lt);
      reached = omega arith;
      hi = hi;
      agree = x.agree;
      stop = inr (differ x.stop (ltb→lt r m lt));
      exact = λ e f. refl;
    }
  ]
    where
      hi : r ≤ length h
      hi = grind (arith, x.within)

      differ : (limit ≤ r) ⊎ Differ h (H id) r → r < m → Differ h (H id) r
      differ (inl past) lt = absurd (omega arith)
      differ (inr d) lt = d

  -- The loop, from the position `cp` and the common prefix `m` of the replays before.
  pub record Shortened (ids : List ℕ) (cp m cp' : ℕ) : Type 0 where
    pub agreed : ℕ
    pub from : n ≤ agreed
    pub shorter : agreed ≤ m
    pub reached : agreed ≤ cp'
    pub hi : cp' ≤ length h
    pub agree : All (λ id. Agree h (H id) n agreed) ids
    pub stop : (agreed ≡ m) ⊎ ((id : ℕ) × (contains ids id ≡ true) × Differ h (H id) agreed)
    pub none_else : others shortest_id ids ≡ 0 → (cp' ≡ cp) × (agreed ≡ m)
    pub one_else : others shortest_id ids ≤ 1 → cp ≡ length h → m ≡ length h → cp' ≡ agreed

  abbrev pub Shortens : List ℕ → ℕ → ℕ → Option ℕ → Type 0
  Shortens ids cp m o = (cp' : ℕ) × (o ≡ some cp') × Shortened ids cp m cp'

  compare_one :
      (id cp m : ℕ) (rs : ReplayState)
      → n ≤ m
      → m ≤ cp
      → cp ≤ length h
      → length h ≤ length (H id)
      → Live (H id) n rs
      → (r : ℕ) × (common_prefix_from_to shortest rs n (some cp) ≡ some r) × Cut id cp m r
  unfolding common_prefix_from_to max_cmp
  compare_one id cp m rs from le hi least l =
      let (r, run, x) =
        common_prefix_from_to-Compares _ _ _ _ h (H id) (as_chunked-Serves live.holds.rep)
          (as_chunked-Serves l.holds.rep) n (some cp) (window-le live) (window-le l) in
      (
        r,
        run,
        Compared-Cut id cp m _ r x (omega (arith, live.holds.rep.end, l.holds.rep.end)) from le hi,
      )

  same_then :
      (ids : List ℕ) (id cp m : ℕ)
      → (id == shortest_id) ≡ true
      → Shortens ids cp m (shorten_prefix s shortest_id shortest n cp ids)
      → Shortens (id ∷ ids) cp m (shorten_prefix s shortest_id shortest n cp (id ∷ ids))
  unfolding shorten_prefix
  same_then ids id cp m same (cp', run, x) = (
    cp',
    rw same run,
    record {
      agreed = x.agreed;
      from = x.from;
      shorter = x.shorter;
      reached = x.reached;
      hi = x.hi;
      agree =
          (λ i lo hi. ap (λ k. get_elem? (H k) i) (sym ((==_iff id shortest_id).0 same)), x.agree);
      stop = elim x.stop [ inl e ↦ inl e | inr (j, q, d) ↦ inr (j, in_rest id j ids q, d) ];
      none_else = rw same (λ e. x.none_else (omega arith));
      one_else = rw same (λ e f g. x.one_else (omega arith) f g);
    },
  )

  other_then :
      (ids : List ℕ) (id cp m r : ℕ) (rs : ReplayState)
      → s.replays id ≡ some rs
      → (id == shortest_id) ≡ false
      → common_prefix_from_to shortest rs n (some cp) ≡ some r
      → (k : Cut id cp m r) → Shortens ids r k.cut (shorten_prefix s shortest_id shortest n r ids)
      → Shortens (id ∷ ids) cp m (shorten_prefix s shortest_id shortest n cp (id ∷ ids))
  unfolding shorten_prefix
  other_then ids id cp m r rs got other cmp k (cp', run, x) = (
    cp',
    rw (other, got, cmp, run),
    record {
      agreed = x.agreed;
      from = x.from;
      shorter = omega (arith, x.shorter, k.shorter);
      reached = x.reached;
      hi = x.hi;
      agree = (Agree-le h (H id) n k.cut x.agreed x.shorter k.agree, x.agree);
      stop = stops x.stop k.stop;
      none_else = rw other (λ e. absurd (omega arith));
      one_else =
          rw other (λ e f g. let (e₁, e₂) = x.none_else (omega arith) in e₁ ∙ k.exact f g ∙ sym e₂);
    },
  )
    where
      stops :
          (x.agreed ≡ k.cut) ⊎ ((j : ℕ) × (contains ids j ≡ true) × Differ h (H j) x.agreed)
          → (k.cut ≡ m) ⊎ Differ h (H id) k.cut
          → (x.agreed ≡ m) ⊎ ((j : ℕ) × (contains (id ∷ ids) j ≡ true) × Differ h (H j) x.agreed)
      stops (inr (j, q, d)) _ = inr (j, in_rest id j ids q, d)
      stops (inl e) (inl f) = inl (e ∙ f)
      stops (inl e) (inr d) = inr (id, in_first id ids, subst (Differ h (H id)) (sym e) d)

  pub shorten_prefix-Shortens :
      (ids : List ℕ) (cp m : ℕ)
      → n ≤ m
      → m ≤ cp
      → cp ≤ length h
      → All (λ id. Good H n s id × (length h ≤ length (H id))) ids
      → Shortens ids cp m (shorten_prefix s shortest_id shortest n cp ids)
  unfolding shorten_prefix
  shorten_prefix-Shortens [] cp m from le hi a = (
    cp,
    refl,
    record {
      agreed = m;
      from = from;
      shorter = omega arith;
      reached = le;
      hi = hi;
      agree = tt;
      stop = inl refl;
      none_else = λ e. (refl, refl);
      one_else = λ e f g. f ∙ sym g;
    },
  )
  shorten_prefix-Shortens (id ∷ ids) cp m from le hi a = elim (Bool-cases (id == shortest_id)) [
    | inl same ↦ same_then ids id cp m same (shorten_prefix-Shortens ids cp m from le hi a.1)
    | inr other ↦
        let ((rs, got, l, _), least) = a.0 in
        let (r, run, k) = compare_one id cp m rs from le hi least l in
        other_then ids id cp m r rs got other run k
          (shorten_prefix-Shortens ids r k.cut k.from k.reached k.hi a.1)
  ]
