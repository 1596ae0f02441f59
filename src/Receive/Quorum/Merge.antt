-- ===== src/Receive/Quorum/Merge.antt =====
-- `merge_more_data`, and the invariant of a quorum.
use faf_rust_replayserver.Receive.Quorum.Grow.{grow-SharedInv, Appends, append_canon_data-Appends}
use faf_rust_replayserver.Receive.Quorum.Discard.{Discards, discard_data_after_merging-Discards}
use mathlib.Core.Bool.{false≢true}
use mathlib.Core.Path.{subst}
use faf_rust_replayserver.Base.{
  Bytes, ℕ, ◌≤◌, ◌<◌, ◌≡◌, refl, sym, ap, ◌∙◌, true, ◌||◌, List, [], ◌∷◌, ◌++◌, Option, some, none,
  arith, length, length-append, All, ◌>>=◌, inl, inr,
}
use faf_rust_replayserver.Util.ChunkedBuf.Chunks.{slice, length-slice}
use faf_rust_replayserver.Streams.MergedReplay.{MergedReplay}
use faf_rust_replayserver.Receive.Sets.{contains}
use faf_rust_replayserver.Receive.Sets.Laws.{All-map, each_contained, contains-All}
use faf_rust_replayserver.Receive.State.{ReplayState, SharedState, append_canon_data}
use faf_rust_replayserver.Receive.Place.{
  Place, Headed, outside, reserved, member, candidate, SharedInv, find,
}
use faf_rust_replayserver.Receive.Stalemate.Inv.{is_member}
use faf_rust_replayserver.Receive.Quorum.{
  MergeQuorumState, calculate_quorum_prefix, discard_data_after_merging, update_delayed_position,
  merge_more_data,
}
use faf_rust_replayserver.Receive.Quorum.Delay.{update_delayed_position-Delays}
use faf_rust_replayserver.Receive.Quorum.Inv.{QuorumInv, in_play}
use faf_rust_replayserver.Receive.Quorum.Shorten.{Good}
use faf_rust_replayserver.Receive.Quorum.Prefix.{Common, Prefixes, calculate_quorum_prefix-Prefixes}

-- The quorum has what is needed to merge.
module _ {H : ℕ → Bytes} {c : Bytes} {place : ℕ → Place} (me : MergeQuorumState)
    (v : QuorumInv H c place me) where
  pub member_of : (id : ℕ) → contains me.quorum id ≡ true → place id ≡ member
  member_of id e = from_test (place id) (sym (v.in_quorum id) ∙ e)
    where
      from_test : (p : Place) → is_member p ≡ true → p ≡ member
      from_test member h = refl
      from_test outside h = absurd (false≢true h)
      from_test reserved h = absurd (false≢true h)
      from_test (candidate b) h = absurd (false≢true h)

  pub member-Good : (id : ℕ) → place id ≡ member → Good H (length c) me.s id
  member-Good id e = let (rs, got, a) = find v.shared id member e (λ q. cc) in (rs, got, a.0, a.1)

  members_mergeable : All (Good H (length c) me.s) me.quorum
  members_mergeable = each_contained _ me.quorum λ id e. member-Good id (member_of id e)

  pub members_found : All (λ id. (rs : ReplayState) × (me.s.replays id ≡ some rs)) me.quorum
  members_found = All-map _ _ me.quorum (λ id g. (g.0, g.1)) members_mergeable

-- The first replay of a quorum.
pub first_of :
    (ids : List ℕ)
    → 0 < length ids
    → (id : ℕ) × ((elim ids [ [] ↦ none | j ∷ _ ↦ some j ]) ≡ some id) × (contains ids id ≡ true)
unfolding contains
first_of [] pos = absurd (omega arith)
first_of (id ∷ ids) pos = (id, refl, ground arith)

-- The canonical data grew by data of a replay of the quorum, `any`; the replays are placed as before.
pub record MergedMore (H : ℕ → Bytes) (c : Bytes) (place : ℕ → Place) (me : MergeQuorumState)
    (s' : SharedState) : Type 0 where
  pub any : ℕ
  pub until : ℕ
  pub from_quorum : contains me.quorum any ≡ true
  pub common : Common H (length c) me.quorum until
  pub lo : length c ≤ until
  pub hi : until ≤ length (H any)
  pub inv : QuorumInv H (c ++ slice (H any) (length c) until) place (record me { s = s' })
  pub token : s'.token ≡ me.s.token
  pub target : s'.target_quorum_size ≡ me.s.target_quorum_size
  pub started : s'.delayed_data_started ≡ me.s.delayed_data_started
  pub header : s'.canonical_stream.header ≡ me.s.canonical_stream.header

abbrev pub MergesMore :
    (ℕ → Bytes) → Bytes → (ℕ → Place) → MergeQuorumState → Option MergeQuorumState → Type 0
MergesMore H c place me o =
    (s' : SharedState) × (o ≡ some (record me { s = s' })) × MergedMore H c place me s'

module _ {H : ℕ → Bytes} {c : Bytes} {place : ℕ → Place} (me : MergeQuorumState)
    (v : QuorumInv H c place me) where
  -- The shared state may change under the sets.
  pub with_shared :
      (c' : Bytes) (s' : SharedState)
      → SharedInv H c' place s'
      → s'.target_quorum_size ≡ me.s.target_quorum_size
      → QuorumInv H c' place (record me { s = s' })
  with_shared c' s' w t = record {
    shared = w;
    in_quorum = v.in_quorum;
    in_either = v.in_either;
    distinct = v.distinct;
    no_candidate = v.no_candidate;
    nonempty = v.nonempty;
    bounded = omega (arith, v.bounded, t);
  }

  in_reserve-in_play : (id : ℕ) → contains me.reserve id ≡ true → in_play (place id) ≡ true
  in_reserve-in_play id q = sym (v.in_either id) ∙ ap (λ b. b || contains me.quorum id) q

  module _ (any until : ℕ) (from_quorum : contains me.quorum any ≡ true) (lo : length c ≤ until)
      (all : All (λ id. until ≤ length (H id)) me.quorum)
      (common : Common H (length c) me.quorum until) where
    -- The canonical data after the merge.
    abbrev grown : Bytes
    grown = c ++ slice (H any) (length c) until

    length-grown : length grown ≡ until
    length-grown = omega (
      arith,
      length-append c (slice (H any) (length c) until),
      length-slice (H any) (length c) until lo (contains-All _ me.quorum any all from_quorum),
    )

    grown-Headed : Headed H grown me.s.canonical_stream
    grown-Headed = elim v.shared.headed [
      | inl h ↦ inl h
      | inr (z, zs) ↦ inr (
        omega (arith, length-grown, lo, contains-All _ me.quorum any all from_quorum, zs any),
        zs,
      )
    ]

    -- The rest of `merge_more_data`, after the canonical data grew.
    delayed_then :
        (m : MergedReplay)
        → m.header ≡ me.s.canonical_stream.header
        → Discards H grown place
            (record me { s = record me.s { canonical_stream = m } })
            (discard_data_after_merging (record me { s = record me.s { canonical_stream = m } }))
        → MergesMore H c place me (
            discard_data_after_merging (record me { s = record me.s { canonical_stream = m } })
            >>= update_delayed_position)
    delayed_then m head (s', run, w, same) =
        let v' = with_shared grown s' w same.target in
        let (s'', run', d, _) =
          update_delayed_position-Delays (record me { s = s' }) w
            (members_found (record me { s = s' }) v') v.nonempty in
        (
          s'',
          rw (run, run'),
          record {
            any = any;
            until = until;
            from_quorum = from_quorum;
            common = common;
            lo = lo;
            hi = contains-All _ me.quorum any all from_quorum;
            inv = with_shared grown s'' d.inv (d.target ∙ same.target);
            token = d.token ∙ same.token;
            target = d.target ∙ same.target;
            started = d.started ∙ same.started;
            header = d.header ∙ ap (λ t. t.header) same.canonical ∙ head;
          },
        )

    grown_then :
        Appends H c me.s any until (append_canon_data me.s any until)
        → MergesMore H c place me (
            append_canon_data me.s any until >>= λ s'.
            discard_data_after_merging (record me { s = s' }) >>= update_delayed_position)
    grown_then (d, run, holds) =
        let m = record me.s.canonical_stream { content = d } in
        let w =
          grow-SharedInv v.shared (slice (H any) (length c) until) m holds v.shared.running
            grown-Headed v.no_candidate
            λ id e. omega (
              arith,
              length-grown,
              contains-All _ me.quorum id all (v.in_quorum id ∙ ap is_member e),
            ) in
        rw run (
          delayed_then m refl (
            discard_data_after_merging-Discards
              (record me { s = record me.s { canonical_stream = m } }) w (member_of me v)
              in_reserve-in_play))

  prefix_then :
      Prefixes H (length c) me.quorum (calculate_quorum_prefix me)
      → ((id : ℕ) × ((elim me.quorum [ [] ↦ none | j ∷ _ ↦ some j ]) ≡ some id)
          × (contains me.quorum id ≡ true))
      → MergesMore H c place me (merge_more_data me)
  unfolding merge_more_data
  prefix_then (until, run, x) (any, first, q) =
      let lo : length c ≤ until = omega (arith, x.from, x.reached) in
      let all = x.within in
      let a =
        append_canon_data-Appends me.s any until v.shared
          (member-Good me v any (member_of me v any q)) lo (contains-All _ me.quorum any all q) in
      rw (run, first) (grown_then any until q lo all x a)

  -- From a quorum that meets its invariant, `merge_more_data` does not panic; it keeps the
  -- invariant with every replay at its place, and the canonical data is extended by exactly a
  -- range of the data of a replay of the quorum. The range starts at the old end of the canonical
  -- data and reaches at least to the end of the common prefix of all replays of the quorum, and
  -- exactly to it in a quorum of at most two replays; it is within the data of every replay of the
  -- quorum.
  pub merge_more_data-MergesMore : MergesMore H c place me (merge_more_data me)
  merge_more_data-MergesMore =
      let e = v.shared.canon.rep.end in
      prefix_then
        (subst (λ n. Prefixes H n me.quorum (calculate_quorum_prefix me)) e
          (calculate_quorum_prefix-Prefixes H me
            (subst (λ n. All (Good H n me.s) me.quorum) (sym e) (members_mergeable me v))
            v.nonempty))
        (first_of me.quorum v.nonempty)
