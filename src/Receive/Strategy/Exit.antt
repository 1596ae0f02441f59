-- ===== src/Receive/Strategy/Exit.antt =====
-- `exit_stalemate`, from the invariant of a stalemate to that of a quorum.
use faf_rust_replayserver.Receive.Strategy.Settle.{
  settle, settle-is_reserved, settle-is_candidate, settle-is_member, settled_member, settle-At, Out,
  diverge_entries-Changes,
}
use mathlib.Core.Bool.{false≢true}
use mathlib.Core.Path.{subst}
use faf_rust_replayserver.Base.{
  Bytes, ℕ, ◌+◌, ◌≤◌, ◌<◌, ◌≡◌, refl, sym, ap, ◌∙◌, inl, inr, true, false, List, [], ◌∷◌, ◌++◌,
  Option, some, arith, length, length-append, All, ◌==◌, ◌>>=◌, append_assoc,
}
use faf_rust_replayserver.Util.ChunkedBuf.Chunks.{slice, length-slice}
use faf_rust_replayserver.Streams.MergedReplay.{MergedReplay}
use faf_rust_replayserver.Streams.MergedReplay.Laws as Merged
use faf_rust_replayserver.Receive.Sets.{contains, get_entry, remove_entry}
use faf_rust_replayserver.Receive.Sets.Laws.{All-map, contains-All}
use faf_rust_replayserver.Receive.State.{SharedState, canon_data_len, append_canon_data}
use faf_rust_replayserver.Receive.Place.{
  Place, Headed, outside, candidate, SharedInv, born, find, Changes,
}
use faf_rust_replayserver.Receive.Stalemate.{MergeStalemateState}
use faf_rust_replayserver.Receive.Stalemate.Inv.{StalemateInv, is_member}
use faf_rust_replayserver.Receive.Quorum
use faf_rust_replayserver.Receive.Quorum.{MergeQuorumState}
use faf_rust_replayserver.Receive.Quorum.Inv.{QuorumInv}
use faf_rust_replayserver.Receive.Quorum.Grow.{Appends, append_canon_data-Appends}
use faf_rust_replayserver.Receive.Quorum.Merge.{first_of}
use faf_rust_replayserver.Receive.Quorum.Shorten.{Good}
use faf_rust_replayserver.Receive.Quorum.Start.{Forms, from_stalemate-Forms}
use faf_rust_replayserver.Receive.Strategy.{best_rank, diverge_entries, exit_stalemate}
use faf_rust_replayserver.Receive.Strategy.Best.{
  Best, best_rank-Best, contains_entry-get_entry, remove_entry-Others,
}

-- The state after a stalemate ended: the canonical replay is longer, and still starts as it did.
pub record Exited (H : ℕ → Bytes) (c : Bytes) (s : SharedState) (me' : MergeQuorumState)
    : Type 0 where
  pub ext : Bytes
  pub place : ℕ → Place
  pub inv : QuorumInv H (c ++ ext) place me'
  pub longer : 0 < length ext
  pub token : me'.s.token ≡ s.token
  pub target : me'.s.target_quorum_size ≡ s.target_quorum_size
  pub started : me'.s.delayed_data_started ≡ s.delayed_data_started
  pub header : me'.s.canonical_stream.header ≡ s.canonical_stream.header

abbrev pub Exits : (ℕ → Bytes) → Bytes → SharedState → Option MergeQuorumState → Type 0
Exits H c s o = (me' : MergeQuorumState) × (o ≡ some me') × Exited H c s me'

module _ {H : ℕ → Bytes} {c : Bytes} {place : ℕ → Place} (me : MergeStalemateState)
    (v : StalemateInv H c place me) (target : 0 < me.s.target_quorum_size) where
  candidate-Good :
      (id byte : ℕ)
      → place id ≡ candidate byte
      → Good H (length c) me.s id × (length c + 1 ≤ length (H id))
  candidate-Good id byte e =
      let (rs, got, a) = find v.shared id (candidate byte) e (λ q. cc) in
      ((rs, got, a.0, omega (arith, a.1)), omega (arith, a.1))

  module _ (byte good_replay : ℕ) (good : List ℕ) (got : get_entry byte me.candidates ≡ some good)
      (are : All (λ id. place id ≡ candidate byte) good)
      (in_good : contains good good_replay ≡ true) where
    -- The byte that the canonical replay takes.
    abbrev first : Bytes
    first = slice (H good_replay) (length c) (length c + 1)

    length-first : length first ≡ 1
    length-first = omega (
      arith,
      length-slice (H good_replay) (length c) (length c + 1) (omega arith)
          (candidate-Good good_replay byte (contains-All _ good good_replay are in_good)).1,
    )

    abbrev settled : ℕ → Place
    settled id = settle byte (place id)

    settled-Headed :
        (m : MergedReplay) → m.header ≡ me.s.canonical_stream.header → Headed H (c ++ first) m
    settled-Headed m same = elim v.shared.headed [
      | inl (h, e) ↦ inl (h, same ∙ e)
      | inr (z, zs) ↦ absurd (
          omega (
            arith,
            zs good_replay,
            (candidate-Good good_replay byte (contains-All _ good good_replay are in_good)).1,
          ))
    ]

    settled-SharedInv :
        (m : MergedReplay)
        → Merged.Holds m (c ++ first)
        → m.finished ≡ false
        → m.header ≡ me.s.canonical_stream.header
        → SharedInv H (c ++ first) settled (record me.s { canonical_stream = m })
    settled-SharedInv m holds running same = record {
      canon = holds;
      running = running;
      headed = settled-Headed m same;
      placed = λ id lt.
          let (rs, found, a) = v.shared.placed id lt in
          (rs, found, settle-At byte (place id) (H id) c first rs (v.no_member id) length-first a);
      unborn = λ id ge. let (e, f) = v.shared.unborn id ge in (ap (settle byte) e, f);
    }

    settled_good : (id : ℕ) → contains good id ≡ true → is_member (settled id) ≡ true
    settled_good id q =
        ap (λ p. is_member (settle byte p)) (contains-All _ good id are q)
        ∙ ap is_member (settled_member byte)

    good_settled : (id : ℕ) → is_member (settled id) ≡ true → contains good id ≡ true
    good_settled id q =
        sym (contains_entry-get_entry byte id me.candidates good got)
        ∙ v.listed byte id (settle-is_member byte (place id) (v.no_member id) q)

    are_good : (id : ℕ) → contains good id ≡ is_member (settled id)
    are_good id = ground (arith, settled_good id, good_settled id)

    losers-Out :
        (s : SharedState) → s.token ≡ me.s.token → Out settled s (remove_entry byte me.candidates)
    losers-Out s same =
        All-map _ _ (remove_entry byte me.candidates)
          (λ e a.
            All-map _ _ e.1
              (λ id p. (omega (arith, same, born v.shared id (λ o. cc)), loser e.0 id a.0 p)) a.1.1)
          (remove_entry-Others (λ k ids. (0 < length ids) × All (λ id. place id ≡ candidate k) ids)
            byte me.candidates v.sound)
      where
        loser : (k id : ℕ) → (k == byte) ≡ false → place id ≡ candidate k → settled id ≡ outside
        loser k id other p = ap (settle byte) p ∙ ground arith

    -- The rest of `exit_stalemate`, after the byte was appended.
    formed_then :
        (m : MergedReplay)
        → m.header ≡ me.s.canonical_stream.header
        → Changes H
            (c ++ first)
            settled
            (record me.s { canonical_stream = m })
            (diverge_entries
              (record me.s { canonical_stream = m })
              (remove_entry byte me.candidates))
        → Exits H c me.s (
            diverge_entries (record me.s { canonical_stream = m }) (remove_entry byte me.candidates)
            >>= λ s''. Quorum.from_stalemate s'' good me.reserve)
    unfolding contains
    formed_then m head (s', run, w, same) = quorum_then (
        from_stalemate-Forms s' good me.reserve (record {
          shared = w;
          are_good = are_good;
          in_reserve = λ id. v.in_reserve id ∙ sym (settle-is_reserved byte (place id));
          distinct = v.distinct;
          no_candidate = λ id. settle-is_candidate byte (place id);
          nonempty = not_empty good in_good;
          target = omega (arith, target, same.target);
        }))
      where
        not_empty : (ids : List ℕ) → contains ids good_replay ≡ true → 0 < length ids
        not_empty [] q = absurd (false≢true q)
        not_empty (j ∷ ids) q = omega arith

        quorum_then :
            Forms H (c ++ first) s' good me.reserve (Quorum.from_stalemate s' good me.reserve)
            → Exits H c me.s (
                diverge_entries
                  (record me.s { canonical_stream = m })
                  (remove_entry byte me.candidates)
                >>= λ s''. Quorum.from_stalemate s'' good me.reserve)
        quorum_then (place', q, s'', run', e, _, more) =
            let second = slice (H more.any) (length (c ++ first)) more.until in
            (
              record q { s = s'' },
              rw (run, run'),
              record {
                ext = first ++ second;
                place = place';
                inv =
                    subst (λ b. QuorumInv H b place' (record q { s = s'' }))
                      (append_assoc c first second) more.inv;
                longer = omega (arith, length-append first second, length-first);
                token = more.token ∙ ap (λ t. t.token) e ∙ same.token;
                target = more.target ∙ ap (λ t. t.target_quorum_size) e ∙ same.target;
                started = more.started ∙ ap (λ t. t.delayed_data_started) e ∙ same.started;
                header =
                    more.header
                    ∙ ap (λ t. t.canonical_stream.header) e
                    ∙ ap (λ t. t.header) same.canonical
                    ∙ head;
              },
            )

    appended_then :
        Appends H c me.s good_replay
          (length c + 1)
          (append_canon_data me.s good_replay (canon_data_len me.s + 1))
        → Exits H c me.s (
            append_canon_data me.s good_replay (canon_data_len me.s + 1) >>= λ s'.
            diverge_entries s' (remove_entry byte me.candidates) >>= λ s''.
            Quorum.from_stalemate s'' good me.reserve)
    appended_then (d, run, holds) =
        let m = record me.s.canonical_stream { content = d } in
        rw run (
          formed_then m refl (
            diverge_entries-Changes (record me.s { canonical_stream = m })
              (remove_entry byte me.candidates) (settled-SharedInv m holds v.shared.running refl)
              (losers-Out (record me.s { canonical_stream = m }) refl)))

    append_first :
        Appends H c me.s good_replay
          (length c + 1)
          (append_canon_data me.s good_replay (canon_data_len me.s + 1))
    append_first =
        let (g, le) =
          candidate-Good good_replay byte (contains-All _ good good_replay are in_good) in
        subst
          (λ n.
            Appends H c me.s good_replay (length c + 1)
              (append_canon_data me.s good_replay (n + 1)))
          (sym v.shared.canon.rep.end)
          (append_canon_data-Appends me.s good_replay (length c + 1) v.shared g (omega arith) le)

  chosen_then :
      Best
        (λ byte ids. (0 < length ids) × All (λ id. place id ≡ candidate byte) ids)
        me.candidates
        (best_rank me.s me.candidates)
      → Exits H c me.s (exit_stalemate me)
  unfolding exit_stalemate
  chosen_then (best, run, (good, got, (pos, are))) =
      let (id, first', q) = first_of good pos in
      rw (run, got, first')
        (appended_then best.byte id good got are q (append_first best.byte id good got are q))

  -- From a stalemate that meets its invariant, with a candidate and a target of at least one,
  -- `exit_stalemate` does not panic, and it makes a quorum that meets its own invariant for
  -- canonical data that starts with the old data and is longer.
  pub exit_stalemate-Exits : 0 < length me.candidates → Exits H c me.s (exit_stalemate me)
  exit_stalemate-Exits pos = chosen_then (
      best_rank-Best _ me.s me.candidates pos
        (All-map _ _ me.candidates
          (λ e a.
            (a.0, All-map _ _ e.1 (λ id p. let (g, _) = candidate-Good id e.0 p in (g.0, g.1)) a.1))
          v.sound)
        v.sound)
