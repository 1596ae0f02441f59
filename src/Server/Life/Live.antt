-- ===== src/Server/Life/Live.antt =====
-- The steps of `regular_lifetime` alone, without connections.
use faf_rust_replayserver.Base.{
  ℕ, zero, suc, ◌≡◌, refl, ap, ◌∙◌, Bool, true, false, [], ◌∷◌, ◌++◌, Option, none, some, arith,
}
use faf_rust_replayserver.Util.EmptyCounter.{EmptyCounter, turn}
use faf_rust_replayserver.Streams.MergedReplay.{MergedReplay}
use faf_rust_replayserver.Receive.Merger.{ReplayMerger, finalize}
use faf_rust_replayserver.Receive.Strategy.{get_merged_replay}
use faf_rust_replayserver.Server.Life.{
  Stage, no_writers_for_a_while, writers_left, readers_left, saving, over, Replay, stop_accepting,
  finish_merging, end_saving, end_replay, turned, resume_at, resume,
}
use faf_rust_replayserver.Server.Life.Step.{World, with_replay, Step, Reach, here, next, born}
use faf_rust_replayserver.Server.Life.Laws.{lifetime-Safe}

-- A step of `regular_lifetime` alone: a wait for a counter wakes up, or `save_replay` returned. The
-- token is not cancelled, and no connection does anything.
pub data Own : World → World → Type 0 where
  resumes :
      (w : World) (slept : Bool) (r : Replay)
      → resume w.replay slept ≡ some r
      → Own w (with_replay w r)
  saved : (w : World) → w.replay.stage ≡ saving → Own w (with_replay w (end_saving w.replay))

-- These are steps of the replay.
Own-Step : {fuel : ℕ} {w w' : World} → Own w w' → Step fuel w w'
Own-Step (resumes w slept r e) = Step.resumes w slept r e
Own-Step (saved w e) = Step.saved w e

pub data Alone : World → World → Type 0 where
  done : {w : World} → Alone w w
  then_ : {w w' v : World} → Own w w' → Alone w' v → Alone w v

-- The replay comes to its end by such steps, which are steps of the replay.
abbrev pub Ends : ℕ → World → Type 0
Ends fuel w = (w' : World) × Alone w w' × Reach fuel w w' × (w'.replay.stage ≡ over)

after : {fuel : ℕ} {w w' : World} → Own w w' → Ends fuel w' → Ends fuel w
after {fuel} {w} {w'} st (v, a, r, e) = (v, then_ st a, first r, e)
  where
    first : {v : World} → Reach fuel w' v → Reach fuel w v
    first here = next here (Own-Step st)
    first (next r t) = next (first r) t

turned_slept : (c : EmptyCounter) → c.counter ≡ 0 → turned true c 0 ≡ none
unfolding turn
turned_slept c e = ground arith

resume_stage :
    (me : Replay) (s : Stage) (slept : Bool) (o : Option Replay)
    → me.stage ≡ s
    → resume_at me s slept ≡ o
    → resume me slept ≡ o
unfolding resume
resume_stage me s slept o e h = ap (λ k. resume_at me k slept) e ∙ h

-- `finalize` of the merger, and the call of `get_merged_replay` after it, do not panic.
abbrev pub Finalizes : ReplayMerger → Type 0
Finalizes m =
    (m' : ReplayMerger) × (finalize m ≡ some m')
    × (merged : MergedReplay) × (get_merged_replay m'.merge_strategy ≡ some merged)

Finalizes-finish_merging :
    (me : Replay) → Finalizes me.merger → (r : Replay) × (finish_merging me ≡ some r)
unfolding finish_merging
Finalizes-finish_merging me (m', e, merged, f) = (
  record me { merger = m'; stage = saving; saves = me.saves ++ (merged, me.id) ∷ [] },
  rw e (rw f refl),
)

finish_merging-stage :
    (me r : Replay)
    → finish_merging me ≡ some r
    → (r.stage ≡ saving) × (r.reader_connection_count ≡ me.reader_connection_count)
unfolding finish_merging
finish_merging-stage me r h = ground arith

module _ (fuel : ℕ) where
  -- The wait for the readers: with a last count of 0, and with any.
  readers_gone :
      (w : World)
      → w.replay.stage ≡ readers_left 0
      → w.replay.reader_connection_count.counter ≡ 0
      → Ends fuel w
  unfolding resume_at end_replay
  readers_gone w at e =
      after
        (resumes w true (end_replay w.replay) (
          resume_stage w.replay (readers_left 0) true (some (end_replay w.replay)) at
            (rw (resume_at, turned_slept w.replay.reader_connection_count e) refl)))
        (_, done, here, refl)

  readers_away :
      (w : World) (last : ℕ)
      → w.replay.stage ≡ readers_left last
      → w.replay.reader_connection_count.counter ≡ 0
      → Ends fuel w
  unfolding resume_at turn
  readers_away w zero at e = readers_gone w at e
  readers_away w (suc n) at e =
      let r : Replay = record w.replay {
        stage = readers_left w.replay.reader_connection_count.counter;
      } in
      after
        (resumes w false r (resume_stage w.replay (readers_left (suc n)) false (some r) at refl))
        (readers_gone (with_replay w r) (ap readers_left e) e)

  saved_away :
      (w : World)
      → w.replay.stage ≡ saving
      → w.replay.reader_connection_count.counter ≡ 0
      → Ends fuel w
  unfolding end_saving
  saved_away w at e = after (saved w at) (
      readers_away (with_replay w (end_saving w.replay)) w.replay.reader_connection_count.counter
        refl e)

  -- The wait for the writers.
  writers_gone :
      (w : World) (r : Replay)
      → w.replay.stage ≡ writers_left 0
      → w.replay.writer_connection_count.counter ≡ 0
      → w.replay.reader_connection_count.counter ≡ 0
      → finish_merging w.replay ≡ some r
      → Ends fuel w
  unfolding resume_at
  writers_gone w r at e f h =
      let (at', counted) = finish_merging-stage w.replay r h in
      after
        (resumes w true r (
          resume_stage w.replay (writers_left 0) true (some r) at
            (rw (resume_at, turned_slept w.replay.writer_connection_count e) h)))
        (saved_away (with_replay w r) at' (ap EmptyCounter.counter counted ∙ f))

  writers_away :
      (w : World) (last : ℕ)
      → w.replay.stage ≡ writers_left last
      → w.replay.writer_connection_count.counter ≡ 0
      → w.replay.reader_connection_count.counter ≡ 0
      → Finalizes w.replay.merger
      → Ends fuel w
  unfolding resume_at turn
  writers_away w zero at e f z =
      let (r, h) = Finalizes-finish_merging w.replay z in writers_gone w r at e f h
  writers_away w (suc n) at e f z =
      let r : Replay = record w.replay {
        stage = writers_left w.replay.writer_connection_count.counter;
      } in
      let (r', h) = Finalizes-finish_merging r z in
      after
        (resumes w false r (resume_stage w.replay (writers_left (suc n)) false (some r) at refl))
        (writers_gone (with_replay w r) r' (ap writers_left e) e f h)

  -- The first wait.
  quiet :
      (w : World)
      → w.replay.stage ≡ no_writers_for_a_while 0
      → w.replay.writer_connection_count.counter ≡ 0
      → w.replay.reader_connection_count.counter ≡ 0
      → Finalizes w.replay.merger
      → Ends fuel w
  unfolding resume_at stop_accepting
  quiet w at e f z =
      after
        (resumes w true (stop_accepting w.replay) (
          resume_stage w.replay (no_writers_for_a_while 0) true (some (stop_accepting w.replay)) at
            (rw (resume_at, turned_slept w.replay.writer_connection_count e) refl)))
        (writers_away (with_replay w (stop_accepting w.replay))
          w.replay.writer_connection_count.counter refl e f z)

  quiet_again :
      (w : World) (last : ℕ)
      → w.replay.stage ≡ no_writers_for_a_while last
      → w.replay.writer_connection_count.counter ≡ 0
      → w.replay.reader_connection_count.counter ≡ 0
      → Finalizes w.replay.merger
      → Ends fuel w
  unfolding resume_at turn
  quiet_again w zero at e f z = quiet w at e f z
  quiet_again w (suc n) at e f z =
      let count = w.replay.writer_connection_count.counter in
      let r : Replay = record w.replay { stage = no_writers_for_a_while count } in
      after
        (resumes w false r
          (resume_stage w.replay (no_writers_for_a_while (suc n)) false (some r) at refl))
        (quiet (with_replay w r) (ap no_writers_for_a_while e) e f z)

  from_stage :
      (w : World) (s : Stage)
      → w.replay.stage ≡ s
      → w.replay.writer_connection_count.counter ≡ 0
      → w.replay.reader_connection_count.counter ≡ 0
      → Finalizes w.replay.merger
      → Ends fuel w
  from_stage w (no_writers_for_a_while last) at e f z = quiet_again w last at e f z
  from_stage w (writers_left last) at e f z = writers_away w last at e f z
  from_stage w saving at e f z = saved_away w at f
  from_stage w (readers_left last) at e f z = readers_away w last at f
  from_stage w over at e f z = (w, done, here, at)

-- From any state that a replay reaches, once the connections that it handles are gone, and when
-- the merger can be finalized, it comes to its end by steps of `regular_lifetime` alone, in which
-- the waits wake up and the saving returns: no connection, no cancelled token and no timeout of
-- the whole replay is needed.
pub lifetime-Ends :
    (id : ℕ) (merger : ReplayMerger) (fuel : ℕ) (w : World)
    → Reach fuel (born id merger) w
    → w.writers ≡ 0
    → w.readers ≡ 0
    → Finalizes w.replay.merger
    → Ends fuel w
lifetime-Ends id merger fuel w r no_writers no_readers z =
    let v = lifetime-Safe id merger fuel w r in
    from_stage fuel w w.replay.stage refl (v.writers ∙ no_writers) (v.readers ∙ no_readers) z
