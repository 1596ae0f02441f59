-- ===== src/Server/Life/Safe.antt =====
-- What holds of a replay between two steps, and that the steps that move no stage keep it.
use faf_rust_replayserver.Base.{
  ℕ, ◌<◌, ◌≡◌, refl, sym, ap, ◌∙◌, Bool, true, false, [], ◌∷◌, none, some, arith,
}
use faf_rust_replayserver.Util.EmptyCounter.{EmptyCounter, turn}
use faf_rust_replayserver.Streams.MergedReplay.{MergedReplay}
use faf_rust_replayserver.Receive.Merger.{ReplayMerger}
use faf_rust_replayserver.Receive.Strategy.{get_merged_replay}
use faf_rust_replayserver.Server.Life.{
  Stage, no_writers_for_a_while, writers_left, readers_left, saving, over, Replay, timeout, turned,
}
use faf_rust_replayserver.Server.Life.Step.{World, with_replay}

-- What was saved is what the merger holds.
abbrev pub Saved : Replay → Type 0
Saved r =
    (merged : MergedReplay) × (get_merged_replay r.merger.merge_strategy ≡ some merged)
    × (r.saves ≡ (merged, r.id) ∷ [])

abbrev pub Counted : Replay → ℕ → ℕ → Type 0
Counted r running finished = (r.running_replays ≡ running) × (r.finished_replays ≡ finished)

-- After the last writer: nothing is accepted, no writer is left, and the final data is saved once.
abbrev pub Closed : World → Type 0
Closed w = (w.replay.should_stop_accepting_connections ≡ true) × (w.writers ≡ 0) × Saved w.replay

abbrev pub InStage : Stage → World → Type 0
InStage (no_writers_for_a_while last) w =
    (w.replay.should_stop_accepting_connections ≡ false)
    × (w.replay.saves ≡ [])
    × Counted w.replay 1 0
InStage (writers_left last) w =
    (w.replay.should_stop_accepting_connections ≡ true)
    × (w.replay.saves ≡ [])
    × Counted w.replay 1 0
InStage saving w = Closed w × Counted w.replay 1 0
InStage (readers_left last) w = Closed w × Counted w.replay 1 0
InStage over w =
    Closed w × (w.replay.replay_timeout_token ≡ true) × (w.readers ≡ 0) × Counted w.replay 0 1

pub record Safe (w : World) : Type 0 where
  pub writers : w.replay.writer_connection_count.counter ≡ w.writers
  pub readers : w.replay.reader_connection_count.counter ≡ w.readers
  pub stage : InStage w.replay.stage w

pub turned-none :
    (slept : Bool) (c : EmptyCounter) (last : ℕ) → turned slept c last ≡ none → c.counter ≡ 0
unfolding turn
turned-none slept c last h = ground arith

-- A step that moves no stage. The merger changes only while there are writers.
pub record Keeps (w w' : World) : Type 0 where
  pub stops' :
      w'.replay.should_stop_accepting_connections ≡ w.replay.should_stop_accepting_connections
  pub saves : w'.replay.saves ≡ w.replay.saves
  pub id : w'.replay.id ≡ w.replay.id
  pub running : w'.replay.running_replays ≡ w.replay.running_replays
  pub finished : w'.replay.finished_replays ≡ w.replay.finished_replays
  pub token : w.replay.replay_timeout_token ≡ true → w'.replay.replay_timeout_token ≡ true
  pub merger : w.writers ≡ 0 → w'.replay.merger ≡ w.replay.merger
  pub writers : w.writers ≡ 0 → w'.writers ≡ 0
  pub readers : w.readers ≡ 0 → w'.readers ≡ 0

Closed-Keeps : (w w' : World) → Keeps w w' → Closed w → Closed w'
Closed-Keeps w w' k (stop, none_left, (merged, e, f)) = (
  k.stops' ∙ stop,
  k.writers none_left,
  (
    merged,
    ap (λ m. get_merged_replay (ReplayMerger.merge_strategy m)) (k.merger none_left) ∙ e,
    k.saves ∙ f ∙ ap (λ i. (merged, i) ∷ []) (sym k.id),
  ),
)

pub InStage-Keeps : (s : Stage) (w w' : World) → Keeps w w' → InStage s w → InStage s w'
InStage-Keeps (no_writers_for_a_while last) w w' k (stop, e, (r, f)) =
    (k.stops' ∙ stop, k.saves ∙ e, (k.running ∙ r, k.finished ∙ f))
InStage-Keeps (writers_left last) w w' k (stop, e, (r, f)) =
    (k.stops' ∙ stop, k.saves ∙ e, (k.running ∙ r, k.finished ∙ f))
InStage-Keeps saving w w' k (c, (r, f)) = (Closed-Keeps w w' k c, (k.running ∙ r, k.finished ∙ f))
InStage-Keeps (readers_left last) w w' k (c, (r, f)) =
    (Closed-Keeps w w' k c, (k.running ∙ r, k.finished ∙ f))
InStage-Keeps over w w' k (c, t, n, (r, f)) =
    (Closed-Keeps w w' k c, k.token t, k.readers n, (k.running ∙ r, k.finished ∙ f))

shuts_down-Keeps :
    (w : World) → Keeps w (with_replay w (record w.replay { replay_timeout_token = true }))
shuts_down-Keeps w = record {
  stops' = refl;
  saves = refl;
  id = refl;
  running = refl;
  finished = refl;
  token = λ h. refl;
  merger = λ h. refl;
  writers = λ h. h;
  readers = λ h. h;
}

pub shuts_down-Safe :
    (w : World) → Safe w → Safe (with_replay w (record w.replay { replay_timeout_token = true }))
shuts_down-Safe w v = record {
  writers = v.writers;
  readers = v.readers;
  stage = InStage-Keeps w.replay.stage w _ (shuts_down-Keeps w) v.stage;
}

pub times_out-Safe : (w : World) → Safe w → Safe (with_replay w (timeout w.replay))
unfolding timeout
times_out-Safe w v = record {
  writers = v.writers;
  readers = v.readers;
  stage =
      InStage-Keeps w.replay.stage w _
        (record {
          stops' = refl;
          saves = refl;
          id = refl;
          running = refl;
          finished = refl;
          token = λ h. refl;
          merger = λ h. refl;
          writers = λ h. h;
          readers = λ h. h;
        })
        v.stage;
}

pub timeout_ends-Safe :
    (w : World) → Safe w → Safe (with_replay w (record w.replay { timeout_runs = false }))
timeout_ends-Safe w v = record {
  writers = v.writers;
  readers = v.readers;
  stage =
      InStage-Keeps w.replay.stage w _
        (record {
          stops' = refl;
          saves = refl;
          id = refl;
          running = refl;
          finished = refl;
          token = λ h. h;
          merger = λ h. refl;
          writers = λ h. h;
          readers = λ h. h;
        })
        v.stage;
}

pub merges-Safe :
    (w : World) (m : ReplayMerger)
    → 0 < w.writers
    → Safe w
    → Safe (with_replay w (record w.replay { merger = m }))
merges-Safe w m pos v = record {
  writers = v.writers;
  readers = v.readers;
  stage =
      InStage-Keeps w.replay.stage w _
        (record {
          stops' = refl;
          saves = refl;
          id = refl;
          running = refl;
          finished = refl;
          token = λ h. h;
          merger = λ h. absurd (omega arith);
          writers = λ h. h;
          readers = λ h. h;
        })
        v.stage;
}
