-- ===== src/Server/Life/Laws.antt =====
-- What holds of a replay, over all steps.
use mathlib.Core.Path.{subst}
use mathlib.Core.Bool.{false≢true}
use faf_rust_replayserver.Base.{
  ℕ, ◌+◌, ◌-◌, ◌<◌, ◌≡◌, refl, sym, ap, ◌∙◌, inl, inr, false, some, arith, bind-eq-some, Bool-cases,
}
use faf_rust_replayserver.Util.EmptyCounter
use faf_rust_replayserver.Util.EmptyCounter.{EmptyCounter, inc, dec, turn}
use faf_rust_replayserver.Receive.Merger.{ReplayMerger}
use faf_rust_replayserver.Server.Assign.{ConnectionType, reader, writer}
use faf_rust_replayserver.Server.Errors.{ConnectionError, ok, err}
use faf_rust_replayserver.Server.Life.{
  Stage, no_writers_for_a_while, writers_left, readers_left, saving, over, Replay, new, resume,
  with_counter, begin_connection, end_connection,
}
use faf_rust_replayserver.Server.Life.Step.{
  World, joined, with_replay, left, handled, Step, shuts_down, times_out, timeout_ends, stops,
  resumes, saved, begins, refused, merges, ends, Reach, here, next, born,
}
use faf_rust_replayserver.Server.Life.Safe.{
  InStage, Safe, InStage-Keeps, shuts_down-Safe, times_out-Safe, timeout_ends-Safe, merges-Safe,
}
use faf_rust_replayserver.Server.Life.Waits.{stop_accepting-Safe, end_saving-Safe, resume_at-Safe}

-- A replay that accepts is in its first stage.
InStage-open :
    (s : Stage) (w w' : World)
    → w.replay.should_stop_accepting_connections ≡ false
    → w'.replay.should_stop_accepting_connections ≡ false
    → w'.replay.saves ≡ w.replay.saves
    → w'.replay.running_replays ≡ w.replay.running_replays
    → w'.replay.finished_replays ≡ w.replay.finished_replays
    → InStage s w
    → InStage s w'
InStage-open (no_writers_for_a_while last) w w' o o' e r f (stop, e', (r', f')) =
    (o', e ∙ e', (r ∙ r', f ∙ f'))
InStage-open (writers_left last) w w' o o' e r f i = absurd (false≢true (sym o ∙ i.0))
InStage-open saving w w' o o' e r f i = absurd (false≢true (sym o ∙ i.0.0))
InStage-open (readers_left last) w w' o o' e r f i = absurd (false≢true (sym o ∙ i.0.0))
InStage-open over w w' o o' e r f i = absurd (false≢true (sym o ∙ i.0.0))

pub refused-same :
    (me : Replay) (t : ConnectionType) (e : ConnectionError) (r : Replay)
    → begin_connection me t ≡ some (err e, r)
    → me ≡ r
unfolding begin_connection with_counter
refused-same me reader e r h = elim (Bool-cases me.should_stop_accepting_connections) [
  | inl stop ↦ cc (h, stop)
  | inr open_ ↦ absurd (cc (h, open_))
]
refused-same me writer e r h = elim (Bool-cases me.should_stop_accepting_connections) [
  | inl stop ↦ cc (h, stop)
  | inr open_ ↦ absurd (cc (h, open_))
]

begins-Safe :
    (w : World) (t : ConnectionType) (r : Replay)
    → begin_connection w.replay t ≡ some (ok tt, r)
    → Safe w
    → Safe (joined w t r)
unfolding begin_connection with_counter inc
begins-Safe w reader r h v = elim (Bool-cases w.replay.should_stop_accepting_connections) [
  | inl stop ↦ absurd (cc (h, stop))
  | inr open_ ↦
      let count = inc w.replay.reader_connection_count in
      let r' : Replay = record w.replay { reader_connection_count = count } in
      let same : r' ≡ r = cc (h, open_) in
      subst (λ q. Safe (joined w reader q)) same
        (record {
          writers = v.writers;
          readers = ap (λ n. n + 1) v.readers;
          stage =
              InStage-open w.replay.stage w (joined w reader r') open_ open_ refl refl refl v.stage;
        })
]
begins-Safe w writer r h v = elim (Bool-cases w.replay.should_stop_accepting_connections) [
  | inl stop ↦ absurd (cc (h, stop))
  | inr open_ ↦
      let count = inc w.replay.writer_connection_count in
      let r' : Replay = record w.replay { writer_connection_count = count } in
      let same : r' ≡ r = cc (h, open_) in
      subst (λ q. Safe (joined w writer q)) same
        (record {
          writers = ap (λ n. n + 1) v.writers;
          readers = v.readers;
          stage =
              InStage-open w.replay.stage w (joined w writer r') open_ open_ refl refl refl v.stage;
        })
]

dec-some : (c c' : EmptyCounter) → dec c ≡ some c' → c'.counter ≡ c.counter - 1
unfolding dec
dec-some c c' h = ground arith

ends-Safe :
    (w : World) (t : ConnectionType) (r : Replay)
    → 0 < handled w t
    → end_connection w.replay t ≡ some r
    → Safe w
    → Safe (left w t r)
unfolding end_connection with_counter
ends-Safe w reader r pos h v =
    let (c, e, f) = bind-eq-some (dec w.replay.reader_connection_count) _ h in
    let r' : Replay = record w.replay { reader_connection_count = c } in
    let same : r' ≡ r = cc f in
    subst (λ q. Safe (left w reader q)) same
      (record {
        writers = v.writers;
        readers = omega (arith, dec-some w.replay.reader_connection_count c e, v.readers);
        stage =
            InStage-Keeps w.replay.stage w (left w reader r')
              (record {
                stops' = refl;
                saves = refl;
                id = refl;
                running = refl;
                finished = refl;
                token = λ k. k;
                merger = λ k. refl;
                writers = λ k. k;
                readers = λ k. omega (arith, k);
              })
              v.stage;
      })
ends-Safe w writer r pos h v =
    let (c, e, f) = bind-eq-some (dec w.replay.writer_connection_count) _ h in
    let r' : Replay = record w.replay { writer_connection_count = c } in
    let same : r' ≡ r = cc f in
    subst (λ q. Safe (left w writer q)) same
      (record {
        writers = omega (arith, dec-some w.replay.writer_connection_count c e, v.writers);
        readers = v.readers;
        stage =
            InStage-Keeps w.replay.stage w (left w writer r')
              (record {
                stops' = refl;
                saves = refl;
                id = refl;
                running = refl;
                finished = refl;
                token = λ k. k;
                merger = λ k. refl;
                writers = λ k. omega (arith, k);
                readers = λ k. k;
              })
              v.stage;
      })

pub Step-Safe : {fuel : ℕ} {w w' : World} → Step fuel w w' → Safe w → Safe w'
Step-Safe (shuts_down w) v = shuts_down-Safe w v
Step-Safe (times_out w _) v = times_out-Safe w v
Step-Safe (timeout_ends w _) v = timeout_ends-Safe w v
Step-Safe (stops w last at _) v = stop_accepting-Safe w last (subst (λ s. InStage s w) at v.stage) v
Step-Safe (resumes w slept r h) v =
    unfold resume in resume_at-Safe w w.replay.stage slept r v.stage v h
Step-Safe (saved w at) v = end_saving-Safe w (subst (λ s. InStage s w) at v.stage) v
Step-Safe (begins w t r h) v = begins-Safe w t r h v
Step-Safe (refused w t e r h) v =
    subst (λ q. Safe (with_replay w q)) (refused-same w.replay t e r h) v
Step-Safe (merges w m pos _) v = merges-Safe w m pos v
Step-Safe (ends w t r pos h) v = ends-Safe w t r pos h v

pub Reach-Safe : {fuel : ℕ} {s w : World} → Safe s → Reach fuel s w → Safe w
Reach-Safe v here = v
Reach-Safe v (next r st) = Step-Safe st (Reach-Safe v r)

pub born-Safe : (id : ℕ) (merger : ReplayMerger) → Safe (born id merger)
unfolding new EmptyCounter.new
born-Safe id merger = record { writers = refl; readers = refl; stage = (refl, refl, (refl, refl)) }

-- In whatever order its life, its timeout and its connections take their steps, a replay counts
-- the connections that it handles; it accepts connections until `regular_lifetime` stops it, and
-- saves nothing before its last writer left. From then on it has no writer, and what it saved,
-- once and under its id, is the merged replay that its merger still holds; at its end its token is
-- cancelled and it has no reader. It is counted as running until its end, and as finished after
-- it.
pub lifetime-Safe :
    (id : ℕ) (merger : ReplayMerger) (fuel : ℕ) (w : World) → Reach fuel (born id merger) w → Safe w
lifetime-Safe id merger fuel w r = Reach-Safe (born-Safe id merger) r
