-- ===== src/Server/Life/Waits.antt =====
-- What holds of a replay, over the steps of `regular_lifetime`.
use mathlib.Core.Path.{subst}
use faf_rust_replayserver.Base.{
  ℕ, ◌≡◌, refl, sym, ap, ◌∙◌, Bool, [], ◌∷◌, ◌++◌, Option, none, some, arith, bind-eq-some,
}
use faf_rust_replayserver.Receive.Merger.{finalize}
use faf_rust_replayserver.Receive.Strategy.{get_merged_replay}
use faf_rust_replayserver.Server.Life.{
  Stage, no_writers_for_a_while, writers_left, readers_left, saving, over, Replay, stop_accepting,
  finish_merging, end_saving, end_replay, turned, resume_at,
}
use faf_rust_replayserver.Server.Life.Step.{World, with_replay}
use faf_rust_replayserver.Server.Life.Safe.{InStage, Safe, turned-none}

pub stop_accepting-Safe :
    (w : World) (last : ℕ)
    → InStage (no_writers_for_a_while last) w
    → Safe w
    → Safe (with_replay w (stop_accepting w.replay))
unfolding stop_accepting
stop_accepting-Safe w last (open_, e, c) v = record {
  writers = v.writers;
  readers = v.readers;
  stage = (refl, e, c);
}

finish_merging-Safe :
    (w : World) (last : ℕ) (r : Replay)
    → InStage (writers_left last) w
    → w.writers ≡ 0
    → Safe w
    → finish_merging w.replay ≡ some r
    → Safe (with_replay w r)
unfolding finish_merging
finish_merging-Safe w last r (stop, e, c) none_left v h =
    let (m, _, f) = bind-eq-some (finalize w.replay.merger) _ h in
    let (merged, g, k) = bind-eq-some (get_merged_replay m.merge_strategy) _ f in
    let r' : Replay = record w.replay {
      merger = m;
      stage = saving;
      saves = w.replay.saves ++ (merged, w.replay.id) ∷ [];
    } in
    let same : r' ≡ r = cc k in
    subst (λ q. Safe (with_replay w q)) same
      (record {
        writers = v.writers;
        readers = v.readers;
        stage = ((stop, none_left, (merged, g, ap (◌++ (merged, w.replay.id) ∷ []) e)), c);
      })

pub end_saving-Safe :
    (w : World) → InStage saving w → Safe w → Safe (with_replay w (end_saving w.replay))
unfolding end_saving
end_saving-Safe w s v = record { writers = v.writers; readers = v.readers; stage = s }

end_replay-Safe :
    (w : World) (last : ℕ)
    → InStage (readers_left last) w
    → w.readers ≡ 0
    → Safe w
    → Safe (with_replay w (end_replay w.replay))
unfolding end_replay
end_replay-Safe w last (c, (r, f)) none_left v = record {
  writers = v.writers;
  readers = v.readers;
  stage = (c, refl, none_left, (omega arith, omega arith));
}

-- A turn of each wait: it ends, or it goes on with another count.
no_writers-Safe :
    (w : World) (last : ℕ) (o : Option ℕ) (r : Replay)
    → InStage (no_writers_for_a_while last) w
    → Safe w
    → elim o [
      | none ↦ some (stop_accepting w.replay)
      | some count ↦ some (record w.replay { stage = no_writers_for_a_while count })
    ]
      ≡ some r
    → Safe (with_replay w r)
no_writers-Safe w last none r i v h =
    let same : stop_accepting w.replay ≡ r = cc h in
    subst (λ q. Safe (with_replay w q)) same (stop_accepting-Safe w last i v)
no_writers-Safe w last (some count) r i v h =
    let r' : Replay = record w.replay { stage = no_writers_for_a_while count } in
    let same : r' ≡ r = cc h in
    subst (λ q. Safe (with_replay w q)) same
      (record { writers = v.writers; readers = v.readers; stage = i })

writers_left-Safe :
    (w : World) (last : ℕ) (o : Option ℕ) (r : Replay)
    → InStage (writers_left last) w
    → Safe w
    → (o ≡ none → w.writers ≡ 0)
    → elim o [
      | none ↦ finish_merging w.replay
      | some count ↦ some (record w.replay { stage = writers_left count })
    ]
      ≡ some r
    → Safe (with_replay w r)
writers_left-Safe w last none r i v z h = finish_merging-Safe w last r i (z refl) v h
writers_left-Safe w last (some count) r i v z h =
    let r' : Replay = record w.replay { stage = writers_left count } in
    let same : r' ≡ r = cc h in
    subst (λ q. Safe (with_replay w q)) same
      (record { writers = v.writers; readers = v.readers; stage = i })

readers_left-Safe :
    (w : World) (last : ℕ) (o : Option ℕ) (r : Replay)
    → InStage (readers_left last) w
    → Safe w
    → (o ≡ none → w.readers ≡ 0)
    → elim o [
      | none ↦ some (end_replay w.replay)
      | some count ↦ some (record w.replay { stage = readers_left count })
    ]
      ≡ some r
    → Safe (with_replay w r)
readers_left-Safe w last none r i v z h =
    let same : end_replay w.replay ≡ r = cc h in
    subst (λ q. Safe (with_replay w q)) same (end_replay-Safe w last i (z refl) v)
readers_left-Safe w last (some count) r i v z h =
    let r' : Replay = record w.replay { stage = readers_left count } in
    let same : r' ≡ r = cc h in
    subst (λ q. Safe (with_replay w q)) same
      (record { writers = v.writers; readers = v.readers; stage = i })

pub resume_at-Safe :
    (w : World) (s : Stage) (slept : Bool) (r : Replay)
    → InStage s w
    → Safe w
    → resume_at w.replay s slept ≡ some r
    → Safe (with_replay w r)
unfolding resume_at
resume_at-Safe w (no_writers_for_a_while last) slept r i v h =
    no_writers-Safe w last (turned slept w.replay.writer_connection_count last) r i v h
resume_at-Safe w (writers_left last) slept r i v h =
    writers_left-Safe w last (turned slept w.replay.writer_connection_count last) r i v
      (λ e. sym v.writers ∙ turned-none slept w.replay.writer_connection_count last e) h
resume_at-Safe w (readers_left last) slept r i v h =
    readers_left-Safe w last (turned slept w.replay.reader_connection_count last) r i v
      (λ e. sym v.readers ∙ turned-none slept w.replay.reader_connection_count last e) h
resume_at-Safe w saving slept r i v h =
    let same : w.replay ≡ r = cc h in subst (λ q. Safe (with_replay w q)) same v
resume_at-Safe w over slept r i v h =
    let same : w.replay ≡ r = cc h in subst (λ q. Safe (with_replay w q)) same v
