-- ===== src/Server/Life/End.antt =====
-- A replay that stopped accepting, over its further steps.
use mathlib.Core.Path.{subst}
use faf_rust_replayserver.Base.{ℕ, ◌≡◌, refl, Bool, true, some, arith}
use faf_rust_replayserver.Server.Assign.{ConnectionType, reader, writer}
use faf_rust_replayserver.Server.Errors.{err, cannot_assign_to_replay}
use faf_rust_replayserver.Server.Life.{
  Stage, no_writers_for_a_while, writers_left, readers_left, saving, over, Replay, timeout,
  stop_accepting, finish_merging, end_saving, end_replay, resume_at, resume, with_counter,
  begin_connection, end_connection,
}
use faf_rust_replayserver.Server.Life.Step.{
  World, Step, shuts_down, times_out, timeout_ends, stops, resumes, saved, begins, refused, merges,
  ends, Reach, here, next,
}
use faf_rust_replayserver.Server.Life.Laws.{refused-same}

abbrev Stopped : Replay → Type 0
Stopped r = r.should_stop_accepting_connections ≡ true

finish_merging-Stopped : (me r : Replay) → finish_merging me ≡ some r → Stopped me → Stopped r
unfolding finish_merging
finish_merging-Stopped me r h stop = ground arith

resume_at-Stopped :
    (me : Replay) (s : Stage) (slept : Bool) (r : Replay)
    → resume_at me s slept ≡ some r
    → Stopped me
    → Stopped r
unfolding resume_at stop_accepting end_replay
resume_at-Stopped me (no_writers_for_a_while last) slept r h stop = ground arith
resume_at-Stopped me (writers_left last) slept r h stop =
    ground (arith, finish_merging-Stopped me r)
resume_at-Stopped me (readers_left last) slept r h stop = ground arith
resume_at-Stopped me saving slept r h stop = ground arith
resume_at-Stopped me over slept r h stop = ground arith

with_counter-Stopped :
    (me : Replay) (t : ConnectionType) (r : Replay)
    → end_connection me t ≡ some r
    → Stopped me
    → Stopped r
unfolding end_connection with_counter
with_counter-Stopped me reader r h stop = ground arith
with_counter-Stopped me writer r h stop = ground arith

refuses :
    (me : Replay) (t : ConnectionType)
    → Stopped me
    → begin_connection me t ≡ some (err cannot_assign_to_replay, me)
unfolding begin_connection
refuses me t stop = rw stop refl

Step-Stopped : {fuel : ℕ} {w w' : World} → Step fuel w w' → Stopped w.replay → Stopped w'.replay
unfolding timeout stop_accepting resume end_saving
Step-Stopped (shuts_down w) stop = stop
Step-Stopped (times_out w _) stop = stop
Step-Stopped (timeout_ends w _) stop = stop
Step-Stopped (stops w last _ _) stop = refl
Step-Stopped (resumes w slept r h) stop = resume_at-Stopped w.replay w.replay.stage slept r h stop
Step-Stopped (saved w _) stop = stop
Step-Stopped (begins w reader r h) stop = absurd (cc (h, refuses w.replay reader stop))
Step-Stopped (begins w writer r h) stop = absurd (cc (h, refuses w.replay writer stop))
Step-Stopped (refused w t e r h) stop = subst Stopped (refused-same w.replay t e r h) stop
Step-Stopped (merges w m _ _) stop = stop
Step-Stopped (ends w reader r _ h) stop = with_counter-Stopped w.replay reader r h stop
Step-Stopped (ends w writer r _ h) stop = with_counter-Stopped w.replay writer r h stop

Reach-Stopped : {fuel : ℕ} {s w : World} → Reach fuel s w → Stopped s.replay → Stopped w.replay
Reach-Stopped here stop = stop
Reach-Stopped (next r st) stop = Step-Stopped st (Reach-Stopped r stop)

-- Once a replay stopped accepting connections, it refuses every connection, of either type and
-- whatever steps came in between, with `CannotAssignToReplay`, and a refusal changes nothing.
pub begin_connection-refuses :
    (fuel : ℕ) (w w' : World) (t : ConnectionType)
    → w.replay.should_stop_accepting_connections ≡ true
    → Reach fuel w w'
    → begin_connection w'.replay t ≡ some (err cannot_assign_to_replay, w'.replay)
begin_connection-refuses fuel w w' t stop r = refuses w'.replay t (Reach-Stopped r stop)
