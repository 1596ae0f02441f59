-- ===== src/Server/Dispatch.antt =====
-- replay/runner.rs: `ReplayRunner`. The channel to a worker thread is the list of the connections that
-- were sent to it; a channel whose thread died, which makes the dispatch panic, is left out.
use faf_rust_replayserver.Base.{
  ℕ, ◌%◌, ◌<◌, ◌≡◌, refl, sym, ◌∙◌, inl, inr, false, not, List, [], ◌∷◌, ◌++◌, append-nil,
  append_assoc, Option, some, arith, ◌==◌, if◌then◌else◌, ◌>>=◌, ◌>>◌, assert, Bool-cases,
}
use faf_rust_replayserver.Server.Assign.{Connection}

pub record ReplayRunner : Type 0 where
  pub worker_threads : ℕ
  pub channels : ℕ → List Connection

unfoldable pub new : ℕ → ReplayRunner
new worker_threads = record { worker_threads = worker_threads; channels = λ _. [] }

-- `WorkerThread::dispatch`
unfoldable pub send : ReplayRunner → ℕ → Connection → ReplayRunner
send me worker c = record me {
  channels = λ j. if worker == j then me.channels j ++ c ∷ [] else me.channels j;
}

-- A remainder by 0 panics.
unfoldable pub dispatch_connection : ReplayRunner → Connection → Option ReplayRunner
dispatch_connection me c = do
  assert (not (me.worker_threads == 0))
  some (send me (c.header.id % me.worker_threads) c)

-- The connections that arrive, one after the other.
unfoldable pub dispatch_all : ReplayRunner → List Connection → Option ReplayRunner
dispatch_all me [] = some me
dispatch_all me (c ∷ cs) = do me' ← dispatch_connection me c; dispatch_all me' cs

-- Those whose id belongs to `worker`.
abbrev pub owned : ℕ → ℕ → List Connection → List Connection
owned n worker [] = []
owned n worker (c ∷ cs) =
    if c.header.id % n == worker then c ∷ owned n worker cs else owned n worker cs

-- Every worker has what it had, and then its own connections in the order of their arrival.
abbrev pub Dispatches : ReplayRunner → List Connection → Option ReplayRunner → Type 0
Dispatches me cs o =
    (me' : ReplayRunner) × (o ≡ some me')
    × (me'.worker_threads ≡ me.worker_threads)
    × ((worker : ℕ) → me'.channels worker ≡ me.channels worker ++ owned me.worker_threads worker cs)

then-Dispatches :
    (me : ReplayRunner) (c : Connection) (cs : List Connection)
    → 0 < me.worker_threads
    → Dispatches
        (send me (c.header.id % me.worker_threads) c)
        cs
        (dispatch_all (send me (c.header.id % me.worker_threads) c) cs)
    → Dispatches me (c ∷ cs) (dispatch_all me (c ∷ cs))
unfolding dispatch_all dispatch_connection send
then-Dispatches me c cs pos (me', run, n, q) =
    let some_worker : (me.worker_threads == 0) ≡ false = ground arith in
    (
      me',
      rw some_worker run,
      n,
      λ worker. q worker ∙ (elim (Bool-cases (c.header.id % me.worker_threads == worker)) [
        | inl own ↦
            rw own (append_assoc (me.channels worker) (c ∷ []) (owned me.worker_threads worker cs))
        | inr other ↦ rw other refl
      ]),
    )

-- With at least one worker, dispatching connections one after the other does not panic, and every
-- worker gets, after what it had, exactly the connections whose id modulo the number of workers is
-- its own, in the order of their arrival.
pub dispatch_all-Dispatches :
    (me : ReplayRunner) (cs : List Connection)
    → 0 < me.worker_threads
    → Dispatches me cs (dispatch_all me cs)
unfolding dispatch_all send
dispatch_all-Dispatches me [] pos =
    (me, refl, refl, λ worker. sym (append-nil (me.channels worker)))
dispatch_all-Dispatches me (c ∷ cs) pos =
    then-Dispatches me c cs pos
      (dispatch_all-Dispatches (send me (c.header.id % me.worker_threads) c) cs pos)
