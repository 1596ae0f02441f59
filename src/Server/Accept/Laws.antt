-- ===== src/Server/Accept/Laws.antt =====
-- `run`, against the results of reading the headers.
use faf_rust_replayserver.Base.{
  ℕ, ◌+◌, ◌<◌, ◌≡◌, ◌==◌, ◌%◌, refl, sym, ap, ◌∙◌, inl, inr, false, List, [], ◌∷◌, ◌++◌, Option,
  some, arith, if◌then◌else◌, Bool-cases,
}
use faf_rust_replayserver.Server.Assign
use faf_rust_replayserver.Server.Assign.{ConnectionHeader}
use faf_rust_replayserver.Server.Dispatch.{
  ReplayRunner, send, dispatch_connection, dispatch_all, owned, dispatch_all-Dispatches,
}
use faf_rust_replayserver.Server.Errors.{
  ConnectionError, ConnResult, ok, err, is_no_data, Label, served_label, Served, same_label,
  inc_served_conns,
}
use faf_rust_replayserver.Server.Accept.{Server, Outcome, accept_connection, run}

-- The connections whose header was read, in order.
abbrev pub accepted : List Outcome → List Assign.Connection
accepted [] = []
accepted (o ∷ os) = elim o.header [
  | ok h ↦ record { number = o.number; header = h } ∷ accepted os
  | err e ↦ accepted os
]

abbrev pub fails_as : Label → ConnResult ConnectionHeader → ℕ
fails_as l (ok h) = 0
fails_as l (err e) =
    if is_no_data e then 0 else if same_label (served_label (some e)) l then 1 else 0

-- How many failed with a label, those with no data left out.
abbrev pub failures : Label → List Outcome → ℕ
failures l [] = 0
failures l (o ∷ os) = fails_as l o.header + failures l os

abbrev pub Accepts : Server → List Outcome → Option Server → Type 0
Accepts me os r =
    (me' : Server) × (r ≡ some me')
    × ((worker : ℕ)
        → me'.runner.channels worker
          ≡ me.runner.channels worker ++ owned me.runner.worker_threads worker (accepted os))
    × ((l : Label) → me'.served l ≡ me.served l + failures l os)

-- The same, by what the runner does.
abbrev Runs : Server → List Outcome → Option Server → Type 0
Runs me os r =
    (me' : Server) × (r ≡ some me')
    × (dispatch_all me.runner (accepted os) ≡ some me'.runner)
    × ((l : Label) → me'.served l ≡ me.served l + failures l os)

-- A worker is there for every connection.
dispatch-some :
    (r : ReplayRunner) (c : Assign.Connection)
    → 0 < r.worker_threads
    → dispatch_connection r c ≡ some (send r (c.header.id % r.worker_threads) c)
unfolding dispatch_connection
dispatch-some r c pos =
    let some_worker : (r.worker_threads == 0) ≡ false = ground arith in rw some_worker refl

abbrev outcome : ℕ → ConnResult ConnectionHeader → Outcome
outcome number header = record { number = number; header = header }

counted-once :
    (served : Served) (e : ConnectionError) (l : Label) (rest : ℕ)
    → is_no_data e ≡ false
    → inc_served_conns served (some e) l + rest ≡ served l + (fails_as l (err e) + rest)
unfolding inc_served_conns
counted-once served e l rest real =
    rw real (elim (Bool-cases (same_label (served_label (some e)) l)) [
      | inl same ↦ rw same (omega arith)
      | inr not_same ↦ rw not_same (omega arith)
    ])

then_Runs :
    (me : Server) (number : ℕ) (header : ConnResult ConnectionHeader) (os : List Outcome)
    → 0 < me.runner.worker_threads
    → ((me' : Server) → 0 < me'.runner.worker_threads → Runs me' os (run me' os))
    → Runs me (outcome number header ∷ os) (run me (outcome number header ∷ os))
unfolding run accept_connection dispatch_all
then_Runs me number (ok header) os pos later =
    let c : Assign.Connection = record { number = number; header = header } in
    let runner = send me.runner (header.id % me.runner.worker_threads) c in
    let (me', e, d, f) = later (record me { runner = runner }) (unfold send in pos) in
    let sent = dispatch-some me.runner c pos in (me', rw sent e, rw sent d, λ l. omega (arith, f l))
then_Runs me number (err e) os pos later = elim (Bool-cases (is_no_data e)) [
  | inl nothing ↦
      let (me', r, d, f) = later me pos in
      (me', rw nothing r, d, λ l. rw nothing (omega (arith, f l)))
  | inr real ↦
      let me₁ : Server = record me { served = inc_served_conns me.served (some e) } in
      let (me', r, d, f) = later me₁ pos in
      (me', rw real r, d, λ l. f l ∙ counted-once me.served e l (failures l os) real)
]

run-Runs : (me : Server) (os : List Outcome) → 0 < me.runner.worker_threads → Runs me os (run me os)
unfolding run dispatch_all
run-Runs me [] pos = (me, refl, refl, λ l. omega arith)
run-Runs me (o ∷ os) pos = then_Runs me o.number o.header os pos (λ me' pos'. run-Runs me' os pos')

-- With at least one worker, `run` does not panic. Every connection whose header was read goes,
-- after what the worker of its id had and in order, to that worker; every connection that failed
-- is counted once, under the label of its error, but for those with no data, which count nowhere.
pub run-Accepts :
    (me : Server) (os : List Outcome) → 0 < me.runner.worker_threads → Accepts me os (run me os)
run-Accepts me os pos =
    let (me', r, d, f) = run-Runs me os pos in
    let (runner, e, _, q) = dispatch_all-Dispatches me.runner (accepted os) pos in
    let same : runner ≡ me'.runner = cc (e, d) in
    (me', r, λ worker. ap (λ k. ReplayRunner.channels k worker) (sym same) ∙ q worker, f)
