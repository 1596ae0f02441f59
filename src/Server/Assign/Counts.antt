-- ===== src/Server/Assign/Counts.antt =====
-- The counter of served connections, against what arrived and what was assigned.
use faf_rust_replayserver.Base.{
  ℕ, ◌+◌, ◌≡◌, refl, ap, ◌∙◌, inl, inr, List, [], ◌∷◌, ◌++◌, Option, none, some, arith, Bool-cases,
  if◌then◌else◌,
}
use faf_rust_replayserver.Server.Errors.{
  ConnectionError, cannot_assign_to_replay, ConnResult, error_of, Label, no_replay_matched,
  served_label, Served, same_label, inc_served_conns,
}
use faf_rust_replayserver.Server.Assign.{
  ConnectionType, reader, writer, Connection, Replay, Assignment, connection, new_replay, Replays,
  build, assign_new, assign_to, assign_connection_to_replay, connection_handled, expire, Happening,
  arrives, handled, expires, assign_all,
}

-- How many connections were assigned, how many arrived, and how many results have a label.
abbrev pub assigned : List Assignment → ℕ
assigned [] = 0
assigned (connection c r ∷ as') = 1 + assigned as'
assigned (new_replay r ∷ as') = assigned as'

abbrev pub arrived : List Happening → ℕ
arrived [] = 0
arrived (arrives c ∷ hs) = 1 + arrived hs
arrived (handled res ∷ hs) = arrived hs
arrived (expires id ∷ hs) = arrived hs

abbrev pub hit : Label → Option ConnectionError → ℕ
hit l e = if same_label (served_label e) l then 1 else 0

abbrev pub results : Label → List Happening → ℕ
results l [] = 0
results l (arrives c ∷ hs) = results l hs
results l (handled res ∷ hs) = hit l (error_of res) + results l hs
results l (expires id ∷ hs) = results l hs

abbrev pub refusals : Label → ℕ → ℕ
refusals l n = if same_label no_replay_matched l then n else 0

-- Of `n` connections those that are not assigned are counted as refused, and nothing else is
-- counted but the results.
pub record Counted (me : Replays) (n : ℕ) (ended : Label → ℕ) (as' : List Assignment)
    (me' : Replays) : Type 0 where
  pub refused : ℕ
  pub each : n ≡ assigned as' + refused
  pub counted : (l : Label) → me'.served l ≡ me.served l + (ended l + refusals l refused)

assigned-append : (xs ys : List Assignment) → assigned (xs ++ ys) ≡ assigned xs + assigned ys
assigned-append [] ys = omega arith
assigned-append (connection c r ∷ xs) ys = omega (arith, assigned-append xs ys)
assigned-append (new_replay r ∷ xs) ys = assigned-append xs ys

inc_served_conns-hit :
    (served : Served) (e : Option ConnectionError) (l : Label)
    → inc_served_conns served e l ≡ served l + hit l e
unfolding inc_served_conns
inc_served_conns-hit served e l = elim (Bool-cases (same_label (served_label e) l)) [
  | inl same ↦ rw same refl
  | inr other ↦ rw other (omega arith)
]

refusals-zero : (l : Label) → refusals l 0 ≡ 0
refusals-zero l = elim (Bool-cases (same_label no_replay_matched l)) [
  | inl same ↦ rw same refl
  | inr other ↦ rw other refl
]

refusals-add : (l : Label) (m n : ℕ) → refusals l (m + n) ≡ refusals l m + refusals l n
refusals-add l m n = elim (Bool-cases (same_label no_replay_matched l)) [
  | inl same ↦ rw same refl
  | inr other ↦ rw other refl
]

Counted-append :
    (me me' me'' : Replays) (n k : ℕ) (e f : Label → ℕ) (xs ys : List Assignment)
    → Counted me n e xs me'
    → Counted me' k f ys me''
    → {m : ℕ} {g : Label → ℕ} → m ≡ n + k
    → ((l : Label) → g l ≡ e l + f l)
    → Counted me m g (xs ++ ys) me''
Counted-append me me' me'' n k e f xs ys a b all ended = record {
  refused = a.refused + b.refused;
  each = omega (arith, all, a.each, b.each, assigned-append xs ys);
  counted =
      λ l. omega (arith, ended l, a.counted l, b.counted l, refusals-add l a.refused b.refused);
}

-- A step that counts nothing, of as many connections as it assigns.
uncounted :
    (me me' : Replays) (n : ℕ) (as' : List Assignment)
    → n ≡ assigned as'
    → me'.served ≡ me.served
    → Counted me n (λ l. 0) as' me'
uncounted me me' n as' each same = record {
  refused = 0;
  each = omega (arith, each);
  counted =
      λ l. ap (λ s. s l) {x = me'.served} {y = me.served} same ∙ omega (arith, refusals-zero l);
}

assign_new-Counted :
    (me : Replays) (c : Connection) (t : ConnectionType)
    → Counted me 1 (λ l. 0) (assign_new me c t).0 (assign_new me c t).1
unfolding assign_new build served_label
assign_new-Counted me c reader = record {
  refused = 1;
  each = refl;
  counted = λ l. inc_served_conns-hit me.served (some cannot_assign_to_replay) l ∙ omega arith;
}
assign_new-Counted me c writer = uncounted me _ 1 _ refl refl

assign_to-Counted :
    (me : Replays) (c : Connection) (r : Option Replay)
    → Counted me 1 (λ l. 0) (assign_to me c r).0 (assign_to me c r).1
unfolding assign_to
assign_to-Counted me c none = assign_new-Counted me c c.header.type_
assign_to-Counted me c (some r) = uncounted me me 1 _ refl refl

connection_handled-Counted :
    (me : Replays) (res : ConnResult {0} Unit)
    → Counted me 0 (λ l. hit l (error_of res)) [] (connection_handled me res)
unfolding connection_handled
connection_handled-Counted me res = record {
  refused = 0;
  each = refl;
  counted = λ l. inc_served_conns-hit me.served (error_of res) l ∙ omega (arith, refusals-zero l);
}

expire-Counted : (me : Replays) (id : ℕ) → Counted me 0 (λ l. 0) [] (expire me id)
unfolding expire
expire-Counted me id = uncounted me _ 0 [] refl refl

pub assign_all-Counted :
    (me : Replays) (hs : List Happening)
    → Counted me (arrived hs) (λ l. results l hs) (assign_all me hs).0 (assign_all me hs).1
unfolding assign_all assign_connection_to_replay
assign_all-Counted me [] = uncounted me me 0 [] refl refl
assign_all-Counted me (arrives c ∷ hs) =
    Counted-append me _ _ 1 _ _ _ _ _ (assign_to-Counted me c (me.replays c.header.id))
      (assign_all-Counted (assign_connection_to_replay me c).1 hs) refl (λ l. omega arith)
assign_all-Counted me (handled res ∷ hs) =
    Counted-append me _ _ 0 _ _ _ [] _ (connection_handled-Counted me res)
      (assign_all-Counted (connection_handled me res) hs) (omega arith) (λ l. refl)
assign_all-Counted me (expires id ∷ hs) =
    Counted-append me _ _ 0 _ _ _ [] _ (expire-Counted me id) (assign_all-Counted (expire me id) hs)
      (omega arith) (λ l. omega arith)
