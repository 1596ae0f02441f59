-- ===== src/Util/Event.antt =====
-- util/event.rs. A waker is the number of its task; `notify` also returns the tasks that it wakes.
use faf_rust_replayserver.Base.{ℕ, List, [], ◌∷◌, ◌++◌}

pub record Event : Type 0 where
  pub wakers : List ℕ

abbrev pub new : Event
new = record { wakers = [] }

unfoldable pub wait : Event → ℕ → Event
wait e task = record { wakers = e.wakers ++ task ∷ [] }

unfoldable pub notify : Event → Event × List ℕ
notify e = (record { wakers = [] }, e.wakers)
