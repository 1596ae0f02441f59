-- ===== src/Receive/Quorum.antt =====
-- replay/receive/quorum_merge_strategy.rs: `MergeQuorumState`.
pub mod Inv
pub mod Keys
pub mod Longest
pub mod Shorten
pub mod Prefix
pub mod Delay
pub mod Discard
pub mod Grow
pub mod Merge
pub mod Start
use faf_rust_replayserver.Base.{
  Bytes, ℕ, ◌+◌, min, max, Bool, true, false, not, List, [], ◌∷◌, ◌++◌, Option, none, some, ltb,
  leb, ◌==◌, if◌then◌else◌, ◌>>=◌, ◌>>◌, assert, length, take, drop, map,
}
use mathlib.Core.List.{reverse}
use faf_rust_replayserver.Streams.WriterReplay
use faf_rust_replayserver.Streams.WriterReplay.{WriterReplay}
use faf_rust_replayserver.Receive.Sets.{contains, insert, extend}
use faf_rust_replayserver.Receive.State
use faf_rust_replayserver.Receive.State.{
  ReplayState, SharedState, get_replay, for_each, canon_data_len, canon_delayed_data_len,
  append_canon_data, update_canon_delayed_data_len, set_matching,
  discard_if_not_needed_for_checking_divergence, common_prefix_from_to,
}

pub record MergeQuorumState : Type 0 where
  pub s : SharedState
  pub quorum : List ℕ
  pub reserve : List ℕ

-- The replays with a number read from each, in order.
unfoldable pub keyed : (WriterReplay → ℕ) → SharedState → List ℕ → Option (List (ℕ × ℕ))
keyed key s [] = some []
keyed key s (id ∷ ids) = do
  replay ← get_replay s id
  rest ← keyed key s ids
  some ((key replay.r, id) ∷ rest)

-- `sort_unstable_by_key`, here by insertion; the order of equal keys is left open by the source.
unfoldable pub insert_sorted : ℕ × ℕ → List (ℕ × ℕ) → List (ℕ × ℕ)
insert_sorted x [] = x ∷ []
insert_sorted x (y ∷ ys) = if leb x.0 y.0 then x ∷ y ∷ ys else y ∷ insert_sorted x ys

unfoldable pub sort : List (ℕ × ℕ) → List (ℕ × ℕ)
sort [] = []
sort (x ∷ xs) = insert_sorted x (sort xs)

-- The good replays, longest first.
unfoldable pub longest_first : SharedState → List ℕ → Option (List ℕ)
longest_first s ids = do
  pairs ← keyed WriterReplay.data_len s ids
  some (map (λ p. p.1) (reverse (sort pairs)))

-- `min_by_key`: the first of the pairs with the least key.
unfoldable pub min_from : ℕ × ℕ → List (ℕ × ℕ) → ℕ × ℕ
min_from best [] = best
min_from best (x ∷ xs) = min_from (if ltb x.0 best.0 then x else best) xs

unfoldable pub min_by_key : List (ℕ × ℕ) → Option (ℕ × ℕ)
min_by_key [] = none
min_by_key (x ∷ xs) = some (min_from x xs)

-- The loop of `calculate_quorum_prefix`.
unfoldable pub shorten_prefix : SharedState → ℕ → ReplayState → ℕ → ℕ → List ℕ → Option ℕ
shorten_prefix s shortest_id shortest cmp_start common_prefix [] = some common_prefix
shorten_prefix s shortest_id shortest cmp_start common_prefix (id ∷ ids) = do
  common_prefix' ← if id == shortest_id then some common_prefix else (do
    other ← get_replay s id
    common_prefix_from_to shortest other cmp_start (some common_prefix))
  shorten_prefix s shortest_id shortest cmp_start common_prefix' ids

unfoldable pub calculate_quorum_prefix : MergeQuorumState → Option ℕ
calculate_quorum_prefix me = do
  pairs ← keyed WriterReplay.data_len me.s me.quorum
  (_, shortest_id) ← min_by_key pairs
  shortest ← get_replay me.s shortest_id
  shorten_prefix me.s shortest_id shortest (canon_data_len me.s) (WriterReplay.data_len shortest.r)
      me.quorum

unfoldable pub discard_data_after_merging : MergeQuorumState → Option MergeQuorumState
discard_data_after_merging me = do
  let merged_len = canon_data_len me.s
  s' ← for_each (λ r. set_matching r merged_len) me.s me.quorum
  s'' ← for_each (λ r. discard_if_not_needed_for_checking_divergence r merged_len) s' me.reserve
  some (record me { s = s'' })

unfoldable pub quorum_delayed_position : MergeQuorumState → Option ℕ
quorum_delayed_position me = do
  pairs ← keyed (λ w. w.delayed_data_len) me.s me.quorum
  (position, _) ← min_by_key pairs
  some position

unfoldable pub update_delayed_position : MergeQuorumState → Option MergeQuorumState
update_delayed_position me = do
  position ← quorum_delayed_position me
  s' ← update_canon_delayed_data_len me.s position
  some (record me { s = s' })

unfoldable pub merge_more_data : MergeQuorumState → Option MergeQuorumState
merge_more_data me = do
  common_prefix ← calculate_quorum_prefix me
  any_in_quorum ← elim me.quorum [ [] ↦ none | id ∷ ids ↦ some id ]
  s' ← append_canon_data me.s any_in_quorum common_prefix
  me' ← discard_data_after_merging (record me { s = s' })
  update_delayed_position me'

unfoldable pub from_stalemate : SharedState → List ℕ → List ℕ → Option MergeQuorumState
from_stalemate shared good_replays reserve = do
  sorted ← longest_first shared good_replays
  let new_quorum_len = min (length sorted) shared.target_quorum_size
  let new_quorum = extend [] (take new_quorum_len sorted)
  merge_more_data (record {
    s = shared;
    quorum = new_quorum;
    reserve = extend reserve (drop new_quorum_len sorted);
  })

unfoldable pub add_replay : MergeQuorumState → WriterReplay → ℕ × MergeQuorumState
add_replay me w =
    let (token, s') = State.add_replay me.s w in
    (token, record me { s = s'; reserve = insert token me.reserve })

unfoldable pub replay_data_updated : MergeQuorumState → ℕ → Option MergeQuorumState
replay_data_updated me id = if contains me.quorum id then update_delayed_position me else some me

abbrev pub replay_ended : MergeQuorumState → ℕ → MergeQuorumState
replay_ended me id = me

abbrev pub has_to_enter_stalemate : MergeQuorumState → Bool
has_to_enter_stalemate me = leb (canon_data_len me.s) (canon_delayed_data_len me.s)
