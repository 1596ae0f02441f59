-- ===== src/Receive/Place/Change.antt =====
-- What the task of a connection does to its replay, and a new replay, as seen from the strategy.
use mathlib.Core.Path.{subst}
use faf_rust_replayserver.Base.{
  Bytes, ℕ, ◌<◌, ◌≡◌, sym, ◌∙◌, inl, inr, false, ◌++◌, arith, length, length-append,
  get_elem?-append, ◌==◌, ==_iff, if◌then◌else◌, Bool-cases,
}
use faf_rust_replayserver.Util.BufDeque
use faf_rust_replayserver.Util.BufDeque.{window_start}
use faf_rust_replayserver.Streams.WriterReplay
use faf_rust_replayserver.Streams.WriterReplay.{WriterReplay}
use faf_rust_replayserver.Streams.WriterReplay.Laws as Writer
use faf_rust_replayserver.Receive.State
use faf_rust_replayserver.Receive.State.{ReplayState, SharedState, set_replay, new_replay_state}
use faf_rust_replayserver.Receive.State.Compare.{Live}
use faf_rust_replayserver.Receive.Place.{
  Place, Headed, outside, reserved, member, candidate, At, SharedInv, put_place,
}

-- The data of the replays, with that of one changed.
abbrev pub put : (ℕ → Bytes) → ℕ → Bytes → ℕ → Bytes
put H id h j = if id == j then h else H j

-- A writer replay that a live replay may become: its window starts where it did.
abbrev pub Follows : WriterReplay → WriterReplay → Bytes → Type 0
Follows w w' h = Writer.Holds w' h × (window_start w'.content ≡ window_start w.content)

Live-Follows :
    {h : Bytes} {n : ℕ} (h' : Bytes) (rs : ReplayState) (w' : WriterReplay)
    → Live h n rs
    → Follows rs.r w' h'
    → Live h' n (record rs { r = w' })
Live-Follows h' rs w' l f = record {
  holds = f.0;
  matched = l.matched;
  window = omega (arith, l.window, f.1);
}

-- More data keeps what is known at every place.
pub At-Follows :
    (p : Place) (h buf c : Bytes) (rs : ReplayState) (w' : WriterReplay)
    → At p h c rs
    → Follows rs.r w' (h ++ buf)
    → At p (h ++ buf) c (record rs { r = w' })
At-Follows outside h buf c rs w' a f = f.0
At-Follows reserved h buf c rs w' a f = Live-Follows (h ++ buf) rs w' a f
At-Follows member h buf c rs w' a f =
    (Live-Follows (h ++ buf) rs w' a.0 f, omega (arith, length-append h buf, a.1))
At-Follows (candidate b) h buf c rs w' (l, lt, e) f = (
  Live-Follows (h ++ buf) rs w' l f,
  omega (arith, length-append h buf, lt),
  get_elem?-append h buf (length c) lt ∙ e,
)

module _ {H : ℕ → Bytes} {c : Bytes} {place : ℕ → Place} {s : SharedState}
    (v : SharedInv H c place s) where
  pub written-SharedInv :
      (id : ℕ) (h' : Bytes) (rs' : ReplayState)
      → id < s.token
      → At (place id) h' c rs'
      → Headed (put H id h') c s.canonical_stream
      → SharedInv (put H id h') c place (set_replay s id rs')
  written-SharedInv id h' rs' lt a headed = record {
    canon = v.canon;
    running = v.running;
    headed = headed;
    placed = λ j l. elim (Bool-cases (id == j)) [
      | inl same ↦
          let e : id ≡ j = (==_iff id j).0 same in
          (rs', rw same, rw same (subst (λ k. At (place k) h' c rs') e a))
      | inr other ↦ rw other (v.placed j l)
    ];
    unborn = λ j ge. let ne : (id == j) ≡ false = ground arith in rw ne (v.unborn j ge);
  }

  -- A replay that was just added has no data.
  new-Live : Live (H s.token) (length c) (new_replay_state WriterReplay.new s.stream_cmp_distance)
  unfolding WriterReplay.new BufDeque.new
  new-Live =
      subst (λ h. Live h (length c) (new_replay_state WriterReplay.new s.stream_cmp_distance))
        (sym (v.unborn s.token (omega arith)).1)
        (record { holds = Writer.new-Holds; matched = omega arith; window = omega arith })

  pub added-SharedInv :
      SharedInv H c (put_place place s.token reserved) (State.add_replay s WriterReplay.new).1
  unfolding State.add_replay
  added-SharedInv = record {
    canon = v.canon;
    running = v.running;
    headed = v.headed;
    placed = λ j l. elim (Bool-cases (s.token == j)) [
      | inl same ↦
          let e : s.token ≡ j = (==_iff s.token j).0 same in
          (
            new_replay_state WriterReplay.new s.stream_cmp_distance,
            rw same,
            rw same (
                subst
                  (λ k.
                    Live (H k) (length c) (new_replay_state WriterReplay.new s.stream_cmp_distance))
                  e new-Live),
          )
      | inr other ↦ rw other (v.placed j (ground arith))
    ];
    unborn = λ j ge.
        let ne : (s.token == j) ≡ false = ground arith in rw ne (v.unborn j (omega (arith, ge)));
  }
