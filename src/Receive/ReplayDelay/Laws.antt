-- ===== src/Receive/ReplayDelay/Laws.antt =====
-- `push_and_get_delayed`, and the positions that a history holds.
use faf_rust_replayserver.Base.{
  ℕ, ◌-◌, ◌≤◌, ◌<◌, ◌≡◌, refl, inl, inr, List, [], ◌∷◌, ◌++◌, Option, some, arith, ltb, ltb→lt,
  ltb→ge, ◌>>=◌, length, length-append, drop, All, All-append, Bool-cases,
}
use faf_rust_replayserver.Receive.ReplayDelay.{PositionHistory, front, push_and_get_delayed}

-- The positions grow, and none is past `current`.
abbrev pub Rising : List ℕ → ℕ → Type 0
Rising [] current = Unit
Rising (x ∷ xs) current = (x ≤ current) × All (λ y. x ≤ y) xs × Rising xs current

-- A history before a push: at least as many positions as it may hold, and the last delayed
-- position is not past any of them.
pub record Ready (h : PositionHistory) (delayed current : ℕ) : Type 0 where
  pub rising : Rising h.queue current
  pub fits : length h.queue ≤ h.history_size
  pub room : 0 < h.history_size
  pub last : All (λ y. delayed ≤ y) h.queue
  pub behind : delayed ≤ current

Rising-push :
    (xs : List ℕ) (current next : ℕ)
    → Rising xs current
    → current ≤ next
    → Rising (xs ++ next ∷ []) next
Rising-push [] current next r le = (omega arith, tt, tt)
Rising-push (x ∷ xs) current next (lo, above, r) le = (
  omega arith,
  All-append _ xs (next ∷ []) above (omega arith, tt),
  Rising-push xs current next r le,
)

-- The delayed position of a push.
abbrev pub Delays : PositionHistory → ℕ → ℕ → Option (ℕ × PositionHistory) → Type 0
Delays h delayed next o =
    (d : ℕ) × (h' : PositionHistory) × (o ≡ some (d, h'))
    × (delayed ≤ d)
    × (d ≤ next)
    × Ready h' d next

front_Ready :
    (h : PositionHistory) (queue : List ℕ) (delayed next : ℕ)
    → Rising queue next
    → length queue ≤ h.history_size
    → 0 < h.history_size
    → 0 < length queue
    → All (λ y. delayed ≤ y) queue
    → Delays h delayed next (front queue >>= λ d. some (d, record h { queue = queue }))
front_Ready h [] delayed next r fits room pos all = absurd (omega arith)
front_Ready h (x ∷ xs) delayed next r fits room pos all = (
  x,
  record h { queue = x ∷ xs },
  refl,
  all.0,
  r.0,
  record { rising = r; fits = fits; room = room; last = (omega arith, r.1); behind = r.0 },
)

drop-Rising :
    (xs : List ℕ) (delayed next : ℕ)
    → Rising xs next
    → All (λ y. delayed ≤ y) xs
    → Rising (drop 1 xs) next
      × All (λ y. delayed ≤ y) (drop 1 xs)
      × (length (drop 1 xs) ≡ length xs - 1)
unfolding drop
drop-Rising [] delayed next r a = (tt, tt, refl)
drop-Rising (x ∷ xs) delayed next r a = unfold drop in (r.2, a.1, omega arith)

-- For a history whose positions rise and are no more than it may hold, and a position that is not
-- before the last one, `push_and_get_delayed` returns a position that is not before the last
-- delayed one and not past the new one, and the history stays such a history.
pub push_and_get_delayed-Delays :
    (h : PositionHistory) (delayed current next : ℕ)
    → Ready h delayed current
    → current ≤ next
    → Delays h delayed next (push_and_get_delayed h next)
unfolding push_and_get_delayed
push_and_get_delayed-Delays h delayed current next v le =
    let pushed = h.queue ++ next ∷ [] in
    let n = length-append h.queue (next ∷ []) in
    let r = Rising-push h.queue current next v.rising le in
    let all =
      All-append (λ y. delayed ≤ y) h.queue (next ∷ []) v.last (omega (arith, v.behind), tt) in
    elim (Bool-cases (ltb h.history_size (length pushed))) [
      | inl full ↦
          let (r', all', m) = drop-Rising pushed delayed next r all in
          rw full (
            front_Ready h (drop 1 pushed) delayed next r' (omega (arith, m, n, v.fits)) v.room
              (omega (arith, m, n, v.fits, v.room, ltb→lt _ _ full)) all')
      | inr space ↦ rw space (
          front_Ready h pushed delayed next r (omega (arith, ltb→ge _ _ space)) v.room
            (omega (arith, n)) all)
    ]
