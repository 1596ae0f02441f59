-- ===== src/Save/Saver/Laws.antt =====
-- `save_replay`, and what is kept of a replay.
use mathlib.Core.Path.{subst}
use faf_rust_replayserver.Base.{
  Bytes, ℕ, ◌<◌, ◌≡◌, refl, sym, ◌⊎◌, inl, inr, true, false, ◌&&◌, [], ◌∷◌, ◌++◌, map, Option, none,
  some, Bool-cases,
}
use faf_rust_replayserver.Util.Text.{text, show_u64, u64_mod}
use faf_rust_replayserver.Streams.ReplayHeader.{ReplayHeader}
use faf_rust_replayserver.Streams.MergedReplay.{MergedReplay}
use faf_rust_replayserver.Streams.MergedReplay.Laws.{Holds}
use faf_rust_replayserver.Save.Directory.{
  Path', SavedReplayDirectory, Files, io_error, opened, exists, touch, touch_and_return_file,
}
use faf_rust_replayserver.Save.Directory.Laws.{groups, replay_path-groups}
use faf_rust_replayserver.Save.JsonHeader.{ReplayJsonHeader, from_id_and_db}
use faf_rust_replayserver.Save.Writer
use faf_rust_replayserver.Save.Writer.{
  Output, Written, complete, unfinished, write_all, write_replay_file,
}
use faf_rust_replayserver.Save.Writer.Laws.{Enough, content, write_replay_file-content}
use faf_rust_replayserver.Save.Saver.{
  InnerReplaySaver, Calls, count_ticks, Saved, not_saved, after_write, write_to, save_with,
  save_replay_to_disk, GameUpdate, save_replay,
}

-- The file of a replay.
abbrev pub target_of : SavedReplayDirectory → ℕ → Path'
target_of dir id = dir.root ++ map show_u64 (groups id) ++ (show_u64 id ++ text ".fafreplay") ∷ []

-- Nothing was written; or a new file of the replay was, with a header from the database on its first
-- line and the whole replay after it.
abbrev pub Kept : Saved → Type 0
Kept s = (s.replay_saved ≡ false) × (s.saved_replays ≡ 0) × (s.file ≡ none)

abbrev pub WroteAll : InnerReplaySaver → Calls → Files → MergedReplay → Bytes → ℕ → Saved → Type 0
WroteAll me calls fs m c id s =
    (s.replay_saved ≡ true)
    × (s.saved_replays ≡ 1)
    × (exists (target_of me.save_dir id) fs.paths ≡ false)
    × (h : ReplayJsonHeader) × (json : Bytes) × (from_id_and_db me.db calls.now id ≡ some h)
    × (calls.to_string h ≡ some json)
    × (s.file ≡ some (target_of me.save_dir id, content calls.output json me.compression_level m c))

abbrev pub Saves :
    InnerReplaySaver
    → Calls
    → Files
    → MergedReplay
    → Bytes
    → ℕ
    → Option (Saved × GameUpdate)
    → Type 0
Saves me calls fs m c id o =
    (s : Saved) × (u : GameUpdate) × (o ≡ some (s, u))
    × (u.id ≡ id)
    × (u.replay_available ≡ s.replay_saved)
    × (Kept s ⊎ WroteAll me calls fs m c id s)

-- The same of `save_replay_to_disk`.
abbrev Stores : InnerReplaySaver → Calls → Files → MergedReplay → Bytes → ℕ → Option Saved → Type 0
Stores me calls fs m c id o = (s : Saved) × (o ≡ some s) × (Kept s ⊎ WroteAll me calls fs m c id s)

Stores-not_saved :
    (me : InnerReplaySaver) (calls : Calls) (fs fs' : Files) (m : MergedReplay) (c : Bytes) (id : ℕ)
    → Stores me calls fs m c id (some (not_saved fs'))
Stores-not_saved me calls fs fs' m c id = (not_saved fs', refl, inl (refl, refl, refl))

touch-cases :
    (fs : Files) (directory target : Path')
    → (touch fs directory target ≡ io_error)
      ⊎ ((fs' : Files) × (touch fs directory target ≡ opened target fs')
          × (exists target fs.paths ≡ false))
unfolding touch
touch-cases fs directory target =
    elim (Bool-cases (fs.can_create_dir directory && fs.can_open target)) [
      | inr cannot ↦ rw cannot (inl refl)
      | inl can ↦ elim (Bool-cases (exists target fs.paths)) [
        | inl taken ↦ rw (can, taken) (inl refl)
        | inr free ↦ rw (can, free) (inr (_, refl, refl))
      ]
    ]

module _ (me : InnerReplaySaver) (calls : Calls) (fs : Files) (m : MergedReplay) (c : Bytes)
    (id : ℕ) (holds : Holds m c) (over : m.finished ≡ true) (enough : Enough calls.output m c)
    (small : id < u64_mod) where
  -- The write into a file that was opened.
  after_write-Stores :
      (fs' : Files) (h : ReplayJsonHeader)
      → from_id_and_db me.db calls.now id ≡ some h
      → exists (target_of me.save_dir id) fs.paths ≡ false
      → (o : Option Bytes) → calls.to_string h ≡ o
      → Stores me calls fs m c id (
          after_write fs'
            (target_of me.save_dir id)
            (write_replay_file calls.output o m me.compression_level))
  unfolding after_write write_replay_file
  after_write-Stores fs' h from_db free none text_of = Stores-not_saved me calls fs fs' m c id
  after_write-Stores fs' h from_db free (some json) text_of =
      rw (write_replay_file-content calls.output json me.compression_level m c holds over enough)
        (elim (Bool-cases (calls.output.takes file)) [
          | inl taken ↦
              subst
                (λ w.
                  Stores me calls fs m c id (after_write fs' (target_of me.save_dir id) (some w)))
                (sym (write_all-takes file taken))
                (
                  record {
                    replay_saved = true;
                    saved_replays = 1;
                    files = fs';
                    file = some (target_of me.save_dir id, file);
                  },
                  refl,
                  inr (refl, refl, free, h, json, from_db, text_of, refl),
                )
          | inr refused ↦
              subst
                (λ w.
                  Stores me calls fs m c id (after_write fs' (target_of me.save_dir id) (some w)))
                (sym (write_all-refused file refused)) (Stores-not_saved me calls fs fs' m c id)
        ])
    where
      file : Bytes
      file = content calls.output json me.compression_level m c

      write_all-takes :
          (bs : Bytes) → calls.output.takes bs ≡ true → write_all calls.output bs ≡ complete bs
      write_all-takes bs e = unfold write_all in rw e refl

      write_all-refused :
          (bs : Bytes) → calls.output.takes bs ≡ false → write_all calls.output bs ≡ Writer.io_error
      write_all-refused bs e = unfold write_all in rw e refl

  target_same :
      touch_and_return_file me.save_dir fs id
      ≡ some (touch fs (me.save_dir.root ++ map show_u64 (groups id)) (target_of me.save_dir id))
  unfolding touch_and_return_file
  target_same = rw (replay_path-groups me.save_dir id small) refl

  save_with-Stores :
      (o : Option ReplayJsonHeader)
      → from_id_and_db me.db calls.now id ≡ o
      → Stores me calls fs m c id (save_with me calls fs m id o)
  unfolding save_with write_to
  save_with-Stores none from_db = Stores-not_saved me calls fs fs m c id
  save_with-Stores (some h) from_db =
      rw target_same
        (elim (touch-cases fs (me.save_dir.root ++ map show_u64 (groups id))
          (target_of me.save_dir id)) [
            | inl failed ↦ rw failed (Stores-not_saved me calls fs fs m c id)
            | inr (fs', got, free) ↦
                rw got (after_write-Stores fs' h from_db free (calls.to_string h) refl)
          ])

  save_replay_to_disk-Stores : Stores me calls fs m c id (save_replay_to_disk me calls fs m id)
  unfolding save_replay_to_disk
  save_replay_to_disk-Stores = by_header m.header
    where
      by_header :
          (o : Option ReplayHeader)
          → Stores me calls fs m c id (elim o [
            | none ↦ some (not_saved fs)
            | some h ↦ save_with me calls fs m id (from_id_and_db me.db calls.now id)
          ])
      by_header none = Stores-not_saved me calls fs fs m c id
      by_header (some h) = save_with-Stores (from_id_and_db me.db calls.now id) refl

  -- For a finished replay with an id below 2 ^ 64, `save_replay` comes to its end, and tells the
  -- database about this id, once, that the replay is available exactly if it was saved. The count
  -- of saved replays rises by one exactly then. If it was, its file did not exist before, lies
  -- under the directories of the id, and has the JSON header of the database, a newline, and the
  -- encoded replay, header and all delayed data; if it was not, whichever step failed, no file was
  -- completed. The copy has room and is polled often enough.
  pub save_replay-Saves : Saves me calls fs m c id (save_replay me calls fs m id)
  unfolding save_replay
  save_replay-Saves =
      let (s, e, cases) = save_replay_to_disk-Stores in
      let u : GameUpdate = record {
        replay_ticks = count_ticks calls m;
        replay_available = s.replay_saved;
        id = id;
      } in
      (s, u, rw e refl, refl, refl, cases)
