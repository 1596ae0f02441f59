-- ===== src/Streams/MergedReplay/Laws.antt =====
-- The data that a canonical replay stands for, and what its operations do to it.
use mathlib.Core.Path.{subst}
use faf_rust_replayserver.Base.{
  Bytes, ℕ, ◌≤◌, ◌≡◌, refl, sym, ap, ◌∙◌, false, List, [], ◌∷◌, ◌++◌, Option, some, arith, length,
  concat, le→leb, append-nil, append_assoc, length-append,
}
use faf_rust_replayserver.Util.BufDeque
use faf_rust_replayserver.Util.BufDeque.{BufDeque, window_start}
use faf_rust_replayserver.Util.BufDeque.Rep.{Rep, new-Rep}
use faf_rust_replayserver.Util.BufDeque.Write.{Writes, write_all-Writes}
use faf_rust_replayserver.Util.BufDeque.Chunk.{as_chunked-Serves}
use faf_rust_replayserver.Util.ChunkedBuf.{iter_chunks}
use faf_rust_replayserver.Util.ChunkedBuf.Chunks.{slice, iter_chunks-Lists}
use faf_rust_replayserver.Streams.WriterReplay.{WriterReplay}
use faf_rust_replayserver.Streams.MergedReplay.{
  MergedReplay, new, data_len, add_data, write_chunks, advance_delayed_data, notify_read_event,
}

pub record Holds (m : MergedReplay) (c : Bytes) : Type 0 where
  pub rep : Rep m.content c
  pub whole : m.content.discarded_chunks ≡ 0
  pub delayed : m.delayed_data_len ≤ length c

pub new-Holds : Holds new []
unfolding new BufDeque.new
new-Holds = record { rep = new-Rep; whole = refl; delayed = omega arith }

WritesAll : BufDeque → Bytes → List Bytes → Type 0
WritesAll d h cs =
    (d' : BufDeque) × (write_chunks d cs ≡ some d')
    × Rep d' (h ++ concat cs)
    × (d'.discarded_chunks ≡ d.discarded_chunks)

then-WritesAll :
    (d : BufDeque) (h c : Bytes) (cs : List Bytes)
    → Writes d h c (BufDeque.write_all d c)
    → ((d' : BufDeque) → Rep d' (h ++ c) → WritesAll d' (h ++ c) cs)
    → WritesAll d h (c ∷ cs)
unfolding WritesAll write_chunks concat
then-WritesAll d h c cs (d', run, rep, same) later =
    let (d'', run', rep', same') = later d' rep in
    (d'', rw (run, run'), subst (Rep d'') (append_assoc h c (concat cs)) rep', same' ∙ same)

write_chunks-WritesAll : (d : BufDeque) (h : Bytes) (cs : List Bytes) → Rep d h → WritesAll d h cs
unfolding WritesAll write_chunks concat
write_chunks-WritesAll d h [] r = (d, refl, subst (Rep d) (sym (append-nil h)) r, refl)
write_chunks-WritesAll d h (c ∷ cs) r =
    then-WritesAll d h c cs (write_all-Writes d h c r)
      λ d' r'. write_chunks-WritesAll d' (h ++ c) cs r'

-- The canonical replay took the range of the writer's data up to `until`.
abbrev pub Merges : MergedReplay → Bytes → Bytes → ℕ → Option MergedReplay → Type 0
Merges m c h until o =
    (d : BufDeque) × (o ≡ some (record m { content = d }))
    × Holds (record m { content = d }) (c ++ slice h (length c) until)

-- For an unfinished canonical replay with data `c` and a writer with data `h` that still has its
-- bytes from the end of `c` on, `add_data` up to `until` succeeds and appends exactly the bytes of
-- `h` from the end of `c` to `until`; no other field changes.
pub add_data-Merges :
    (m : MergedReplay) (c : Bytes) (w : WriterReplay) (h : Bytes) (until : ℕ)
    → Holds m c
    → Rep w.content h
    → m.finished ≡ false
    → window_start w.content ≤ length c
    → length c ≤ until
    → until ≤ length h
    → Merges m c h until (add_data m w until)
unfolding add_data WritesAll
add_data-Merges m c w h until v r open' lo le bound = listed (
    iter_chunks-Lists _ _ h (as_chunked-Serves r) (data_len m) until (omega (arith, v.rep.end))
      (omega (arith, v.rep.end)) bound)
  where
    written :
        (cs : List Bytes)
        → iter_chunks (BufDeque.as_chunked w.content) (data_len m) until ≡ some cs
        → concat cs ≡ slice h (length c) until
        → WritesAll m.content c cs
        → Merges m c h until (add_data m w until)
    written cs got e (d, run, rep, same) = (
      d,
      simp (open', le→leb until w.content.window_end (omega (arith, r.end)), got, run),
      record {
        rep = subst (λ t. Rep d (c ++ t)) e rep;
        whole = same ∙ v.whole;
        delayed = omega (arith, v.delayed, length-append c (slice h (length c) until));
      },
    )

    listed :
        ((cs : List Bytes) × (iter_chunks (BufDeque.as_chunked w.content) (data_len m) until
            ≡ some cs)
          × (concat cs ≡ slice h (data_len m) until))
        → Merges m c h until (add_data m w until)
    listed (cs, got, e) =
        written cs got (e ∙ ap (λ k. slice h k until) v.rep.end)
          (write_chunks-WritesAll m.content c cs v.rep)

-- `advance_delayed_data` moves the delayed position, and wakes every waiting reader.
pub advance_delayed_data-Holds :
    (m : MergedReplay) (c : Bytes) (to : ℕ)
    → Holds m c
    → m.finished ≡ false
    → to ≤ length c
    → let m' = (notify_read_event (record m { delayed_data_len = to })).0 in
      (advance_delayed_data m to ≡ some (notify_read_event (record m { delayed_data_len = to })))
      × Holds m' c
unfolding advance_delayed_data notify_read_event
advance_delayed_data-Holds m c to v open' le = (
  simp (le→leb to m.content.window_end (omega (arith, v.rep.end)), open'),
  record { rep = v.rep; whole = v.whole; delayed = le },
)
