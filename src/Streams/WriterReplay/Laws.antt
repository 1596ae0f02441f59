-- ===== src/Streams/WriterReplay/Laws.antt =====
-- The data that a writer replay stands for, and what its operations do to it.
use faf_rust_replayserver.Base.{
  Bytes, ℕ, ◌-◌, ◌≤◌, ◌<◌, ◌^◌, ◌≡◌, [], ◌++◌, some, arith, length, le→leb, length-append,
}
use faf_rust_replayserver.Util.BufDeque
use faf_rust_replayserver.Util.BufDeque.{BufDeque, window_start, chunk_size}
use faf_rust_replayserver.Util.BufDeque.Rep.{Rep, new-Rep}
use faf_rust_replayserver.Util.BufDeque.Write.{Writes, write_all-Writes}
use faf_rust_replayserver.Util.BufDeque.Discard.{discard-Rep, window_start-discard, len-discard}
use faf_rust_replayserver.Streams.WriterReplay.{
  WriterReplay, new, data_len, add_data, set_delayed_data_len, discard, discard_all, usize_max,
}

-- `h` is all the data that was received.
pub record Holds (w : WriterReplay) (h : Bytes) : Type 0 where
  pub rep : Rep w.content h
  pub delayed : w.delayed_data_len ≤ length h

pub new-Holds : Holds new []
unfolding new
new-Holds = record { rep = new-Rep; delayed = omega arith }

pub data_len-Holds : {w : WriterReplay} {h : Bytes} → Holds w h → data_len w ≡ length h
data_len-Holds v = v.rep.end

-- Adding `buf` to a writer replay that holds the data `h` succeeds; it then holds `h` followed by
-- `buf`, and neither another field nor the start of the window changes.
pub add_data-Holds :
    (w : WriterReplay) (h buf : Bytes)
    → Holds w h
    → (c : BufDeque) × (add_data w buf ≡ some (record w { content = c }))
      × Holds (record w { content = c }) (h ++ buf)
      × (window_start c ≡ window_start w.content)
unfolding add_data
add_data-Holds w h buf v = after (write_all-Writes w.content h buf v.rep)
  where
    after :
        Writes w.content h buf (BufDeque.write_all w.content buf)
        → (c : BufDeque) × (add_data w buf ≡ some (record w { content = c }))
          × Holds (record w { content = c }) (h ++ buf)
          × (window_start c ≡ window_start w.content)
    after (c, run, rep, same) = (
      c,
      rw run,
      record { rep = rep; delayed = omega (arith, length-append h buf, v.delayed) },
      omega (arith, same),
    )

pub discard-Holds :
    {w : WriterReplay} {h : Bytes} (until : ℕ) → Holds w h → Holds (discard w until) h
unfolding discard
discard-Holds {w} {h} until v = record {
  rep = discard-Rep w.content h until v.rep;
  delayed = v.delayed;
}

pub window_start-discard_le :
    (w : WriterReplay) (until lo : ℕ)
    → window_start w.content ≤ lo
    → until ≤ lo
    → window_start (discard w until).content ≤ lo
unfolding discard
window_start-discard_le w until lo l k = omega (arith, window_start-discard w.content until)

pub data_len-discard : (w : WriterReplay) (until : ℕ) → data_len (discard w until) ≡ data_len w
unfolding discard
data_len-discard w until = len-discard w.content until

-- After `discard_all` of a window that starts below 2 ^ 64, it starts at the last multiple of the
-- chunk size below 2 ^ 64.
pub discard_all-window_start :
    (w : WriterReplay)
    → window_start w.content < 2 ^ 64
    → window_start (discard_all w).content ≡ 2 ^ 64 - chunk_size
unfolding discard_all
discard_all-window_start w b = omega (arith, window_start-discard w.content usize_max)

pub discard_all-Holds : {w : WriterReplay} {h : Bytes} → Holds w h → Holds (discard_all w) h
unfolding discard_all
discard_all-Holds {w} {h} v = record {
  rep = discard-Rep w.content h usize_max v.rep;
  delayed = v.delayed;
}

pub data_len-discard_all : (w : WriterReplay) → data_len (discard_all w) ≡ data_len w
unfolding discard_all
data_len-discard_all w = len-discard w.content usize_max

pub set_delayed_data_len-Holds :
    (w : WriterReplay) (h : Bytes) (new : ℕ)
    → Holds w h
    → w.delayed_data_len ≤ new
    → new ≤ length h
    → (set_delayed_data_len w new ≡ some (record w { delayed_data_len = new }))
      × Holds (record w { delayed_data_len = new }) h
unfolding set_delayed_data_len
set_delayed_data_len-Holds w h new v le bound =
    (rw (le→leb _ _ le), record { rep = v.rep; delayed = bound })
