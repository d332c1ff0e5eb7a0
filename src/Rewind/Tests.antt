-- ===== src/Rewind/Tests.antt =====
-- A connection that gives five bytes and then three.
use proxy_speedtest.Prelude.{ℕ, List, ◌≡◌, refl, false, [], ◌∷◌, some, length, arith, replicate}
use proxy_speedtest.Rewind.{RewindReader, read, reads, discard, set_buffer_size}
use proxy_speedtest.Rewind.Stream.{concat, pending}
use proxy_speedtest.Rewind.Replay.{replays, rewind-reads}

abbrev small : RewindReader
small = record {
  raw_reader = (1 ∷ 2 ∷ 3 ∷ 4 ∷ 5 ∷ []) ∷ (6 ∷ 7 ∷ 8 ∷ []) ∷ [];
  buf = [];
  buf_read_idx = 0;
  rewound = false;
  buffering = false;
  buffer_size = 0;
}

abbrev big : RewindReader
big = record small { raw_reader = replicate 300 0 ∷ [] }

first_reads : (reads (2 ∷ 9 ∷ 9 ∷ []) small).0 ≡ 1 ∷ 2 ∷ 3 ∷ 4 ∷ 5 ∷ 6 ∷ 7 ∷ 8 ∷ []
unfolding reads read proxy_speedtest.Rewind.read_raw
first_reads = refl

-- `Discard` of 200 bytes takes 200 and returns 72; of 256 it takes 128 and returns 256.
discard_200 : ((discard 200 big).0 ≡ 72) × (length (pending (discard 200 big).2) ≡ 100)
unfolding discard proxy_speedtest.Rewind.discard_loop read proxy_speedtest.Rewind.read_raw
discard_200 = (refl, refl)

discard_256 : ((discard 256 big).0 ≡ 256) × (length (pending (discard 256 big).2) ≡ 172)
unfolding discard proxy_speedtest.Rewind.discard_loop read proxy_speedtest.Rewind.read_raw
discard_256 = (refl, refl)

-- Three bytes are read, then all again up to the sixth, and then eight single bytes and two empty reads.
abbrev single_reads : List ℕ
single_reads = replicate 10 1

rewind-reads_example :
    (s : RewindReader) × (t : RewindReader) × (set_buffer_size 4 small ≡ some s)
    × (replays ((3 ∷ []) ∷ (2 ∷ 9 ∷ []) ∷ []) s ≡ some t)
    × ((reads single_reads t).0 ≡ concat small.raw_reader)
rewind-reads_example =
    rewind-reads 4 (3 ∷ []) ((2 ∷ 9 ∷ []) ∷ []) single_reads small (omega arith) refl (ground arith)
      (ground arith)
