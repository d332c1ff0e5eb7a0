-- ===== src/Rewind.antt =====
-- common/io.go: `RewindReader`, which can read again what it has read since its buffer was set. The
-- reader below it is a list of chunks, the bytes that its reads have at hand one after the other; an
-- error comes with the end of the list.
pub mod Stream
pub mod Replay
mod Tests
use proxy_speedtest.Prelude.{
  ℕ, zero, suc, ◌+◌, ◌%◌, ◌≡◌, Bool, true, false, not, ◌&&◌, List, [], ◌∷◌, ◌++◌, Option, none,
  some, if◌then◌else◌, ltb, ◌==◌, length, take, drop,
}
use proxy_speedtest.Text.{Str}

pub record RewindReader : Type 0 where
  pub raw_reader : List Str
  pub buf : Str
  pub buf_read_idx : ℕ
  pub rewound : Bool
  pub buffering : Bool
  pub buffer_size : ℕ

-- What a read of at most `n` bytes gives, and whether it gives an error.
pub record Read : Type 0 where
  pub bytes : Str
  pub failed : Bool
  pub after : RewindReader

-- `rawReader.Read`: the bytes, and the chunks after it.
abbrev pub raw_bytes : ℕ → List Str → Str
raw_bytes n [] = []
raw_bytes n (c ∷ cs) = take n c

abbrev pub push : Str → List Str → List Str
push [] cs = cs
push (b ∷ c) cs = (b ∷ c) ∷ cs

abbrev pub raw_after : ℕ → List Str → List Str
raw_after n [] = []
raw_after n (c ∷ cs) = push (drop n c) cs

abbrev pub raw_failed : List Str → Bool
raw_failed [] = true
raw_failed (c ∷ cs) = false

-- `Read` from the buffer.
unfoldable pub read_buffer : ℕ → RewindReader → Read
read_buffer n r =
    let bytes = take n (drop r.buf_read_idx r.buf) in
    record {
      bytes = bytes;
      failed = false;
      after = record r { buf_read_idx = r.buf_read_idx + length bytes };
    }

-- `Read` from the reader below.
unfoldable pub read_raw : ℕ → RewindReader → Read
read_raw n r =
    let bytes = raw_bytes n r.raw_reader in
    record {
      bytes = bytes;
      failed = raw_failed r.raw_reader;
      after = record r {
        raw_reader = raw_after n r.raw_reader;
        rewound = false;
        buf = if r.buffering then r.buf ++ bytes else r.buf;
      };
    }

-- `Read`, into `n` bytes
unfoldable pub read : ℕ → RewindReader → Read
read n r = if r.rewound && ltb r.buf_read_idx (length r.buf) then read_buffer n r else read_raw n r

-- Several reads: all their bytes.
unfoldable pub reads : List ℕ → RewindReader → Str × RewindReader
reads [] r = ([], r)
reads (n ∷ ns) r =
    let first = read n r in let rest = reads ns first.after in (first.bytes ++ rest.0, rest.1)

-- What `Discard` returns: the count, whether there is an error, and the reader after it.
abbrev pub discarded : Read → ℕ × Bool × RewindReader
discarded x = (length x.bytes, x.failed, x.after)

-- The loop of `Discard` from a count on; the fuel bounds its rounds.
unfoldable pub discard_loop : ℕ → ℕ → ℕ → RewindReader → ℕ × Bool × RewindReader
discard_loop zero n count r = (count, false, r)
discard_loop (suc f) n count r =
    let x = read 128 r in
    let rest = discard_loop f n (count + 128) x.after in
    if ltb (count + 128) n
    then (if x.failed then (count, true, x.after) else rest)
    else (count, false, r)

abbrev pub discard_rest : ℕ → ℕ × Bool × RewindReader → ℕ × Bool × RewindReader
discard_rest n (count, true, r) = (count, true, r)
discard_rest n (count, false, r) =
    if n % 128 == 0 then (n, false, r) else discarded (read (n % 128) r)

-- `Discard`
unfoldable pub discard : ℕ → RewindReader → ℕ × Bool × RewindReader
discard n r = if ltb n 128 then discarded (read n r) else discard_rest n (discard_loop n n 0 r)

-- `Rewind`; none is its panic.
unfoldable pub rewind : RewindReader → Option RewindReader
rewind r = if r.buffer_size == 0 then none else some (record r { rewound = true; buf_read_idx = 0 })

-- `StopBuffering`
unfoldable pub stop_buffering : RewindReader → RewindReader
stop_buffering r = record r { buffering = false }

-- `SetBufferSize`; none is one of its panics.
unfoldable pub set_buffer_size : ℕ → RewindReader → Option RewindReader
set_buffer_size size r =
    let off = record r { buffering = false; buf = []; buf_read_idx = 0; buffer_size = 0 } in
    let on = record r { buffering = true; buf_read_idx = 0; buffer_size = size; buf = [] } in
    if size == 0
    then (if not r.buffering then none else some off)
    else if r.buffering
    then none
    else some on
