-- ===== src/Rewind/Stream.antt =====
-- A rewind reader as the stream of the bytes that it still has to give.
use mathlib.Core.List.{append_assoc}
use proxy_speedtest.Prelude.{
  ℕ, zero, suc, ◌+◌, ◌≤◌, ◌<◌, ◌≡◌, refl, ap, ◌∙◌, sym, Bool, true, false, ◌&&◌, List, [], ◌∷◌,
  ◌++◌, some, if◌then◌else◌, ltb, ◌==◌, length, take, drop, arith,
}
use proxy_speedtest.Text.{Str}
use proxy_speedtest.Rewind.{
  RewindReader, Read, push, raw_bytes, raw_after, read_buffer, read_raw, read, reads, rewind,
}

abbrev pub concat : List Str → Str
concat [] = []
concat (c ∷ cs) = c ++ concat cs

-- What is left of the buffer, and the bytes of the reader below.
abbrev pub pending : RewindReader → Str
pending r = (if r.rewound then drop r.buf_read_idx r.buf else []) ++ concat r.raw_reader

take-drop : (n : ℕ) (a b : Str) → take n a ++ (drop n a ++ b) ≡ a ++ b
take-drop zero a b = refl
take-drop (suc n) [] b = refl
take-drop (suc n) (x ∷ a) b = ap (λ t. x ∷ t) (take-drop n a b)

length-take : (n : ℕ) (a : Str) → length (take n a) ≤ n
length-take zero a = omega arith
length-take (suc n) [] = omega arith
length-take (suc n) (x ∷ a) = omega (arith, length-take n a)

pub drop-all : (n : ℕ) (a : Str) → length a ≤ n → drop n a ≡ []
drop-all zero [] l = refl
drop-all zero (x ∷ a) l = absurd (omega arith)
drop-all (suc n) [] l = refl
drop-all (suc n) (x ∷ a) l = drop-all n a (omega arith)

drop-nil : (n : ℕ) → drop {A = ℕ} n [] ≡ []
drop-nil zero = refl
drop-nil (suc n) = refl

drop-length-take : (n : ℕ) (b : Str) → drop (length (take n b)) b ≡ drop n b
drop-length-take zero b = refl
drop-length-take (suc n) [] = refl
drop-length-take (suc n) (x ∷ b) = drop-length-take n b

-- To drop what was taken is to drop as many.
drop-taken : (i n : ℕ) (b : Str) → drop (i + length (take n (drop i b))) b ≡ drop n (drop i b)
drop-taken zero n b =
    let sum : 0 + length (take n b) ≡ length (take n b) = omega arith in
    ap (λ k. drop k b) sum ∙ drop-length-take n b
drop-taken (suc i) n [] = drop-nil (suc i + length (take n [])) ∙ sym (drop-nil n)
drop-taken (suc i) n (x ∷ b) =
    let m = length (take n (drop i b)) in
    let sum : suc i + m ≡ suc (i + m) = omega arith in
    ap (λ k. drop k (x ∷ b)) sum ∙ drop-taken i n b

concat-push : (d : Str) (cs : List Str) → concat (push d cs) ≡ d ++ concat cs
concat-push [] cs = refl
concat-push (b ∷ d) cs = refl

raw-concat : (n : ℕ) (cs : List Str) → raw_bytes n cs ++ concat (raw_after n cs) ≡ concat cs
raw-concat n [] = refl
raw-concat n (c ∷ cs) =
    ap (λ t. take n c ++ t) (concat-push (drop n c) cs) ∙ take-drop n c (concat cs)

length-raw_bytes : (n : ℕ) (cs : List Str) → length (raw_bytes n cs) ≤ n
length-raw_bytes n [] = omega arith
length-raw_bytes n (c ∷ cs) = length-take n c

-- What a read gives is taken off the stream.
abbrev pub Serves : RewindReader → ℕ → Read → Type 0
Serves r n x = (x.bytes ++ pending x.after ≡ pending r) × (length x.bytes ≤ n)

pub read_buffer-Serves :
    (n : ℕ) (r : RewindReader) → r.rewound ≡ true → Serves r n (read_buffer n r)
unfolding read_buffer
read_buffer-Serves n r e = (
  rw (e, drop-taken r.buf_read_idx n r.buf)
      (take-drop n (drop r.buf_read_idx r.buf) (concat r.raw_reader)),
  length-take n (drop r.buf_read_idx r.buf),
)

pub read_raw-Serves :
    (n : ℕ) (r : RewindReader)
    → (if r.rewound then drop r.buf_read_idx r.buf else []) ≡ []
    → Serves r n (read_raw n r)
unfolding read_raw
read_raw-Serves n r e = (rw e (raw-concat n r.raw_reader), length-raw_bytes n r.raw_reader)

read_by-Serves :
    (n : ℕ) (r : RewindReader) (b : Bool)
    → (r.rewound && ltb r.buf_read_idx (length r.buf)) ≡ b
    → Serves r n (if b then read_buffer n r else read_raw n r)
read_by-Serves n r true e = read_buffer-Serves n r (ground (arith, e))
read_by-Serves n r false e = read_raw-Serves n r (ground (arith, e, drop-all r.buf_read_idx r.buf))

-- `Read` gives the next bytes of the stream, at most as many as it has room for, and leaves the rest.
pub read-pending :
    (n : ℕ) (r : RewindReader)
    → ((read n r).bytes ++ pending (read n r).after ≡ pending r) × (length (read n r).bytes ≤ n)
unfolding read
read-pending n r = read_by-Serves n r _ refl

-- A reader that buffers keeps what it has read before what it has not.
abbrev pub Keeps : RewindReader → RewindReader → Type 0
Keeps r x =
    (x.buffering ≡ true)
    × (x.buffer_size ≡ r.buffer_size)
    × (x.buf ++ concat x.raw_reader ≡ r.buf ++ concat r.raw_reader)
    × (length x.raw_reader ≤ length r.raw_reader)

pub length-raw_after : (n : ℕ) (cs : List Str) → length (raw_after n cs) ≤ length cs
length-raw_after n [] = omega arith
length-raw_after n (c ∷ cs) = elim (drop n c) as (λ d. length (push d cs) ≤ length (c ∷ cs)) [
  | [] ↦ omega arith
  | b ∷ d ↦ omega arith
]

read_raw-Keeps : (n : ℕ) (r : RewindReader) → r.buffering ≡ true → Keeps r (read_raw n r).after
unfolding read_raw
read_raw-Keeps n r e = (
  e,
  refl,
  rw (e, append_assoc) (ap (λ t. r.buf ++ t) (raw-concat n r.raw_reader)),
  length-raw_after n r.raw_reader,
)

read-Keeps : (n : ℕ) (r : RewindReader) → r.buffering ≡ true → Keeps r (read n r).after
unfolding read read_buffer
read-Keeps n r e =
    elim (r.rewound && ltb r.buf_read_idx (length r.buf))
      as (λ b. Keeps r (if b then read_buffer n r else read_raw n r).after) [
        | true ↦ (e, refl, refl, omega arith)
        | false ↦ read_raw-Keeps n r e
      ]

pub reads-Keeps : (ns : List ℕ) (r : RewindReader) → r.buffering ≡ true → Keeps r (reads ns r).1
unfolding reads
reads-Keeps [] r e = (e, refl, refl, omega arith)
reads-Keeps (n ∷ ns) r e =
    let first = read-Keeps n r e in
    let rest = reads-Keeps ns (read n r).after first.0 in
    (rest.0, rest.1 ∙ first.1, rest.2 ∙ first.2, omega (arith, rest.3, first.3))

pub rewind-some :
    (x : RewindReader)
    → 0 < x.buffer_size
    → rewind x ≡ some (record x { rewound = true; buf_read_idx = 0 })
unfolding rewind
rewind-some x l = let some_size : (x.buffer_size == 0) ≡ false = ground arith in rw some_size refl
