-- ===== src/Rewind/Replay.antt =====
-- A rewind reader that is rewound again and again, and then read to its end.
use proxy_speedtest.Prelude.{
  ℕ, zero, suc, ◌+◌, ◌≤◌, ◌<◌, ◌≡◌, ◌⊎◌, inl, inr, refl, ap, ◌∙◌, sym, Bool, true, false, ◌&&◌, All,
  length-append, Option, none, List, [], ◌∷◌, ◌++◌, some, if◌then◌else◌, ltb, ◌==◌, length, take,
  drop, arith,
}
use proxy_speedtest.Text.{Str}
use proxy_speedtest.Rewind.{
  RewindReader, Read, raw_bytes, raw_after, read_buffer, read_raw, read, reads, rewind,
  set_buffer_size,
}
use proxy_speedtest.Rewind.Stream.{
  concat, pending, Serves, Keeps, read_buffer-Serves, read_raw-Serves, read-pending, drop-all,
  length-raw_after, reads-Keeps, rewind-some,
}

-- Reads and a `Rewind` after them, several times.
abbrev pub replays : List (List ℕ) → RewindReader → Option RewindReader
replays [] r = some r
replays (ns ∷ nss) r = elim (rewind (reads ns r).1) [ none ↦ none | some t ↦ replays nss t ]

abbrev after_rewind : List (List ℕ) → Option RewindReader → Option RewindReader
after_rewind nss o = elim o [ none ↦ none | some t ↦ replays nss t ]

abbrev Replayed : RewindReader → List (List ℕ) → RewindReader → Type 0
Replayed r nss s =
    (t : RewindReader) × (replays nss s ≡ some t)
    × Keeps r t
    × (t.rewound ≡ true)
    × (t.buf_read_idx ≡ 0)

replayed :
    (ns : List ℕ) (nss : List (List ℕ)) (r s t : RewindReader)
    → rewind (reads ns s).1 ≡ some t
    → Replayed r nss t
    → Replayed r (ns ∷ nss) s
replayed ns nss r s t e (u, p, k, w, i) = (u, ap (after_rewind nss) e ∙ p, k, w, i)

replays_from :
    (nss : List (List ℕ)) (r s : RewindReader)
    → 0 < s.buffer_size
    → Keeps r s
    → s.rewound ≡ true
    → s.buf_read_idx ≡ 0
    → Replayed r nss s
replays_from [] r s l k w i = (s, refl, k, w, i)
replays_from (ns ∷ nss) r s l k w i =
    let j = reads-Keeps ns s k.0 in
    let x = (reads ns s).1 in
    let room : 0 < x.buffer_size = rw j.1 l in
    let t : RewindReader = record x { rewound = true; buf_read_idx = 0 } in
    let kept : Keeps r t = (j.0, j.1 ∙ k.1, j.2 ∙ k.2, omega (arith, j.3, k.3)) in
    replayed ns nss r s t (rewind-some x room) (replays_from nss r t room kept refl refl)

replays-Replayed :
    (ns : List ℕ) (nss : List (List ℕ)) (r : RewindReader)
    → 0 < r.buffer_size
    → r.buffering ≡ true
    → Replayed r (ns ∷ nss) r
replays-Replayed ns nss r l b =
    let k = reads-Keeps ns r b in
    let x = (reads ns r).1 in
    let room : 0 < x.buffer_size = rw k.1 l in
    let t : RewindReader = record x { rewound = true; buf_read_idx = 0 } in
    replayed ns nss r r t (rewind-some x room)
      (replays_from nss r t room (k.0, k.1, k.2, k.3) refl refl)

-- A read into some room takes at least one byte or one chunk, where there is anything left.
abbrev left : RewindReader → ℕ
left r = length (pending r) + length r.raw_reader

take-some : (i m : ℕ) (b : Str) → i < length b → 1 ≤ length (take (suc m) (drop i b))
take-some i m [] l = absurd (omega arith)
take-some zero m (x ∷ b) l = omega arith
take-some (suc i) m (x ∷ b) l = take-some i m b (omega arith)

raw_some :
    (m : ℕ) (cs : List Str)
    → (1 ≤ length (raw_bytes (suc m) cs))
      ⊎ ((length (raw_after (suc m) cs) < length cs) ⊎ (cs ≡ []))
raw_some m [] = inr (inr refl)
raw_some m ([] ∷ cs) = inr (inl (omega arith))
raw_some m ((x ∷ c) ∷ cs) = inl (omega arith)

-- Bytes are taken off, or a chunk is, or nothing is left.
abbrev Progress : RewindReader → Read → Type 0
Progress r x = (pending r ≡ []) ⊎ (left x.after < left r)

shrinks :
    (r : RewindReader) (n : ℕ) (x : Read)
    → Serves r n x
    → length x.after.raw_reader ≤ length r.raw_reader
    → (1 ≤ length x.bytes) ⊎ (length x.after.raw_reader < length r.raw_reader)
    → left x.after < left r
shrinks r n x (e, l) c d =
    let sizes : length x.bytes + length (pending x.after) ≡ length (pending r) =
      sym (length-append x.bytes (pending x.after)) ∙ ap (λ (b : Str). length b) e in
    elim d [ inl p ↦ omega (arith, sizes, p, c) | inr p ↦ omega (arith, sizes, p, c) ]

read_buffer-Progress :
    (m : ℕ) (r : RewindReader)
    → r.rewound ≡ true
    → r.buf_read_idx < length r.buf
    → Progress r (read_buffer (suc m) r)
unfolding read_buffer
read_buffer-Progress m r e l = inr (
    shrinks r (suc m) (read_buffer (suc m) r) (read_buffer-Serves (suc m) r e) (omega arith)
      (inl (take-some r.buf_read_idx m r.buf l)))

read_raw-Progress :
    (m : ℕ) (r : RewindReader)
    → (if r.rewound then drop r.buf_read_idx r.buf else []) ≡ []
    → Progress r (read_raw (suc m) r)
unfolding read_raw
read_raw-Progress m r e =
    let least =
      shrinks r (suc m) (read_raw (suc m) r) (read_raw-Serves (suc m) r e)
        (length-raw_after (suc m) r.raw_reader) in
    elim (raw_some m r.raw_reader) [
      | inl p ↦ inr (least (inl p))
      | inr (inl p) ↦ inr (least (inr p))
      | inr (inr p) ↦ inl (rw (e, p) refl)
    ]

read_by-Progress :
    (m : ℕ) (r : RewindReader) (b : Bool)
    → (r.rewound && ltb r.buf_read_idx (length r.buf)) ≡ b
    → Progress r (if b then read_buffer (suc m) r else read_raw (suc m) r)
read_by-Progress m r true e = read_buffer-Progress m r (ground (arith, e)) (ground (arith, e))
read_by-Progress m r false e =
    read_raw-Progress m r (ground (arith, e, drop-all r.buf_read_idx r.buf))

read-Progress : (m : ℕ) (r : RewindReader) → Progress r (read (suc m) r)
unfolding read
read-Progress m r = read_by-Progress m r _ refl

empty_of_length : (b : Str) → length b ≤ 0 → b ≡ []
empty_of_length [] l = refl
empty_of_length (x ∷ b) l = absurd (omega arith)

empty_of_append : (a b : Str) → a ++ b ≡ [] → (a ≡ []) × (b ≡ [])
empty_of_append a b e =
    let sizes : length a + length b ≡ 0 = sym (length-append a b) ∙ ap (λ (c : Str). length c) e in
    (empty_of_length a (omega arith), empty_of_length b (omega arith))

reads-none : (ms : List ℕ) (r : RewindReader) → pending r ≡ [] → (reads ms r).0 ≡ []
unfolding reads
reads-none [] r e = refl
reads-none (m ∷ ms) r e =
    let (p, q) =
      empty_of_append (read m r).bytes (pending (read m r).after) ((read-pending m r).0 ∙ e) in
    rw (p, reads) (reads-none ms (read m r).after q)

reads-pending :
    (ms : List ℕ) (r : RewindReader)
    → All (λ m. 0 < m) ms
    → left r ≤ length ms
    → (reads ms r).0 ≡ pending r
unfolding reads
reads-pending [] r p l = sym (empty_of_length (pending r) (omega arith))
reads-pending (zero ∷ ms) r p l = absurd (omega (arith, p.0))
reads-pending (suc m ∷ ms) r p l = elim (read-Progress m r) [
  | inl e ↦ reads-none (suc m ∷ ms) r e ∙ sym e
  | inr d ↦
      ap (λ (b : Str). (read (suc m) r).bytes ++ b)
        (reads-pending ms (read (suc m) r).after p.1 (omega (arith, d)))
      ∙ (read-pending (suc m) r).0
]

-- A reader that does not buffer, and whose buffer is then set: it can be rewound after any reads, as often
-- as one likes. After the last time, reads into some room each, as many as there were bytes and chunks
-- in the reader below when the buffer was set, give exactly these bytes again.
pub rewind-reads :
    (size : ℕ) (ns : List ℕ) (nss : List (List ℕ)) (ms : List ℕ) (r : RewindReader)
    → 0 < size
    → r.buffering ≡ false
    → All (λ m. 0 < m) ms
    → length (concat r.raw_reader) + length r.raw_reader ≤ length ms
    → (s : RewindReader) × (t : RewindReader) × (set_buffer_size size r ≡ some s)
      × (replays (ns ∷ nss) s ≡ some t)
      × ((reads ms t).0 ≡ concat r.raw_reader)
unfolding set_buffer_size
rewind-reads size ns nss ms r l b p h =
    let s : RewindReader = record r {
      buffering = true;
      buf_read_idx = 0;
      buffer_size = size;
      buf = [];
    } in
    let some_size : (size == 0) ≡ false = ground arith in
    let (t, e, k, w, i) = replays-Replayed ns nss s l refl in
    let again : pending t ≡ concat r.raw_reader = rw (w, i) k.2 in
    let few : left t ≤ length ms = omega (arith, ap (λ (c : Str). length c) again, k.3) in
    (s, t, rw (some_size, b) refl, e, reads-pending ms t p few ∙ again)
