-- ===== src/Download/Upload.antt =====
-- download/download.go: `uploadBody`, the body of an upload, which gives as many bytes 0 as the upload
-- has, and `uploadBodyDigest`, the bytes that are hashed for its header. The hash is not modelled, and
-- a context that ends is a Boolean at each read.
use proxy_speedtest.Download.Meter.{all_bytes}
use proxy_speedtest.Prelude.{
  ℕ, zero, suc, ◌+◌, ◌-◌, ◌≤◌, ◌≡◌, refl, sym, ap, ◌∙◌, Bool, true, false, List, [], ◌∷◌, ◌++◌,
  Option, none, some, ◌*◌, if◌then◌else◌, ltb, leb, replicate, arith,
}

-- The length of `zeroBlock`, of which a loop takes as much as it needs.
abbrev pub block_size : ℕ
block_size = 32 * 1024

abbrev pub at_most : ℕ → ℕ → ℕ
at_most bound n = if ltb bound n then bound else n

-- The loop that writes `n` bytes 0 from the block; it runs on fuel, of which it needs at most `n`.
unfoldable pub blocks : ℕ → ℕ → List ℕ
blocks zero n = []
blocks (suc fuel) n =
    let step = at_most block_size n in
    let rest = blocks fuel (n - step) in if ltb 0 n then replicate step 0 ++ rest else []

unfoldable pub digested : ℕ → List ℕ
digested size = blocks size size

pub record UploadBody : Type 0 where
  pub sent : ℕ
  pub remaining : ℕ

-- `Read` of a buffer of a length: the bytes that it gives, or io.EOF.
unfoldable pub read : Bool → ℕ → UploadBody → Option (List ℕ) × UploadBody
read over len b =
    if over
    then (none, b)
    else if leb b.remaining 0
    then (none, b)
    else let n = at_most b.remaining len in
      (some (blocks n n), record { sent = b.sent + n; remaining = b.remaining - n })

abbrev in_front : List ℕ → List ℕ × UploadBody → List ℕ × UploadBody
in_front bytes (more, b) = (bytes ++ more, b)

-- What a reader of the body does: reads one after the other, up to an io.EOF.
unfoldable pub reads : List (Bool × ℕ) → UploadBody → List ℕ × UploadBody
reads [] b = ([], b)
reads ((over, len) ∷ ls) b =
    let (got, c) = read over len b in
    elim got [ none ↦ ([], c) | some bytes ↦ in_front bytes (reads ls c) ]

-- Buffers that are read while the context lives.
abbrev pub alive : List ℕ → List (Bool × ℕ)
alive [] = []
alive (n ∷ ns) = (false, n) ∷ alive ns

-- Bytes 0.
abbrev empty_bytes : ℕ → List ℕ
empty_bytes n = replicate n 0

empty_bytes-add : (m n : ℕ) → empty_bytes m ++ empty_bytes n ≡ empty_bytes (m + n)
empty_bytes-add zero n = ap empty_bytes (omega arith)
empty_bytes-add (suc m) n =
    let e : suc (m + n) ≡ suc m + n = omega arith in
    ap (λ (r : List ℕ). 0 ∷ r) (empty_bytes-add m n) ∙ ap empty_bytes e

joined : (m n k : ℕ) → m + n ≡ k → empty_bytes m ++ empty_bytes n ≡ empty_bytes k
joined m n k e = empty_bytes-add m n ∙ ap empty_bytes e

blocks-replicate : (fuel n : ℕ) → n ≤ fuel → blocks fuel n ≡ empty_bytes n
unfolding blocks
blocks-replicate zero zero h = refl
blocks-replicate zero (suc n) h = elim h [ ]
blocks-replicate (suc fuel) zero h = refl
blocks-replicate (suc fuel) (suc n) h =
    let step = at_most block_size (suc n) in
    let more : ltb 0 (suc n) ≡ true = ground arith in
    rw (more, blocks)
      (ap (λ (r : List ℕ). empty_bytes step ++ r)
          (blocks-replicate fuel (suc n - step) (ground arith))
        ∙ joined step (suc n - step) (suc n) (ground arith))

-- What reads of `room` bytes in all make of a body.
abbrev pub body_at : ℕ → ℕ → UploadBody
body_at s r = record { sent = s; remaining = r }

-- `k` bytes given, with `s` sent and `r` remaining.
abbrev result : ℕ → ℕ → ℕ → List ℕ × UploadBody
result k s r = (empty_bytes k, body_at s r)

result_eq : (k l s t m n : ℕ) → k ≡ l → s ≡ t → m ≡ n → result k s m ≡ result l t n
result_eq k l s t m n p q r =
    ap (λ (x : ℕ). result x s m) p ∙ ap (λ (x : ℕ). result l x m) q ∙ ap (λ (x : ℕ). result l t x) r

read-remaining :
    (n s r : ℕ)
    → read false n (body_at s (suc r)) ≡ (
      some (empty_bytes (at_most (suc r) n)),
      body_at (s + at_most (suc r) n) (suc r - at_most (suc r) n),
    )
unfolding read
read-remaining n s r =
    let left : leb (suc r) 0 ≡ false = ground arith in
    let m = at_most (suc r) n in rw (left, read) (rw (blocks-replicate m m (omega arith)) refl)

abbrev on_read : List ℕ → Option (List ℕ) × UploadBody → List ℕ × UploadBody
on_read ns (got, b) = elim got [ none ↦ ([], b) | some bytes ↦ in_front bytes (reads (alive ns) b) ]

reads-alive :
    (ns : List ℕ) (s r k : ℕ)
    → k ≡ at_most r (all_bytes ns)
    → reads (alive ns) (body_at s r) ≡ result k (s + k) (r - k)
unfolding reads read
reads-alive [] s r k e =
    result_eq 0 k s (s + k) r (r - k) (ground arith) (ground arith) (ground arith)
reads-alive (n ∷ ns) s zero k e =
    result_eq 0 k s (s + k) 0 (0 - k) (ground arith) (ground arith) (ground arith)
reads-alive (n ∷ ns) s (suc r) k e =
    let m = at_most (suc r) n in
    let l = at_most (suc r - m) (all_bytes ns) in
    let rest = reads-alive ns (s + m) (suc r - m) l refl in
    let bytes : empty_bytes m ++ empty_bytes l ≡ empty_bytes k = joined m l k (ground (arith, e)) in
    let sum : List ℕ → List ℕ × UploadBody = λ x. (x, body_at (s + m + l) (suc r - m - l)) in
    ap (on_read ns) (read-remaining n s r)
    ∙ ap (in_front (empty_bytes m)) rest
    ∙ ap sum bytes
    ∙ result_eq k k (s + m + l) (s + k) (suc r - m - l) (suc r - k) refl (ground (arith, e))
        (ground (arith, e))

-- Reads of buffers with room for the whole body, while the context lives, give exactly the bytes that
-- are hashed for the header; they count as many bytes as sent as the body has, and leave none.
pub reads-digested :
    (size : ℕ) (ns : List ℕ)
    → size ≤ all_bytes ns
    → reads (alive ns) (body_at 0 size) ≡ (digested size, body_at size 0)
unfolding digested
reads-digested size ns h =
    let whole : List ℕ → List ℕ × UploadBody = λ x. (x, body_at size 0) in
    reads-alive ns 0 size size (ground arith)
    ∙ result_eq size size (0 + size) size (size - size) 0 refl (omega arith) (omega arith)
    ∙ ap whole (sym (blocks-replicate size size (omega arith)))
