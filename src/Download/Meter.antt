-- ===== src/Download/Meter.antt =====
-- download/download.go: the ticker of `DownloadWithURLThreads` and of `UploadWithURLThreads`, which
-- turns the bytes that the threads count into a sample for each second and a greatest one, and the
-- requests that count. What the threads count and when the ticker fires is a list of events; the bytes
-- of one test are below 2^63.
use proxy_speedtest.Prelude.{
  ℕ, ◌+◌, ◌≡◌, ◌↔◌, refl, ap, ◌∙◌, Bool, true, false, ◌&&◌, ◌||◌, List, [], ◌∷◌, ◌++◌,
  if◌then◌else◌, ltb, leb, ◌==◌, arith,
}

-- A status code that counts, and the bytes that one request adds: the reads of a download, or what an
-- upload has sent. A request that fails adds none.
abbrev pub is_success : ℕ → Bool
is_success status = leb 200 status && ltb status 300

pub data Answer : Type 0 where
  failed : Answer
  answered : ℕ → List ℕ → Answer

abbrev pub all_bytes : List ℕ → ℕ
all_bytes [] = 0
all_bytes (n ∷ ns) = n + all_bytes ns

unfoldable pub added : Answer → ℕ
added failed = 0
added (answered status reads) = if is_success status then all_bytes reads else 0

-- Bytes are added to the counter, or the ticker fires: with whether five seconds have passed, and
-- whether the sample is sent before the context ends.
pub data Event : Type 0 where
  counted : ℕ → Event
  ticked : Bool → Bool → Event

pub record Meter : Type 0 where
  pub counter : ℕ
  pub total : ℕ
  pub max : ℕ
  pub sent : List ℕ

-- `flush`
unfoldable pub flush : Bool → Bool → Meter → Meter
flush report_zero delivered m = record {
  counter = 0;
  total = if ltb 0 m.counter then m.total + m.counter else m.total;
  max = if ltb 0 m.counter && ltb m.max m.counter then m.counter else m.max;
  sent = if (report_zero || ltb 0 m.counter) && delivered then m.sent ++ m.counter ∷ [] else m.sent;
}

pub data Measured : Type 0 where
  given_up : Meter → Measured
  peak : ℕ → Meter → Measured

-- The loop, which ends after the events since the threads are done or the time is over.
unfoldable pub measure : List Event → Bool → Meter → Measured
measure [] delivered m = let n = flush false delivered m in peak n.max n
measure (counted n ∷ es) delivered m = measure es delivered (record m { counter = m.counter + n })
measure (ticked late sent ∷ es) delivered m =
    let n = flush true sent m in
    let rest = measure es delivered n in if (n.total == 0) && late then given_up n else rest

abbrev pub new_meter : Meter
new_meter = record { counter = 0; total = 0; max = 0; sent = [] }

-- The bytes of the events; those of each interval between two readings of the counter, the first of
-- them with `v` bytes already; and the greatest of some numbers.
abbrev pub bytes_of : List Event → ℕ
bytes_of [] = 0
bytes_of (counted n ∷ es) = n + bytes_of es
bytes_of (ticked late sent ∷ es) = bytes_of es

abbrev pub intervals : ℕ → List Event → List ℕ
intervals v [] = v ∷ []
intervals v (counted n ∷ es) = intervals (v + n) es
intervals v (ticked late sent ∷ es) = v ∷ intervals 0 es

abbrev pub greatest : ℕ → List ℕ → ℕ
greatest n [] = n
greatest n (v ∷ vs) = greatest (if ltb n v then v else n) vs

-- The ticker fires after five seconds, and no byte was counted before.
abbrev pub IsStarved : List Event → Type 0
IsStarved [] = ⊥
IsStarved (counted n ∷ es) = (n ≡ 0) × IsStarved es
IsStarved (ticked true sent ∷ es) = Unit
IsStarved (ticked false sent ∷ es) = IsStarved es

abbrev pub IsMeasured : List Event → Measured → Type 0
IsMeasured es (given_up m) = IsStarved es
IsMeasured es (peak r m) =
    (¬ IsStarved es) × (m.total ≡ bytes_of es) × (r ≡ greatest 0 (intervals 0 es))

-- The same from a state on.
abbrev MeasuredFrom : Meter → List Event → Measured → Type 0
MeasuredFrom s es (given_up m) = (s.total + s.counter ≡ 0) × IsStarved es
MeasuredFrom s es (peak r m) =
    ((s.total + s.counter ≡ 0) → ¬ IsStarved es)
    × (m.total ≡ s.total + s.counter + bytes_of es)
    × (r ≡ greatest s.max (intervals s.counter es))

-- What `flush` makes of the total, the greatest sample and the counter.
abbrev Flushed : Meter → Meter → Type 0
Flushed m n =
    (n.total ≡ m.total + m.counter)
    × (n.max ≡ (if ltb m.max m.counter then m.counter else m.max))
    × (n.counter ≡ 0)

flush-Flushed : (b d : Bool) (m : Meter) → Flushed m (flush b d m)
unfolding flush
flush-Flushed b d m = (ground arith, ground arith, refl)

counted-MeasuredFrom :
    (n : ℕ) (es : List Event) (m : Meter) (r : Measured)
    → MeasuredFrom (record m { counter = m.counter + n }) es r
    → MeasuredFrom m (counted n ∷ es) r
counted-MeasuredFrom n es m (given_up x) (e, h) = (omega arith, (omega arith, h))
counted-MeasuredFrom n es m (peak x y) (f, e, h) =
    (λ k. λ (z, i). f (omega arith) i, omega arith, h)

not_late-IsStarved :
    (late sent : Bool) (es : List Event)
    → ¬ (late ≡ true)
    → IsStarved (ticked late sent ∷ es) ↔ IsStarved es
not_late-IsStarved true sent es h = absurd (h refl)
not_late-IsStarved false sent es h = (λ x. x, λ x. x)

goes_on-MeasuredFrom :
    (late sent : Bool) (es : List Event) (m n : Meter) (r : Measured)
    → Flushed m n
    → (late ≡ true → ¬ (n.total ≡ 0))
    → MeasuredFrom n es r
    → MeasuredFrom m (ticked late sent ∷ es) r
goes_on-MeasuredFrom late sent es m n (given_up x) (t, p, c) o (e, h) =
    (omega arith, (not_late-IsStarved late sent es (λ l. o l (omega arith))).1 h)
goes_on-MeasuredFrom late sent es m n (peak x y) (t, p, c) o (f, e, h) = (
  λ k i. f (omega arith) ((not_late-IsStarved late sent es (λ l. o l (omega arith))).0 i),
  omega arith,
  h
      ∙ ap (λ (v : ℕ). greatest n.max (intervals v es)) c
      ∙ ap (λ (v : ℕ). greatest v (intervals 0 es)) p,
)

ticked-MeasuredFrom :
    (b late sent : Bool) (es : List Event) (m n : Meter) (r : Measured)
    → Flushed m n
    → (n.total == 0) ≡ b
    → MeasuredFrom n es r
    → MeasuredFrom m (ticked late sent ∷ es) (if b && late then given_up n else r)
ticked-MeasuredFrom true true sent es m n r f e h = (ground (arith, f.0, e), tt)
ticked-MeasuredFrom true false sent es m n r f e h =
    goes_on-MeasuredFrom false sent es m n r f (λ l. absurd (ground (arith, l))) h
ticked-MeasuredFrom false late sent es m n r f e h =
    goes_on-MeasuredFrom late sent es m n r f (λ _ z. absurd (ground (arith, e, z))) h

measure-MeasuredFrom : (es : List Event) (d : Bool) (m : Meter) → MeasuredFrom m es (measure es d m)
unfolding measure
measure-MeasuredFrom [] d m =
    let (total, max, _) = flush-Flushed false d m in (λ _ x. x, omega (arith, total), max)
measure-MeasuredFrom (counted n ∷ es) d m =
    counted-MeasuredFrom n es m _ (measure-MeasuredFrom es d (record m { counter = m.counter + n }))
measure-MeasuredFrom (ticked late sent ∷ es) d m =
    ticked-MeasuredFrom _ late sent es m (flush true sent m) _ (flush-Flushed true sent m) refl
      (measure-MeasuredFrom es d (flush true sent m))

from_new : (es : List Event) (r : Measured) → MeasuredFrom new_meter es r → IsMeasured es r
from_new es (given_up m) (e, h) = h
from_new es (peak r m) (f, e, h) = (f (omega arith), omega arith, h)

-- A measurement gives up exactly where the ticker fires after five seconds and no byte was counted
-- before. Otherwise its total is the number of bytes counted, and the speed that it returns is the
-- greatest number of bytes counted between two readings of the counter.
pub measure-IsMeasured : (es : List Event) (d : Bool) → IsMeasured es (measure es d new_meter)
measure-IsMeasured es d = from_new es (measure es d new_meter) (measure-MeasuredFrom es d new_meter)
