-- ===== src/Profile/Measure.antt =====
-- The speeds that a phase returns, against the samples that it was sent.
use proxy_speedtest.Prelude.{
  ℕ, ◌+◌, ◌*◌, ◌/◌, ◌^◌, ◌<◌, ◌≡◌, refl, ap, subst, ◌∙◌, Bool, true, false, List, [], ◌∷◌,
  if◌then◌else◌, ltb, arith,
}
use proxy_speedtest.Prelude.Int.{
  ℤ, pos, negsuc, ltb_ℤ, add_int64, mul_int64, quot, add_int64_small, mul_int64_small,
}
use proxy_speedtest.Text.{Str}
use proxy_speedtest.Message.{Formats}
use proxy_speedtest.Profile.Phase.{
  Event, sample, started, cancelled, Speeds, elapsed, count_sample, consume, at_start,
  run_speed_phase,
}

-- The samples up to the first that is negative, or to the end of the context.
abbrev pub accepted : List Event → List ℕ
accepted [] = []
accepted (sample (pos v) now ∷ es) = v ∷ accepted es
accepted (sample (negsuc v) now ∷ es) = []
accepted (started t ∷ es) = accepted es
accepted (cancelled ∷ es) = []

abbrev pub total : List ℕ → ℕ
total [] = 0
total (v ∷ vs) = v + total vs

abbrev pub larger : ℕ → ℕ → ℕ
larger a b = if ltb a b then b else a

abbrev pub maximum_from : ℕ → List ℕ → ℕ
maximum_from m [] = m
maximum_from m (v ∷ vs) = maximum_from (larger m v) vs

-- The milliseconds from the last start to the last sample, 1 before the first sample.
abbrev pub last_elapsed : ℕ → ℕ → List Event → ℕ
last_elapsed start last [] = last
last_elapsed start last (sample (pos v) now ∷ es) = last_elapsed start (elapsed start now) es
last_elapsed start last (sample (negsuc v) now ∷ es) = last
last_elapsed start last (started t ∷ es) = last_elapsed t last es
last_elapsed start last (cancelled ∷ es) = last

-- The speeds of the samples with the sum `t` and the maximum `m`, of which the last is read `ms` milliseconds after the start.
pub record IsMeasured (t m ms : ℕ) (s : Speeds) : Type 0 where
  pub sum : s.sum ≡ pos t
  pub max : s.max ≡ pos m
  pub avg : s.avg ≡ pos (t * 1000 / ms)

larger-ltb : (m v : ℕ) → (if ltb_ℤ (pos m) (pos v) then pos v else pos m) ≡ pos (larger m v)
larger-ltb m v = ground arith

same : (n t m ms : ℕ) (s : Speeds) → t ≡ n → IsMeasured t m ms s → IsMeasured n m ms s
same n t m ms s e k = subst (λ x. IsMeasured x m ms s) e k

-- The test on the sign of a sample.
if_kept :
    (v : ℕ) (P : Speeds → Type 0) (x y : Speeds) → P y → P (if ltb_ℤ (pos v) (pos 0) then x else y)
if_kept v P x y p = ground arith

if_dropped :
    (v : ℕ) (P : Speeds → Type 0) (x y : Speeds)
    → P x
    → P (if ltb_ℤ (negsuc v) (pos 0) then x else y)
if_dropped v P x y p = ground arith

module _ (fmt : Formats) (index : ℕ) (typ : Str) where
  count_sample-IsMeasured :
      (v now t m ms : ℕ) (s : Speeds)
      → IsMeasured t m ms s
      → (t + v) * 1000 < 2 ^ 63
      → IsMeasured
          (t + v)
          (larger m v)
          (elapsed s.start now)
          (count_sample fmt index typ (pos v) now s)
  unfolding count_sample
  count_sample-IsMeasured v now t m ms s k h =
      let e : add_int64 s.sum (pos v) ≡ pos (t + v) =
        ap (λ (x : ℤ). add_int64 x (pos v)) k.sum ∙ add_int64_small t v (omega arith) in
      record {
        sum = e;
        max = ap (λ (x : ℤ). if ltb_ℤ x (pos v) then pos v else x) k.max ∙ larger-ltb m v;
        avg =
            ap (λ (x : ℤ). quot (mul_int64 x (pos 1000)) (elapsed s.start now)) e
            ∙ ap (λ (x : ℤ). quot x (elapsed s.start now))
                (mul_int64_small (t + v) 1000 (omega arith) (omega arith) h);
      }

  consume-IsMeasured :
      (es : List Event) (n t m ms : ℕ) (s : Speeds)
      → n ≡ t + total (accepted es)
      → IsMeasured t m ms s
      → n * 1000 < 2 ^ 63
      → (i : ℕ) → s.start ≡ i
      → IsMeasured n
          (maximum_from m (accepted es))
          (last_elapsed i ms es)
          (consume fmt index typ es s)
  unfolding consume count_sample
  consume-IsMeasured [] n t m ms s e k h i d = same n t m ms s (omega arith) k
  consume-IsMeasured (sample (pos v) now ∷ es) n t m ms s e k h i d =
      if_kept v
        (λ (r : Speeds).
          IsMeasured n (maximum_from (larger m v) (accepted es)) (last_elapsed i (elapsed i now) es)
            r)
        s (consume fmt index typ es (count_sample fmt index typ (pos v) now s))
        (consume-IsMeasured es n (t + v) (larger m v) (elapsed i now)
          (count_sample fmt index typ (pos v) now s) (omega arith)
          (subst
            (λ j.
              IsMeasured (t + v) (larger m v) (elapsed j now)
                (count_sample fmt index typ (pos v) now s))
            d (count_sample-IsMeasured v now t m ms s k (omega arith)))
          h i d)
  consume-IsMeasured (sample (negsuc v) now ∷ es) n t m ms s e k h i d =
      if_dropped v (λ (r : Speeds). IsMeasured n m ms r) s
        (consume fmt index typ es (count_sample fmt index typ (negsuc v) now s))
        (same n t m ms s (omega arith) k)
  consume-IsMeasured (started j ∷ es) n t m ms s e k h i d =
      consume-IsMeasured es n t m ms (record s { start = j }) e
        (record { sum = k.sum; max = k.max; avg = k.avg }) h j refl
  consume-IsMeasured (cancelled ∷ es) n t m ms s e k h i d = same n t m ms s (omega arith) k

  IsMeasured-if :
      (b : Bool) (x y : Speeds) (t m ms : ℕ)
      → IsMeasured t m ms x
      → IsMeasured t m ms y
      → IsMeasured t m ms (if b then x else y)
  IsMeasured-if true x y t m ms p q = p
  IsMeasured-if false x y t m ms p q = q

  -- For samples whose sum times 1000 fits in an int64, a phase returns the sum and the maximum of the
  -- samples up to the first negative one or to the end of the context, and as average 1000 times the
  -- sum, divided by the milliseconds (one at least) from the last start time to the last sample, also
  -- when the speed that the transfer returned is 0.
  pub run_speed_phase-IsMeasured :
      (now : ℕ) (es : List Event) (speed : ℤ)
      → total (accepted es) * 1000 < 2 ^ 63
      → IsMeasured
          (total (accepted es))
          (maximum_from 0 (accepted es))
          (last_elapsed now 1 es)
          (run_speed_phase fmt index typ now es speed)
  unfolding run_speed_phase
  run_speed_phase-IsMeasured now es speed h =
      let k =
        consume-IsMeasured es (total (accepted es)) 0 0 1 (at_start fmt index typ now) (omega arith)
          (record { sum = refl; max = refl; avg = refl }) h now refl in
      IsMeasured-if (ltb_ℤ speed (pos 1)) _ _ _ _ _
        (record { sum = k.sum; max = k.max; avg = k.avg }) k
