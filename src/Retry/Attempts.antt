-- ===== src/Retry/Attempts.antt =====
-- The attempts of `On`.
use proxy_speedtest.Prelude.{
  ℕ, zero, suc, ◌+◌, ◌*◌, ◌%◌, ◌^◌, ◌≡◌, refl, sym, ap, ◌∙◌, false, List, [], ◌∷◌, ◌++◌, Option,
  none, some, if◌then◌else◌, ltb, arith, Option-cases, inl, inr,
}
use mathlib.Core.List.{append_assoc, append-nil}
use proxy_speedtest.Text.{Str}
use proxy_speedtest.Retry.{exponential_backoff, Tried, is_new, loop, on}

-- The number of failures before the first success, among some attempts.
unfoldable pub failures : (ℕ → Option Str) → ℕ → ℕ → ℕ
failures method zero attempt = 0
failures method (suc left) attempt = elim (method attempt) [
  | none ↦ 0
  | some e ↦ suc (failures method left (attempt + 1))
]

-- The waits after `n` failures: multiples of the delay modulo 2 ^ 32.
abbrev pub waits_from : ℕ → ℕ → ℕ → List ℕ
waits_from delay k zero = []
waits_from delay k (suc n) = (k * delay) % 2 ^ 32 ∷ waits_from delay (k + 1) n

-- `f` failures among `n` attempts.
pub record IsTried (f n delay k : ℕ) (before t : Tried) : Type 0 where
  pub success : t.success ≡ ltb f n
  pub calls : t.calls ≡ before.calls + (if ltb f n then f + 1 else f)
  pub waits : t.waits ≡ before.waits ++ waits_from delay k f

wrapped : (x d s : ℕ) → s ≡ x % 2 ^ 32 → (s + d) % 2 ^ 32 ≡ (x + d) % 2 ^ 32
wrapped x d s e = omega arith

next_wait :
    (k delay s : ℕ) → s ≡ (k * delay) % 2 ^ 32 → (s + delay) % 2 ^ 32 ≡ ((k + 1) * delay) % 2 ^ 32
next_wait k delay s e =
    let p : (k + 1) * delay ≡ k * delay + delay = omega arith in
    wrapped (k * delay) delay s e ∙ ap (λ (x : ℕ). x % 2 ^ 32) (sym p)

module _ (method : ℕ → Option Str) (delay : ℕ) where
  abbrev grows : ℕ → ℕ × ℕ
  grows s = (s, (s + delay) % 2 ^ 32)

  loop-IsTried :
      (n i k s : ℕ) (t : Tried)
      → s ≡ (k * delay) % 2 ^ 32
      → t.success ≡ false
      → IsTried (failures method n i) n delay k t (loop method grows n i s t)
  unfolding loop failures
  loop-IsTried zero i k s t e h = record {
    success = h;
    calls = omega arith;
    waits = sym (append-nil t.waits);
  }
  loop-IsTried (suc n) i k s t e h =
      elim (Option-cases (method i))
        as (λ _.
          IsTried (failures method (suc n) i) (suc n) delay k t (loop method grows (suc n) i s t)) [
            | inl a ↦
                rw (a, loop, failures)
                  (record {
                    success = ground arith;
                    calls = ground arith;
                    waits = sym (append-nil t.waits);
                  })
            | inr (x, a) ↦
                rw (a, loop, failures)
                  (let f = failures method n (i + 1) in
                    let u : Tried = record {
                      success = t.success;
                      calls = t.calls + 1;
                      waits = t.waits ++ s ∷ [];
                      errors = if is_new t.errors x then t.errors ++ x ∷ [] else t.errors;
                    } in
                    let ih =
                      loop-IsTried n (i + 1) (k + 1) ((s + delay) % 2 ^ 32) u
                        (next_wait k delay s e) h in
                    let more : ltb f n ≡ ltb (suc f) (suc n) = ground arith in
                    record {
                      success = ih.success ∙ more;
                      calls = ground (arith, ih.calls);
                      waits =
                          ih.waits
                          ∙ append_assoc t.waits (s ∷ []) (waits_from delay (k + 1) f)
                          ∙ ap (λ (w : ℕ). t.waits ++ w ∷ waits_from delay (k + 1) f) e;
                    })
          ]

-- With ExponentialBackoff, `On` calls the function up to its first success, and as often as it has
-- attempts where none succeeds; it returns no error exactly where one succeeds. The waits after the
-- failures are 0, 1, 2, ... times the delay, modulo 2 ^ 32.
pub on-exponential_backoff :
    (attempts delay : ℕ) (method : ℕ → Option Str)
    → IsTried
        (failures method attempts 0)
        attempts
        delay
        0
        (record { success = false; calls = 0; waits = []; errors = [] })
        (on (exponential_backoff attempts delay) method)
unfolding on exponential_backoff
on-exponential_backoff attempts delay method =
    loop-IsTried method delay attempts 0 0 0
      (record { success = false; calls = 0; waits = []; errors = [] }) (omega arith) refl
