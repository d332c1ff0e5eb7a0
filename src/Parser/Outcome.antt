-- ===== src/Parser/Outcome.antt =====
-- What a parser returns: a value, an error, or a run-time panic, which no parser recovers from.
use proxy_speedtest.Prelude.{Option, none, some}

pub data ParseError : Type 0 where
  empty_link unsupported_link bad_url wrong_scheme invalid_port not_base64 bad_json : ParseError
  missing_at missing_method bad_host_port not_direct no_links : ParseError
  bad_yaml no_proxies unsupported_type no_valid_proxies : ParseError
  fetch_failed bad_status read_failed : ParseError

pub data Outcome {ℓ} (A : Type ℓ) : Type ℓ where
  ok : A → Outcome A
  err : ParseError → Outcome A
  panic : Outcome A

infixl 5 ◌>>=◌
abbrev pub ◌>>=◌ {ℓ κ} : {A : Type ℓ} {B : Type κ} → Outcome A → (A → Outcome B) → Outcome B
ok a >>= f = f a
err e >>= f = err e
panic >>= f = panic

-- An error of a callee, and the dereference of a nil pointer.
abbrev pub from_option {ℓ} : {A : Type ℓ} → ParseError → Option A → Outcome A
from_option e none = err e
from_option e (some a) = ok a

abbrev pub not_nil {ℓ} : {A : Type ℓ} → Option A → Outcome A
not_nil none = panic
not_nil (some a) = ok a
