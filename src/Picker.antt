-- ===== src/Picker.antt =====
-- common/picker/picker.go: goroutines that race for the first result without an error.
pub mod First
mod Tests
use proxy_speedtest.Prelude.{
  ℕ, zero, suc, ◌+◌, ◌-◌, ◌<◌, ◌≡◌, refl, Bool, true, false, ◌&&◌, ◌||◌, List, [], ◌∷◌, Option,
  none, some, arith, if◌then◌else◌, ◌==◌, is_some,
}

-- What the function given to `Go` returns.
pub data Returned (R E : Type 0) : Type 0 where
  value : R → Returned R E
  error : E → Returned R E

-- The fields of `Picker`. `group` is the counter of the wait group, `once` and `err_once` tell
-- whether their function has run, `result` is none where the interface is nil, `cancelled` tells
-- whether `cancel` was called.
pub record Picker (R E : Type 0) : Type 0 where
  pub has_cancel : Bool
  pub cancelled : Bool
  pub group : ℕ
  pub once : Bool
  pub err_once : Bool
  pub result : Option R
  pub err : Option E

-- `WithContext` and `WithTimeout` give a cancel function, `Picker{}` has none.
abbrev pub new_picker : {R E : Type 0} → Bool → Picker R E
new_picker c = record {
  has_cancel = c;
  cancelled = false;
  group = 0;
  once = false;
  err_once = false;
  result = none;
  err = none;
}

-- `if p.cancel != nil { p.cancel() }`
abbrev pub cancel : {R E : Type 0} → Picker R E → Picker R E
cancel p = record p { cancelled = p.cancelled || p.has_cancel }

-- The body of a goroutine after its function has returned, up to `p.wg.Done()`.
unfoldable pub finish : {R E : Type 0} → Returned R E → Picker R E → Picker R E
finish (value r) p = if p.once then p else cancel (record p { once = true; result = some r })
finish (error e) p = if p.err_once then p else record p { err_once = true; err = some e }

-- What can happen: `Go` is called, or a goroutine that runs comes to its end.
pub data Event (R E : Type 0) : Type 0 where
  called : Event R E
  returned : Returned R E → Event R E

pub data Step {R E : Type 0} : Picker R E → Event R E → Picker R E → Type 0 where
  go : {p : Picker R E} → Step p called (record p { group = p.group + 1 })
  done :
      {p : Picker R E} (r : Returned R E)
      → 0 < p.group
      → Step p (returned r) (record (finish r p) { group = p.group - 1 })

-- The pickers reached from a new one; the events stand with the latest first.
pub data Reached {R E : Type 0} (c : Bool) : List (Event R E) → Picker R E → Type 0 where
  start : Reached c [] (new_picker c)
  next :
      {events : List (Event R E)} {p q : Picker R E} {e : Event R E}
      → Reached c events p
      → Step p e q
      → Reached c (e ∷ events) q

-- `Wait`: blocks (none) while the counter of the wait group is not 0.
unfoldable pub wait : {R E : Type 0} → Picker R E → Option (Option R × Picker R E)
wait p = if p.group == 0 then some (p.result, cancel p) else none

-- The value of the earliest goroutine that returned one, and the error of the earliest that failed.
abbrev pub earlier {ℓ} : {A : Type ℓ} → Option A → Option A → Option A
earlier none b = b
earlier (some a) b = some a

abbrev pub first_value : {R E : Type 0} → List (Event R E) → Option R
first_value [] = none
first_value (called ∷ es) = first_value es
first_value (returned (value r) ∷ es) = earlier (first_value es) (some r)
first_value (returned (error e) ∷ es) = first_value es

abbrev pub first_error : {R E : Type 0} → List (Event R E) → Option E
first_error [] = none
first_error (called ∷ es) = first_error es
first_error (returned (value r) ∷ es) = first_error es
first_error (returned (error e) ∷ es) = earlier (first_error es) (some e)

-- How many goroutines were started, and how many have come to their end.
abbrev pub started : {R E : Type 0} → List (Event R E) → ℕ
started [] = 0
started (called ∷ es) = suc (started es)
started (returned r ∷ es) = started es

abbrev pub ended : {R E : Type 0} → List (Event R E) → ℕ
ended [] = 0
ended (called ∷ es) = ended es
ended (returned r ∷ es) = suc (ended es)
