-- ===== src/Picker/First.antt =====
-- The first value and the first error of a race win.
use proxy_speedtest.Prelude.{
  ◌+◌, ◌≡◌, refl, Bool, ◌&&◌, List, ◌∷◌, none, some, arith, if◌then◌else◌, ◌==◌, is_some,
}
use proxy_speedtest.Picker.{
  Picker, value, error, Event, cancel, finish, Step, go, done, Reached, start, next, wait,
  first_value, first_error, started, ended,
}

-- What the fields say of the events.
pub record Agrees {R E : Type 0} (c : Bool) (es : List (Event R E)) (p : Picker R E) : Type 0 where
  pub has : p.has_cancel ≡ c
  pub count : p.group + ended es ≡ started es
  pub once : p.once ≡ is_some (first_value es)
  pub err_once : p.err_once ≡ is_some (first_error es)
  pub result : p.result ≡ first_value es
  pub err : p.err ≡ first_error es
  pub cancelled : p.cancelled ≡ (is_some (first_value es) && c)

Step-Agrees :
    {R E : Type 0} (c : Bool) (es : List (Event R E)) (p q : Picker R E) (e : Event R E)
    → Step p e q
    → Agrees c es p
    → Agrees c (e ∷ es) q
unfolding finish
Step-Agrees c es p q _ go a =
    ground (arith, a.has, a.count, a.once, a.err_once, a.result, a.err, a.cancelled)
Step-Agrees c es p q _ (done (value r) h) a =
    ground (arith, a.has, a.count, a.once, a.err_once, a.result, a.err, a.cancelled)
Step-Agrees c es p q _ (done (error x) h) a =
    ground (arith, a.has, a.count, a.once, a.err_once, a.result, a.err, a.cancelled)

Reached-Agrees :
    {R E : Type 0} (c : Bool) (es : List (Event R E)) (p : Picker R E)
    → Reached c es p
    → Agrees c es p
Reached-Agrees c _ _ start = record {
  has = refl;
  count = refl;
  once = refl;
  err_once = refl;
  result = refl;
  err = refl;
  cancelled = refl;
}
Reached-Agrees c _ _ (next {events} {p} {q} {e} r s) =
    Step-Agrees c events p q e s (Reached-Agrees c events p r)

-- In every order in which goroutines are started and come to their end: `Wait` returns exactly when
-- each goroutine that was started has come to its end, and then its result is the value of the
-- earliest one that returned without an error (nil if there is none), `Error` gives the error of the
-- earliest that failed, and the context is cancelled before `Wait` only by a first value.
pub wait-first_value :
    {R E : Type 0} (c : Bool) (es : List (Event R E)) (p : Picker R E)
    → Reached c es p
    → (wait p ≡ (if ended es == started es then some (first_value es, cancel p) else none))
      × (p.err ≡ first_error es)
      × (p.cancelled ≡ (is_some (first_value es) && c))
unfolding wait
wait-first_value c es p r =
    let a = Reached-Agrees c es p r in ground (arith, a.count, a.result, a.err, a.cancelled)
