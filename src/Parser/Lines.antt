-- ===== src/Parser/Lines.antt =====
-- Lists of links, line by line.
use proxy_speedtest.Prelude.{
  ℕ, ◌≡◌, refl, ap, Bool, true, false, List, [], ◌∷◌, ◌++◌, arith, if◌then◌else◌,
}
use proxy_speedtest.GoLib.{GoLib}
use proxy_speedtest.Text.{Str, split_from, split, trim_space}
use proxy_speedtest.Xray.Config.{ProxyConfig}
use proxy_speedtest.Parser.Outcome.{Outcome, ok, err, panic, ◌>>=◌}
use proxy_speedtest.Parser.Link.{
  parse_link, is_skipped, add_line, collect, parse_links, or_no_links,
}

split_from-append :
    (cur a b : Str) (c : ℕ)
    → split_from cur c (a ++ c ∷ b) ≡ split_from cur c a ++ split_from [] c b
unfolding split_from
split_from-append cur [] b c = ground arith
split_from-append cur (d ∷ a) b c =
    ground (arith, split_from-append [] a b c, split_from-append (cur ++ d ∷ []) a b c)

split-append : (a b : Str) (c : ℕ) → split (a ++ c ∷ b) c ≡ split a c ++ split b c
unfolding split
split-append a b c = split_from-append [] a b c

-- A block of lines that returns `cs`, put above lines that return `ds`.
abbrev step : Bool → Outcome ProxyConfig → Outcome (List ProxyConfig) → Outcome (List ProxyConfig)
step b o rest = if b then rest else add_line o rest

step-ok :
    (b : Bool) (o : Outcome ProxyConfig) (m : Outcome (List ProxyConfig)) {cs : List ProxyConfig}
    → step b o m ≡ ok cs
    → (below : List ProxyConfig) × (m ≡ ok below)
      × ((ds : List ProxyConfig) → step b o (ok (below ++ ds)) ≡ ok (cs ++ ds))
step-ok true o m {cs} h = (cs, h, λ ds. refl)
step-ok false (ok c) (ok below) h = (below, refl, λ ds. ap (λ o. (do x ← o; ok (x ++ ds))) h)
step-ok false (ok c) (err e) h = cc
step-ok false (ok c) panic h = cc
step-ok false (err e) m {cs} h = (cs, h, λ ds. refl)
step-ok false panic m h = cc

returned_list :
    (c : ProxyConfig) (l cs : List ProxyConfig) → ok (c ∷ l) ≡ ok cs → or_no_links cs ≡ ok cs
returned_list c l [] h = cc
returned_list c l (d ∷ ds) h = refl

or_no_links-append :
    (cs ds : List ProxyConfig) → or_no_links cs ≡ ok cs → or_no_links (cs ++ ds) ≡ ok (cs ++ ds)
or_no_links-append [] ds h = cc
or_no_links-append (c ∷ cs) ds h = refl

module _ {F : Type 0} (go : GoLib F) where
  collect-append :
      (k l : List Str) (cs ds : List ProxyConfig)
      → collect go k ≡ ok cs
      → collect go l ≡ ok ds
      → collect go (k ++ l) ≡ ok (cs ++ ds)
  unfolding collect
  collect-append [] l cs ds h g = ground arith
  collect-append (x ∷ k) l cs ds h g =
      let (below, e, f) = step-ok (is_skipped (trim_space x)) (parse_link go (trim_space x)) _ h in
      rw (collect-append k l below ds e g) (f ds)

  or_no_links-ok :
      (m : Outcome (List ProxyConfig)) {cs : List ProxyConfig}
      → (m >>= or_no_links) ≡ ok cs
      → (m ≡ ok cs) × (or_no_links cs ≡ ok cs)
  or_no_links-ok (ok []) h = cc
  or_no_links-ok (ok (c ∷ l)) {cs} h = (h, returned_list c l cs h)
  or_no_links-ok (err e) h = cc
  or_no_links-ok panic h = cc

  -- If two texts are each read as a list of links, then the two joined by a newline are read as the
  -- first list followed by the second: no link of one side is lost, and none is read across.
  pub parse_links-append :
      (a b : Str) (cs ds : List ProxyConfig)
      → parse_links go a ≡ ok cs
      → parse_links go b ≡ ok ds
      → parse_links go (a ++ b'\n' ∷ b) ≡ ok (cs ++ ds)
  unfolding parse_links
  parse_links-append a b cs ds h g =
      let (e, f) = or_no_links-ok (collect go (split a b'\n')) h in
      let (e', f') = or_no_links-ok (collect go (split b b'\n')) g in
      rw (split-append a b b'\n', collect-append (split a b'\n') (split b b'\n') cs ds e e')
        (or_no_links-append cs ds f)

  -- A line of the text whose trimmed form makes a parser panic.
  pub data HasPanic : List Str → Type 0 where
    here :
        {line : Str} {lines : List Str}
        → is_skipped (trim_space line) ≡ false
        → parse_link go (trim_space line) ≡ panic
        → HasPanic (line ∷ lines)
    there : {line : Str} {lines : List Str} → HasPanic lines → HasPanic (line ∷ lines)

  step-panic : (b : Bool) (o : Outcome ProxyConfig) → step b o panic ≡ panic
  step-panic b o = ground arith

  collect-panic : (lines : List Str) → HasPanic lines → collect go lines ≡ panic
  unfolding collect
  collect-panic [] h = elim h [ ]
  collect-panic (line ∷ lines) (here s e) = rw (s, e)
  collect-panic (line ∷ lines) (there h) =
      rw (collect-panic lines h)
        (step-panic (is_skipped (trim_space line)) (parse_link go (trim_space line)))

  -- One line whose parser panics takes the whole list down: `ParseLinks` panics, whatever the other
  -- lines are, though a line that only fails to parse is left out.
  pub parse_links-panic :
      (input : Str) → HasPanic (split input b'\n') → parse_links go input ≡ panic
  unfolding parse_links
  parse_links-panic input h = rw (collect-panic (split input b'\n') h)
