-- ===== src/Subscription/Notes.antt =====
-- pricingNotes and parsePricingFromNotes: the price breakdown that the notes of a payment carry, as
-- JSON after a marker. What JSON.stringify makes of a breakdown and what JSON.parse reads back are
-- parameters; of the marker and what stands around it nothing is assumed.
use prime_detailer_backend.Base.{
  ◌≡◌, ◌≢◌, String, Bool, true, false, Option, none, some, if◌then◌else◌, is_some, ◌==◌, arith,
  ◌&&◌, not, refl,
}
use prime_detailer_backend.Base.Text.{strip_prefix, trim}
use prime_detailer_backend.Pricing.Calculation.{SubscriptionPricingBreakdown}
use text.Mathlib.TextLemmas.{cons-append, nil-append}
use mathlib.Core.Path.{◌∙◌, ap}
use Prim.Native.Char.{code}
use Prim.Native.String.{[], ◌∷◌, ◌++◌ as join}

-- `JSON.stringify(breakdown)`, and `JSON.parse(json)` with `none` where it throws.
pub record BreakdownJson : Type 0 where
  pub stringify : SubscriptionPricingBreakdown → String
  pub parse : String → Option SubscriptionPricingBreakdown

abbrev pub marker : String
marker = "SUBSCRIPTION_PRICING:"

-- The text after the first place where the mark stands, if it does.
unfoldable pub after_first : String → String → Option String
unfolding strip_prefix
after_first mark [] = strip_prefix mark []
after_first mark (c ∷ s) =
    let here = strip_prefix mark (c ∷ s) in
    let later = after_first mark s in if is_some here then here else later

abbrev is_empty : String → Bool
is_empty [] = true
is_empty (c ∷ s) = false

abbrev parse_nonempty : BreakdownJson → String → Option SubscriptionPricingBreakdown
parse_nonempty json text = if is_empty text then none else json.parse text

abbrev parse_after : BreakdownJson → Option String → Option SubscriptionPricingBreakdown
parse_after json none = none
parse_after json (some rest) = parse_nonempty json (trim rest)

-- Empty notes have no marker.
unfoldable pub parse_pricing_from_notes :
    BreakdownJson → Option String → Option SubscriptionPricingBreakdown
unfolding after_first
parse_pricing_from_notes json none = none
parse_pricing_from_notes json (some notes) = parse_after json (after_first marker notes)

unfoldable pub pricing_notes : BreakdownJson → String → SubscriptionPricingBreakdown → String
pricing_notes json prefix breakdown =
    join prefix (join "\n" (join marker (json.stringify breakdown)))

-- No line break in a text.
abbrev one_line : String → Bool
one_line [] = true
one_line (c ∷ s) = not (code c == b'\n') && one_line s

newline : (t : String) → join "\n" t ≡ "\n" ∷ t
newline t = cons-append "\n" "" t ∙ ap (λ r. "\n" ∷ r) (nil-append t)

strip_prefix-append :
    (mark s t : String)
    → one_line mark ≡ true
    → strip_prefix mark s ≡ none
    → strip_prefix mark (join s (join "\n" t)) ≡ none
unfolding strip_prefix
strip_prefix-append [] s t h e = cc
strip_prefix-append (c ∷ mark) [] t h e = rw (nil-append, newline) (ground arith)
strip_prefix-append (c ∷ mark) (d ∷ s) t h e =
    rw (cons-append d s (join "\n" t)) (ground (arith, strip_prefix-append mark s t))

strip_prefix-own : (mark t : String) → strip_prefix mark (join mark t) ≡ some t
unfolding strip_prefix
strip_prefix-own [] t = ap some (nil-append t)
strip_prefix-own (c ∷ mark) t = rw cons-append (ground (arith, strip_prefix-own mark t))

strip_prefix-line :
    (mark t : String)
    → one_line mark ≡ true
    → is_empty mark ≡ false
    → strip_prefix mark ("\n" ∷ t) ≡ none
unfolding strip_prefix
strip_prefix-line [] t h e = cc
strip_prefix-line (c ∷ mark) t h e = ground arith

after_first-here :
    (mark t : String) → is_empty mark ≡ false → after_first mark (join mark t) ≡ some t
unfolding after_first
after_first-here [] t h = cc
after_first-here (c ∷ mark) t h =
    let own = rw cons-append at (strip_prefix-own (c ∷ mark) t) in
    rw cons-append (ground (arith, own))

-- A mark that is on one line and not on the lines before is found where it was put.
after_first-own :
    (mark prefix t : String)
    → one_line mark ≡ true
    → is_empty mark ≡ false
    → after_first mark prefix ≡ none
    → after_first mark (join prefix (join "\n" (join mark t))) ≡ some t
unfolding after_first
after_first-own mark [] t line full absent =
    let none_there = strip_prefix-line mark (join mark t) line full in
    rw (nil-append, newline) (ground (arith, none_there, after_first-here mark t full))
after_first-own mark (c ∷ s) t line full absent =
    let rest = join mark t in
    let none_here : strip_prefix mark (c ∷ s) ≡ none = ground (arith, absent) in
    let none_there =
      rw (cons-append c s (join "\n" rest)) at
        (strip_prefix-append mark (c ∷ s) rest line none_here) in
    let later : after_first mark s ≡ none = ground (arith, absent) in
    rw (cons-append c s (join "\n" rest))
      (ground (arith, none_there, after_first-own mark s t line full later))

parse_nonempty_lem :
    (json : BreakdownJson) (text : String) → text ≢ "" → parse_nonempty json text ≡ json.parse text
parse_nonempty_lem json [] full = absurd (full refl)
parse_nonempty_lem json (c ∷ text) full = refl

-- The breakdown is read back from notes that it was written to, if the text before it does not hold
-- the marker and if its JSON, which has no white space around it, is read back.
pub parse_pricing_from_notes-pricing_notes :
    (json : BreakdownJson) (prefix : String) (breakdown : SubscriptionPricingBreakdown)
    → after_first marker prefix ≡ none
    → trim (json.stringify breakdown) ≡ json.stringify breakdown
    → json.stringify breakdown ≢ ""
    → json.parse (json.stringify breakdown) ≡ some breakdown
    → parse_pricing_from_notes json (some (pricing_notes json prefix breakdown)) ≡ some breakdown
unfolding parse_pricing_from_notes pricing_notes
parse_pricing_from_notes-pricing_notes json prefix breakdown absent trimmed full read =
    let found = after_first-own marker prefix (json.stringify breakdown) refl refl absent in
    rw (found, trimmed) (parse_nonempty_lem json (json.stringify breakdown) full ∙ read)
