-- ===== src/Base/Text.antt =====
-- The string methods of the language that the source uses.
use prime_detailer_backend.Base.Tests.{ltb, leb, ◌==◌, if◌then◌else◌, Bool-cases, or_else}
use prime_detailer_backend.Base.Int.{ℤ, pos, sub_ℕ}
use Prim.Native.Char.{code}
use Prim.Native.Nat.{ℕ, zero, suc, ◌+◌, ◌-◌, ◌*◌, ◌/◌, ◌%◌}
use Prim.Native.String.{String, [], ◌∷◌, ◌++◌ as join}
use text.Mathlib.Text.{◌==◌ as equal}
use mathlib.Core.Bool.{Bool, true, false, ◌&&◌, ◌||◌}
use mathlib.Core.List
use mathlib.Core.List.{List, Memᴰ}
use mathlib.Core.Logic.{◌↔◌, inl, inr}
use mathlib.Core.Option
use mathlib.Core.Option.{Option, none, some}
use native.Mathlib.Omega.{arith}
use text.Mathlib.TextEquality.{eq_iff}
use mathlib.Core.Path.{◌≡◌, sym}

abbrev pub str_eq : String → String → Bool
str_eq a b = equal a b

-- The white space that `trim` removes.
unfoldable pub is_space : ℕ → Bool
is_space c =
    (leb 9 c && leb c 13)
    || c == 32
    || c == 160
    || c == 5760
    || (leb 8192 c && leb c 8202)
    || c == 8232
    || c == 8233
    || c == 8239
    || c == 8287
    || c == 12288
    || c == 65279

-- `!s.trim()`
unfoldable pub is_blank : String → Bool
unfolding is_space
is_blank [] = true
is_blank (c ∷ s) = is_space (code c) && is_blank s

trim_start : String → String
trim_start [] = ""
trim_start (c ∷ s) = if is_space (code c) then trim_start s else c ∷ s

trim_end : String → String
unfolding is_blank is_space
trim_end [] = ""
trim_end (c ∷ s) = if is_blank (c ∷ s) then "" else c ∷ trim_end s

-- `s.trim()`
unfoldable pub trim : String → String
unfolding trim_start trim_end is_space
trim s = trim_end (trim_start s)

-- `s.endsWith(t)`
unfoldable pub ends_with : String → String → Bool
ends_with t [] = str_eq "" t
ends_with t (c ∷ s) = str_eq (c ∷ s) t || ends_with t s

-- `list.includes(s)`
unfoldable pub includes : List String → String → Bool
includes List.[] s = false
includes (List.◌∷◌ x xs) s = str_eq x s || includes xs s

-- The code points of a text.
abbrev pub codes : String → List ℕ
codes [] = List.[]
codes (c ∷ s) = List.◌∷◌ (code c) (codes s)

upper_code : ℕ → ℕ
upper_code c = if leb b'a' c && leb c b'z' then c - 32 else c

-- `s.toUpperCase()` of an ASCII text, by its code points.
unfoldable pub upper : String → List ℕ
unfolding upper_code
upper s = List.map upper_code (codes s)

abbrev pub codes_eq : List ℕ → List ℕ → Bool
codes_eq List.[] List.[] = true
codes_eq (List.◌∷◌ x xs) (List.◌∷◌ y ys) = x == y && codes_eq xs ys
codes_eq _ _ = false

includes→Memᴰ : (xs : List String) (s : String) → includes xs s ≡ true → Memᴰ s xs
unfolding includes
includes→Memᴰ List.[] s h = cc
includes→Memᴰ (List.◌∷◌ x xs) s h = elim (Bool-cases (str_eq x s)) [
  | inl same ↦ Memᴰ.head (sym ((eq_iff x s).0 same))
  | inr other ↦ Memᴰ.tail (includes→Memᴰ xs s (rw other at h))
]

Memᴰ→includes : (xs : List String) (s : String) → Memᴰ s xs → includes xs s ≡ true
unfolding includes
Memᴰ→includes List.[] s m = elim m [ ]
Memᴰ→includes (List.◌∷◌ x xs) s (Memᴰ.head e) = rw ((eq_iff x s).1 (sym e))
Memᴰ→includes (List.◌∷◌ x xs) s (Memᴰ.tail m) = ground (arith, Memᴰ→includes xs s m)

pub includes_iff : (xs : List String) (s : String) → (includes xs s ≡ true) ↔ Memᴰ s xs
includes_iff xs s = (includes→Memᴰ xs s, Memᴰ→includes xs s)

-- `s.startsWith(p) ? s.slice(p.length) : null`
unfoldable pub strip_prefix : String → String → Option String
strip_prefix [] s = some s
strip_prefix (c ∷ p) [] = none
strip_prefix (c ∷ p) (d ∷ s) = if code c == code d then strip_prefix p s else none

-- `s.split(c)[0]`
unfoldable pub before : ℕ → String → String
before sep [] = ""
before sep (c ∷ s) = if code c == sep then "" else c ∷ before sep s

-- `a < b` of strings, by their codes.
unfoldable pub codes_ltb : List ℕ → List ℕ → Bool
codes_ltb List.[] List.[] = false
codes_ltb List.[] (List.◌∷◌ y ys) = true
codes_ltb (List.◌∷◌ x xs) List.[] = false
codes_ltb (List.◌∷◌ x xs) (List.◌∷◌ y ys) = ltb x y || (x == y && codes_ltb xs ys)

-- `s.slice(a, b)` for 0 ≤ a ≤ b, by the codes.
unfoldable pub slice : ℕ → ℕ → List ℕ → List ℕ
slice zero zero xs = List.[]
slice zero (suc b) List.[] = List.[]
slice zero (suc b) (List.◌∷◌ x xs) = List.◌∷◌ x (slice zero b xs)
slice (suc a) zero xs = List.[]
slice (suc a) (suc b) List.[] = List.[]
slice (suc a) (suc b) (List.◌∷◌ x xs) = slice a b xs

is_digit : ℕ → Bool
is_digit c = leb b'0' c && leb c b'9'

-- The digits at the front, after an accumulator; `none` where there is no digit at all.
digits_from : Option ℕ → List ℕ → Option ℕ
digits_from acc List.[] = acc
digits_from acc (List.◌∷◌ c cs) =
    let rest = digits_from (some (10 * or_else acc 0 + (c - b'0'))) cs in
    if is_digit c then rest else acc

signed_digits : List ℕ → Option ℤ
signed_digits List.[] = none
signed_digits (List.◌∷◌ c cs) =
    if c == b'-'
    then Option.map (λ n. sub_ℕ 0 n) (digits_from none cs)
    else if c == b'+'
    then Option.map pos (digits_from none cs)
    else Option.map pos (digits_from none (List.◌∷◌ c cs))

skip_spaces : List ℕ → List ℕ
skip_spaces List.[] = List.[]
skip_spaces (List.◌∷◌ c cs) = if is_space c then skip_spaces cs else List.◌∷◌ c cs

-- `parseInt(s, 10)`, by the codes; `none` is NaN.
unfoldable pub parse_int : List ℕ → Option ℤ
unfolding signed_digits digits_from skip_spaces is_digit is_space
parse_int s = signed_digits (skip_spaces s)

lower_code : ℕ → ℕ
lower_code c = if leb b'A' c && leb c b'Z' then c + 32 else c

-- `s.toLowerCase()` of an ASCII text, by its code points.
unfoldable pub lower : String → List ℕ
unfolding lower_code
lower s = List.map lower_code (codes s)

-- The digit at a place of a text of digits.
digit : ℕ → String → String
digit n [] = ""
digit zero (c ∷ s) = c ∷ ""
digit (suc n) (c ∷ s) = digit n s

decimal_on : ℕ → ℕ → String
decimal_on zero n = ""
decimal_on (suc fuel) n =
    let front = decimal_on fuel (n / 10) in
    if ltb n 10 then digit n "0123456789" else join front (digit (n % 10) "0123456789")

-- A number in decimal. The fuel is enough: no number has more digits than itself and one.
unfoldable pub decimal : ℕ → String
unfolding decimal_on digit
decimal n = decimal_on (suc n) n

-- `s.replace(/_/g, " ")`
unfoldable pub spaced : String → String
spaced [] = ""
spaced (c ∷ s) = if code c == b'_' then join " " (spaced s) else c ∷ spaced s

size : String → ℕ
size [] = 0
size (c ∷ s) = suc (size s)

-- `s.slice(-6)`
unfoldable pub last_six : String → String
unfolding size
last_six [] = ""
last_six (c ∷ s) = let rest = last_six s in if leb (size (c ∷ s)) 6 then c ∷ s else rest

-- The text before a suffix that ends the text.
unfoldable pub before_suffix : String → String → Option String
before_suffix t [] = if str_eq "" t then some "" else none
before_suffix t (c ∷ s) =
    let rest = before_suffix t s in
    if str_eq (c ∷ s) t then some "" else Option.map (λ front. c ∷ front) rest

-- A string that is not empty.
abbrev pub unless_empty : Option String → Option String
unless_empty none = none
unless_empty (some s) = if str_eq s "" then none else some s
