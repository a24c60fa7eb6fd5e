-- ===== src/Limits/Pagination.antt =====
-- The page that a request asks for, src/lib/pagination.ts.
use prime_detailer_backend.Base.{ℕ, ◌≤◌, String, Option, none, some, if◌then◌else◌, leb, arith}
use prime_detailer_backend.Base.Int.{ℤ, pos, negsuc}
use prime_detailer_backend.Base.Text.{codes, parse_int}

-- A parameter that reads as a number of one or more.
abbrev positive : Option ℤ → Option ℕ
positive none = none
positive (some (pos n)) = if leb 1 n then some n else none
positive (some (negsuc n)) = none

unfoldable pub query_number : Option String → Option ℕ
query_number none = none
query_number (some raw) = positive (parse_int (codes raw))

abbrev page_of : Option ℕ → ℕ
page_of none = 1
page_of (some p) = p

-- `Math.min(ps, 100)`
abbrev size_of : Option ℕ → ℕ
size_of none = 10
size_of (some ps) = if leb ps 100 then ps else 100

-- The page and its size, from the two query parameters.
unfoldable pub parse_pagination : Option String → Option String → ℕ × ℕ
unfolding query_number
parse_pagination page page_size = (page_of (query_number page), size_of (query_number page_size))

IsPositive : Option ℕ → Type 0
IsPositive none = Unit
IsPositive (some n) = 1 ≤ n

positive-IsPositive : (n : Option ℤ) → IsPositive (positive n)
unfolding IsPositive
positive-IsPositive none = tt
positive-IsPositive (some (pos n)) = ground arith
positive-IsPositive (some (negsuc n)) = tt

query_number-IsPositive : (raw : Option String) → IsPositive (query_number raw)
unfolding query_number IsPositive
query_number-IsPositive none = tt
query_number-IsPositive (some raw) = positive-IsPositive (parse_int (codes raw))

page_bounds : (p : Option ℕ) → IsPositive p → 1 ≤ page_of p
unfolding IsPositive
page_bounds none h = omega arith
page_bounds (some p) h = h

size_bounds : (p : Option ℕ) → IsPositive p → (1 ≤ size_of p) × (size_of p ≤ 100)
unfolding IsPositive
size_bounds none h = (omega arith, omega arith)
size_bounds (some p) h = (ground arith, ground arith)

-- Whatever a request sends, the page is one or more and its size from one to a hundred.
pub parse_pagination_bounds :
    (page page_size : Option String)
    → (1 ≤ (parse_pagination page page_size).0)
      × (1 ≤ (parse_pagination page page_size).1)
      × ((parse_pagination page page_size).1 ≤ 100)
unfolding parse_pagination
parse_pagination_bounds page page_size =
    let (low, high) = size_bounds (query_number page_size) (query_number-IsPositive page_size) in
    (page_bounds (query_number page) (query_number-IsPositive page), low, high)
