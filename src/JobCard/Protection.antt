-- ===== src/JobCard/Protection.antt =====
-- What the pricing guard protects.
use prime_detailer_backend.Base.{true, false, ◌≡◌, Option, none, some}
use prime_detailer_backend.JobCard.Guard.{
  ServiceLine, JobCardLike, num_eq, bool_differs, text_differs, is_custom, is_custom_source,
}

-- A line that was there keeps its price, to a tenth of a paisa, and its custom flag; a new line has
-- no custom price.
abbrev pub KeepsPrice : Option ServiceLine → ServiceLine → Type 0
KeepsPrice none n = (is_custom n ≡ false) × (is_custom_source n ≡ false)
KeepsPrice (some p) n =
    (num_eq p.price n.price ≡ true) × (bool_differs p.is_custom_price n.is_custom_price ≡ false)

-- The six fields of the advance, compared as the source compares them.
abbrev pub KeepsAdvance : JobCardLike → JobCardLike → Type 0
KeepsAdvance prev next =
    (num_eq prev.high_end_advance_amount_inr next.high_end_advance_amount_inr ≡ true)
    × (num_eq prev.high_end_advance_hint_percent next.high_end_advance_hint_percent ≡ true)
    × (bool_differs prev.waive_high_end_advance next.waive_high_end_advance ≡ false)
    × (text_differs prev.high_end_advance_collected_at next.high_end_advance_collected_at ≡ false)
    × (text_differs prev.high_end_advance_method next.high_end_advance_method ≡ false)
    × (text_differs prev.high_end_advance_reference next.high_end_advance_reference ≡ false)
