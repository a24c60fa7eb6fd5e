-- ===== src/JobCard/Tests.antt =====
-- Tests of src/lib/job-card-pricing-guard.ts.
use prime_detailer_backend.Base.{true, false, ◌≡◌, refl, none, some, [], ◌∷◌}
use prime_detailer_backend.Base.Int.{pos, ◌-ℤ◌}
use prime_detailer_backend.Base.Assoc.{by_key, last_of}
use prime_detailer_backend.JobCard.Guard.{
  ServiceLine, JobCardLike, num_eq, service_line_key, job_card_pricing_editable, top_differs,
  line_differs, any_line_differs, job_card_has_pricing_delta, allowed, missing_permission,
  status_or_invoice_lock, evaluate_job_card_pricing_write,
}

guard : Unit {0}
unfolding by_key last_of num_eq service_line_key job_card_pricing_editable top_differs line_differs
    any_line_differs job_card_has_pricing_delta evaluate_job_card_pricing_write ◌-ℤ◌
guard = tt

abbrev polish : ServiceLine
polish = record {
  id = some "s1";
  service_catalog_id = none;
  price = some (pos 5000000);
  is_custom_price = none;
  price_source = some "CATALOG";
}

abbrev card : JobCardLike
card = record {
  job_status = some "IN_PROGRESS";
  services = some (polish ∷ []);
  high_end_advance_amount_inr = none;
  high_end_advance_hint_percent = none;
  waive_high_end_advance = none;
  high_end_advance_collected_at = none;
  high_end_advance_method = none;
  high_end_advance_reference = none;
}

-- Less than a tenth of a paisa is no difference.
abbrev same_polish : ServiceLine
same_polish = record polish { price = some (pos 5000009); is_custom_price = some false }

abbrev same_card : JobCardLike
same_card = record card { services = some (same_polish ∷ []) }

abbrev cheaper : JobCardLike
cheaper = record card { services = some (record polish { price = some (pos 4000000) } ∷ []) }

decisions :
    (evaluate_job_card_pricing_write false card same_card false ≡ allowed)
    × (evaluate_job_card_pricing_write false card cheaper false ≡ missing_permission)
    × (evaluate_job_card_pricing_write true card cheaper true ≡ status_or_invoice_lock)
    × (evaluate_job_card_pricing_write true card cheaper false ≡ allowed)
unfolding guard
decisions = (refl, refl, refl, refl)

abbrev twice : ServiceLine → JobCardLike
twice first = record card { services = some (first ∷ polish ∷ []) }

-- Of two lines with one key only the last is compared, and a line that is left out is not noticed.
not_compared :
    (evaluate_job_card_pricing_write false
        (twice polish)
        (twice (record polish { price = some (pos 0) }))
        false
      ≡ allowed)
    × (evaluate_job_card_pricing_write false card (record card { services = some [] }) false
        ≡ allowed)
unfolding guard
not_compared = (refl, refl)
