-- ===== src/EventCheck/Tests.antt =====
-- Runs of the check of events, and its theorem at one of them.
use fbs_chz.Prelude.{true, ◌≡◌, ◌↔◌, refl}
use fbs_chz.Models.{finite, Event}
use fbs_chz.Effect.{ok, err}
use fbs_chz.EventCheck.{validate_event}
use fbs_chz.EventCheck.Sound.{IsSound, validate_event_iff}
use fbs_chz.Samples.{sale_event}

sale_is_valid : validate_event sale_event ≡ ok tt
unfolding validate_event
sale_is_valid = refl

-- 1500.001 is no number of cents.
abbrev uneven : Event
uneven = record sale_event { amount = finite true 1500001 3 }

uneven_is_refused : validate_event uneven ≡ err "Стоимость должна содержать не более двух знаков"
unfolding validate_event
uneven_is_refused = refl

validate_event_iff_example : (validate_event sale_event ≡ ok tt) ↔ IsSound sale_event
validate_event_iff_example = validate_event_iff sale_event
