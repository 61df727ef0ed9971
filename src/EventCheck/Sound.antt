-- ===== src/EventCheck/Sound.antt =====
-- Which events `Event.__post_init__` of wbcz/models.py accepts.
use fbs_chz.Prelude.{
  ℕ, ◌*◌, ◌%◌, ◌^◌, ◌-◌, ◌≤◌, Bool, true, Option, none, some, ◌≡◌, ◌≢◌, ◌⊎◌, ◌↔◌, refl, arith,
  eq_iff,
}
use fbs_chz.Models.{Datetime, naive, aware, Decimal, finite, not_finite, Event}
use fbs_chz.Effect.{ok}
use fbs_chz.EventCheck.{has_zone, validate_event}

-- An event that names a code, a task and a sticker, whose date has a time zone, and whose amount is
-- a finite number of whole cents of at most 999999999999999.
pub record IsSound (e : Event) : Type 0 where
  pub named : (e.kiz ≢ "") × (e.task_number ≢ "") × (e.sticker ≢ "")
  pub zoned : (t : ℕ) → e.occurred_at ≢ some (naive t)
  pub sign : Bool
  pub digits : ℕ
  pub scale : ℕ
  pub number : e.amount ≡ finite sign digits scale
  pub bounded : digits ≤ 999999999999999 * 10 ^ scale
  pub cents : (scale ≤ 2) ⊎ (digits % 10 ^ (scale - 2) ≡ 0)

IsSound-of_valid : (e : Event) (a : Decimal) → e.amount ≡ a → validate_event e ≡ ok tt → IsSound e
unfolding validate_event
IsSound-of_valid e (finite s d n) q h = record {
  named = ground (arith, eq_iff e.kiz "", eq_iff e.task_number "", eq_iff e.sticker "");
  zoned = λ t z. ground arith;
  sign = s;
  digits = d;
  scale = n;
  number = q;
  bounded = ground arith;
  cents = ground arith;
}
IsSound-of_valid e not_finite q h = absurd (ground arith)

has_zone-of_aware : (o : Option Datetime) → ((t : ℕ) → o ≢ some (naive t)) → has_zone o ≡ true
has_zone-of_aware none h = refl
has_zone-of_aware (some (aware t)) h = refl
has_zone-of_aware (some (naive t)) h = absurd (h t refl)

valid-of_IsSound : (e : Event) → IsSound e → validate_event e ≡ ok tt
unfolding validate_event
valid-of_IsSound e s =
    let n = s.named in
    let z = has_zone-of_aware e.occurred_at s.zoned in
    ground (
      arith,
      z,
      s.number,
      s.bounded,
      s.cents,
      eq_iff e.kiz "",
      eq_iff e.task_number "",
      eq_iff e.sticker "",
    )

-- An event is accepted exactly when it names a code, a task and a sticker, its date, if it has one,
-- has a time zone, and its amount is a finite number of whole cents of at most 999999999999999.
pub validate_event_iff : (e : Event) → (validate_event e ≡ ok tt) ↔ IsSound e
validate_event_iff e = (IsSound-of_valid e e.amount refl, valid-of_IsSound e)
