-- ===== src/Turnover/Fields.antt =====
-- The checks of single values in wbcz/turnover.py. What it takes from `datetime`, `uuid` and `re`
-- beside the functions of Runtime is a record of functions.
use fbs_chz.Prelude.{
  ℕ, zero, suc, ◌/◌, ◌%◌, ◌-◌, ◌⊎◌, inl, inr, String, Bool, true, false, Option, none, some, List,
  [], ◌∷◌, ◌&&◌, ◌||◌, ◌==◌, ◌<+>◌, not, nat_eq, leb, ltb, all, elem, codes, len, length,
  if◌then◌else◌,
}
use fbs_chz.Runtime.{Runtime}
use fbs_chz.Models.{Datetime, naive, aware}
use fbs_chz.WritePipeline.Types.{WriteError}
use fbs_chz.Effect.{Result, ok, err}
use fbs_chz.Effect.Checks.{◌>>=◌, check}

-- A `TurnoverContractError`, or the one of its kind that asks for a review by hand; or the exception
-- of `ExactDocumentBuilder`.
pub data TurnoverError : Type 0 where
  contract_error manual_review : String → TurnoverError
  builder_error : WriteError → TurnoverError

abbrev pub Checked : Type 0 → Type 0
Checked A = Result TurnoverError A

pub record Date : Type 0 where
  pub year : ℕ
  pub month : ℕ
  pub day : ℕ

pub record Library : Type 0 where
  -- str.upper; str(n); int(text) of digits; `\d` of one code point; str(UUID(text)), `none` where it
  -- raises
  pub upper : String → String
  pub str_of : ℕ → String
  pub int_of : String → ℕ
  pub is_decimal : ℕ → Bool
  pub uuid : String → Option String
  -- date.isoformat; date.fromisoformat and datetime.strptime, `none` where they raise; whether a year,
  -- a month and a day are a date; the date so many days later
  pub date_text : Date → String
  pub parse_date : String → Option Date
  pub parse_instant : String → Option ℕ
  pub is_date : Date → Bool
  pub plus_days : Date → ℕ → Date
  -- strftime("%Y-%m-%dT%H:%M:%S.") and f"{n:03d}"
  pub seconds_text : ℕ → String
  pub three_digits : ℕ → String
  -- the date of today in UTC
  pub today : Date

-- `date | str`; a `datetime` is read as its date.
pub data Day : Type 0 where
  day_text : String → Day
  day_date : Date → Day

-- `<` on dates.
abbrev pub is_earlier : Date → Date → Bool
is_earlier a b =
    ltb a.year b.year
    || nat_eq a.year b.year && (ltb a.month b.month || nat_eq a.month b.month && ltb a.day b.day)

abbrev pub distinct : List String → Bool
distinct [] = true
distinct (a ∷ l) = not (elem a l) && distinct l

module _ ⦃py : Runtime⦄ ⦃lib : Library⦄ where
  -- `_nonempty`
  unfoldable pub nonempty : String → String → ℕ → Checked String
  nonempty value label max_len =
      if not (py.strip value == value) || not (leb 1 (len value) && leb (len value) max_len)
      then err (
          contract_error
            (label <+> " must be 1.." <+> lib.str_of max_len <+> " chars without outer whitespace"))
      else ok value

  abbrev pub is_number : ℕ → String → Bool
  is_number n s = nat_eq (len s) n && all lib.is_decimal (codes s)

  -- `_inn`, `_kpp`, `_fias`, `_cis`, `_tnved`, `_country`
  unfoldable pub inn_field : String → String → Checked String
  inn_field value label = do
    text ← nonempty value label 12
    a ←
        check (is_number 10 text || is_number 12 text)
          (contract_error (label <+> " must be a 10 or 12 digit INN"))
    ok text

  unfoldable pub kpp_field : String → String → Checked String
  kpp_field value label = do
    text ← nonempty value label 9
    a ← check (is_number 9 text) (contract_error (label <+> " must be 9 digits"))
    ok text

  abbrev pub or_raise : {A : Type 0} → Option A → String → Checked A
  or_raise none m = err (contract_error m)
  or_raise (some a) m = ok a

  unfoldable pub fias_field : String → String → Checked String
  fias_field value label = do
    text ← nonempty value label 36
    or_raise (lib.uuid text) (label <+> " must be UUID")

  unfoldable pub cis_field : String → String → Checked String
  cis_field value label = do
    text ← nonempty value label 74
    a ←
        check
          (leb 18 (len text) && leb (len text) 74 && all (λ c. not (py.is_space c)) (codes text))
          (contract_error (label <+> " must be 18..74 non-whitespace chars"))
    ok text

  unfoldable pub tnved_field : String → String → Checked String
  tnved_field value label = do
    text ← nonempty value label 10
    a ← check (is_number 10 text) (contract_error (label <+> " must be a 10 digit TN VED code"))
    ok text

  unfoldable pub country_field : String → String → Checked String
  country_field value label = do
    text ← nonempty value label 3
    a ← check (is_number 3 text) (contract_error (label <+> " must be a three digit country code"))
    ok text

  -- `_day` with the date that it stands for.
  unfoldable pub parsed_day : Day → String → Checked Date
  parsed_day (day_date d) label = ok d
  parsed_day (day_text s) label = do
    d ← or_raise (lib.parse_date s) (label <+> " must be yyyy-MM-dd")
    a ← check (lib.date_text d == s) (contract_error (label <+> " must be canonical yyyy-MM-dd"))
    ok d

  unfoldable pub day_field : Day → String → Checked String
  day_field value label = do d ← parsed_day value label; ok (lib.date_text d)

  -- `_utc_millis`; the argument is a text or a `datetime`.
  abbrev pub instant_of : String ⊎ Datetime → String → Checked ℕ
  instant_of (inl s) label =
      or_raise (lib.parse_instant s) (label <+> " must be yyyy-MM-ddTHH:mm:ss.SSSZ")
  instant_of (inr (aware t)) label = ok t
  instant_of (inr (naive t)) label =
      err (contract_error (label <+> " must be timezone-aware datetime"))

  unfoldable pub utc_millis : String ⊎ Datetime → String → Checked String
  utc_millis value label = do
    t ← instant_of value label
    ok (lib.seconds_text t <+> lib.three_digits (t % 1000000 / 1000) <+> "Z")

  -- `_shift_year` by 5 years back.
  unfoldable pub five_years_before : Date → Date
  five_years_before d =
      let shifted = record d { year = d.year - 5 } in
      if lib.is_date shifted then shifted else record shifted { day = 28 }

  -- `_bounded_day`
  unfoldable pub bounded_day : Day → String → Date → Date → Checked String
  bounded_day value label min_day max_day = do
    d ← parsed_day value label
    a ←
        check (not (is_earlier d min_day))
          (contract_error (label <+> " is earlier than the official range"))
    b ←
        check (not (is_earlier max_day d))
          (contract_error (label <+> " is later than the official range"))
    ok (lib.date_text d)

  -- So many digits, and then a slash.
  abbrev pub digits_then : ℕ → (List ℕ → Bool) → List ℕ → Bool
  digits_then zero rest l = rest l
  digits_then (suc n) rest [] = false
  digits_then (suc n) rest (c ∷ l) = lib.is_decimal c && digits_then n rest l

  abbrev pub slash_then : (List ℕ → Bool) → List ℕ → Bool
  slash_then rest [] = false
  slash_then rest (c ∷ l) = nat_eq c 47 && rest l

  abbrev pub at_end : List ℕ → Bool
  at_end [] = true
  at_end (c ∷ l) = false

  -- `_DECLARATION_8_RE` and, by other sizes of the first part, `_DECLARATION_FLEX_RE`.
  abbrev pub is_declaration : ℕ → String → Bool
  is_declaration n s =
      digits_then n (slash_then (digits_then 6 (slash_then (digits_then 7 at_end)))) (codes s)

  unfoldable pub declaration_field : String → String → Bool → Checked String
  declaration_field value label flexible_prefix = do
    text ← nonempty value label 23
    a ←
        check
          (if flexible_prefix
            then is_declaration 2 text || is_declaration 5 text || is_declaration 8 text
            else is_declaration 8 text)
          (contract_error (label <+> " has invalid customs declaration format"))
    ok text

  -- The codes of a list, each with its index in the label.
  unfoldable pub cises_from : ℕ → List String → String → Checked (List String)
  cises_from n [] label = ok []
  cises_from n (v ∷ l) label = do
    c ← cis_field v (label <+> "[" <+> lib.str_of n <+> "]")
    rest ← cises_from (suc n) l label
    ok (c ∷ rest)

  -- `_unique_cises`
  unfoldable pub unique_cises : List String → String → Checked (List String)
  unique_cises values label = do
    a ← check (not (nat_eq (length values) 0)) (contract_error (label <+> " must be non-empty"))
    result ← cises_from 0 values label
    b ← check (distinct result) (contract_error (label <+> " must contain unique codes"))
    ok result
