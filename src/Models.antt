-- ===== src/Models.antt =====
-- wbcz/models.py: the data that the pipeline passes round.
use fbs_chz.Prelude.{ℕ, String, Bool, Option, List}

-- The constructor `sale` is the text "Продажа", `return` is "Возврат".
pub data Operation : Type 0 where
  sale return : Operation

abbrev pub operation_value : Operation → String
operation_value sale = "Продажа"
operation_value return = "Возврат"

pub data Decision : Type 0 where
  ready_to_withdraw ready_to_return already_done no_action manual_review error : Decision

abbrev pub decision_value : Decision → String
decision_value ready_to_withdraw = "READY_TO_WITHDRAW"
decision_value ready_to_return = "READY_TO_RETURN"
decision_value already_done = "ALREADY_DONE"
decision_value no_action = "NO_ACTION"
decision_value manual_review = "MANUAL_REVIEW"
decision_value error = "ERROR"

-- A `datetime`: without a time zone, or the instant that it names, in microseconds of UTC.
pub data Datetime : Type 0 where
  naive : ℕ → Datetime
  aware : ℕ → Datetime

-- A `Decimal`: the sign, the digits and the number of them behind the point; or no finite number.
pub data Decimal : Type 0 where
  finite : Bool → ℕ → ℕ → Decimal
  not_finite : Decimal

pub record Event : Type 0 where
  pub kiz : String
  pub task_number : String
  pub sticker : String
  pub operation : Operation
  pub occurred_at : Option Datetime
  pub receipt_number : Option String
  pub fiscal_drive_number : Option String
  pub amount : Decimal
  pub currency : String
  pub legal_entity_sale : Option Bool

-- The normalized state of one code, as the control engine reads it.
pub record KiState : Type 0 where
  pub status : String
  pub status_ex : Option String
  pub withdraw_reason : Option String
  pub owner_inn : Option String
  pub product_group : Option String

pub record Outcome : Type 0 where
  pub decision : Decision
  pub reason : String
  pub error : Option String

pub data DocumentStatus : Type 0 where
  accepted processing succeeded rejected verification_error : DocumentStatus

abbrev pub status_value : DocumentStatus → String
status_value accepted = "ACCEPTED"
status_value processing = "PROCESSING"
status_value succeeded = "SUCCEEDED"
status_value rejected = "REJECTED"
status_value verification_error = "VERIFICATION_ERROR"

pub record ParsedRow : Type 0 where
  pub row_number : ℕ
  pub event : Event

pub record RowIssue : Type 0 where
  pub row_number : ℕ
  pub message : String

pub record ParsedWorkbook : Type 0 where
  pub rows : List ParsedRow
  pub issues : List RowIssue
  pub ignored_rows : List ℕ

pub record ImportReport : Type 0 where
  pub fingerprint : String
  pub new_events : ℕ
  pub duplicate_events : ℕ
  pub rejected_rows : ℕ
  pub repeated_file : Bool

pub record CheckResult : Type 0 where
  pub check_id : ℕ
  pub event_id : String
  pub outcome : Outcome

pub record DocumentReport : Type 0 where
  pub status : DocumentStatus
  pub error : Option String
