-- ===== src/WritePipeline/Types.antt =====
-- The states, errors and records of wbcz/write_pipeline.py, and the classification of poll statuses.
use fbs_chz.Prelude.{ℕ, String, Bool, false, Option, none, some, List, [], ◌∷◌, elem, if◌then◌else◌}
use fbs_chz.Runtime.{Bytes}
use fbs_chz.Models.{Decision}

pub data WriteState : Type 0 where
  prepared awaiting_signature signed submitting submitted processing : WriteState
  reconciliation_required succeeded failed manual_review error : WriteState

-- The value of the enumeration's member.
abbrev pub state_value : WriteState → String
state_value prepared = "PREPARED"
state_value awaiting_signature = "AWAITING_SIGNATURE"
state_value signed = "SIGNED"
state_value submitting = "SUBMITTING"
state_value submitted = "SUBMITTED"
state_value processing = "PROCESSING"
state_value reconciliation_required = "RECONCILIATION_REQUIRED"
state_value succeeded = "SUCCEEDED"
state_value failed = "FAILED"
state_value manual_review = "MANUAL_REVIEW"
state_value error = "ERROR"

pub data PollClassification : Type 0 where
  intermediate terminal_success terminal_failure manual_review : PollClassification

abbrev pub poll_value : PollClassification → String
poll_value intermediate = "INTERMEDIATE"
poll_value terminal_success = "TERMINAL_SUCCESS"
poll_value terminal_failure = "TERMINAL_FAILURE"
poll_value manual_review = "MANUAL_REVIEW"

pub data CreateCategory : Type 0 where
  success_with_id success_contract_unconfirmed bad_request unauthorized : CreateCategory
  forbidden unprocessable server_error http_error : CreateCategory

abbrev pub category_value : CreateCategory → String
category_value success_with_id = "SUCCESS_WITH_ID"
category_value success_contract_unconfirmed = "SUCCESS_CONTRACT_UNCONFIRMED"
category_value bad_request = "BAD_REQUEST"
category_value unauthorized = "UNAUTHORIZED"
category_value forbidden = "FORBIDDEN"
category_value unprocessable = "UNPROCESSABLE"
category_value server_error = "SERVER_ERROR"
category_value http_error = "HTTP_ERROR"

-- The exceptions, each with its message. `transport` is one that the HTTP library raised, with the
-- name of its type; `integrity_error` is sqlite3's, for a constraint of a table.
pub data WriteError : Type 0 where
  production_write_disabled invalid_write_operation replay_conflict : String → WriteError
  duplicate_submit_blocked key_error value_error integrity_error transport : String → WriteError

-- `type(exc).__name__`
abbrev pub type_name : WriteError → String
type_name (production_write_disabled m) = "ProductionWriteDisabled"
type_name (invalid_write_operation m) = "InvalidWriteOperation"
type_name (replay_conflict m) = "ReplayConflict"
type_name (duplicate_submit_blocked m) = "DuplicateSubmitBlocked"
type_name (key_error m) = "KeyError"
type_name (value_error m) = "ValueError"
type_name (integrity_error m) = "IntegrityError"
type_name (transport t) = t

pub record ExactDocument : Type 0 where
  pub payload : Bytes
  pub sha256 : String
  pub product_document_base64 : String

pub record SigningRequest : Type 0 where
  pub operation_id : String
  pub document_type : String
  pub pg : String
  pub expected_inn : String
  pub document_sha256 : String
  pub product_document_base64 : String

pub record SigningResponse : Type 0 where
  pub operation_id : String
  pub document_sha256 : String
  pub signature_base64 : String
  pub certificate_thumbprint : Option String
  pub certificate_subject : Option String
  pub certificate_inn : Option String
  pub certificate_valid_from : Option String
  pub certificate_valid_to : Option String

pub record OperationRecord : Type 0 where
  pub operation_id : String
  pub business_fingerprint : String
  pub event_id : String
  pub decision : Decision
  pub document_type : String
  pub operation_reason : String
  pub pg : String
  pub expected_inn : String
  pub document_sha256 : String
  pub product_document_base64 : String
  pub prepared_at : String
  pub state : WriteState
  pub signature_base64 : Option String
  pub document_id : Option String

pub record HttpResponse : Type 0 where
  pub status_code : ℕ
  pub body : Bytes
  pub headers : Option (List (String × String))

pub record CreateResult : Type 0 where
  pub category : CreateCategory
  pub http_status : ℕ
  pub document_id : Option String
  pub body_sha256 : String
  pub content_type : Option String

pub record PollResult : Type 0 where
  pub http_status : ℕ
  pub raw_status : Option String
  pub body_sha256 : String

-- `status in {…}` where the status may be `None`.
abbrev pub status_in : Option String → List String → Bool
status_in none l = false
status_in (some s) l = elem s l

unfoldable pub classify_poll_status : Option String → PollClassification
classify_poll_status status =
    if status_in status ("IN_PROGRESS" ∷ "WAIT_FOR_CONTINUATION" ∷ [])
    then PollClassification.intermediate
    else if status_in status ("CHECKED_OK" ∷ [])
    then PollClassification.terminal_success
    else if status_in status ("CHECKED_NOT_OK" ∷ "PARSE_ERROR" ∷ "PROCESSING_ERROR" ∷ [])
    then PollClassification.terminal_failure
    else PollClassification.manual_review
