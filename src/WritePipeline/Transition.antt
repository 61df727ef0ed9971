-- ===== src/WritePipeline/Transition.antt =====
-- What the methods of `WriteOperationStore` in wbcz/write_pipeline.py share: reading an operation,
-- the check of Base64 texts, and `_transition`.
use fbs_chz.Prelude.{
  ℕ, String, Bool, Option, none, some, [], ◌∷◌, ◌||◌, nat_eq, not, ◌==◌, any, elem, filled, codes,
  ◌<+>◌, if◌then◌else◌,
}
use fbs_chz.Runtime.{Runtime, Bytes, Json, JsonFields, null, num, str, end_fields, field}
use fbs_chz.Models.{Decision, ready_to_withdraw, ready_to_return}
use fbs_chz.Effect.{Result, ok, err, pure, raise, gets, require, ◌>>=◌, ◌>>◌}
use fbs_chz.WritePipeline.Types.{
  WriteState, state_value, WriteError, invalid_write_operation, key_error, value_error,
  OperationRecord,
}
use fbs_chz.WritePipeline.Schema.{Row, Action, find, utc_now, set_row, write_audit, transaction}

abbrev pub is_allowed_type : String → Bool
is_allowed_type t = elem t ("LK_RECEIPT" ∷ "LP_RETURN" ∷ [])

-- `_DECISION_DOCUMENT`: the document type and the reason of an approved decision.
unfoldable pub decision_document : Decision → Option (String × String)
decision_document ready_to_withdraw = some ("LK_RECEIPT", "DISTANCE")
decision_document ready_to_return = some ("LP_RETURN", "REMOTE_SALE_RETURN")
decision_document _ = none

-- `_record`
abbrev pub to_record : Row → OperationRecord
to_record r = record {
  operation_id = r.operation_id;
  business_fingerprint = r.business_fingerprint;
  event_id = r.event_id;
  decision = r.decision;
  document_type = r.document_type;
  operation_reason = r.operation_reason;
  pg = r.pg;
  expected_inn = r.expected_inn;
  document_sha256 = r.document_sha256;
  product_document_base64 = r.product_document_base64;
  prepared_at = r.prepared_at;
  state = r.state;
  signature_base64 = r.signature_base64;
  document_id = r.document_id;
}

abbrev row_or_key_error : String → Option Row → Action Row
row_or_key_error k none = raise (key_error ("operation not found: " <+> k))
row_or_key_error k (some r) = pure r

-- `_row`
unfoldable pub get_row : String → Action Row
get_row k = do found ← gets (λ w. find k w.db.operations); row_or_key_error k found

unfoldable pub get : String → Action OperationRecord
unfolding get_row
get k = do row ← get_row k; pure (to_record row)

abbrev pub opt_str : Option String → Json
opt_str none = null
opt_str (some s) = str s

abbrev pub opt_num : Option ℕ → Json
opt_num none = null
opt_num (some n) = num n

-- `{k: v, **details}`: a key of `details` that is there already keeps its place.
abbrev pub merge_field : JsonFields → String → Json → JsonFields
merge_field end_fields k v = field k v end_fields
merge_field (field j u rest) k v =
    if j == k then field j v rest else field j u (merge_field rest k v)

abbrev pub merge_fields : JsonFields → JsonFields → JsonFields
merge_fields base end_fields = base
merge_fields base (field k v rest) = merge_fields (merge_field base k v) rest

abbrev has_line_break : String → Bool
has_line_break s = any (λ c. nat_eq c 13 || nat_eq c 10) (codes s)

abbrev decoded_or_error : String → Option Bytes → Result WriteError Bytes
decoded_or_error label none = err (value_error (label <+> " is not valid Base64"))
decoded_or_error label (some []) = err (value_error (label <+> " decodes to empty bytes"))
decoded_or_error label (some (b ∷ bytes)) = ok (b ∷ bytes)

module _ ⦃py : Runtime⦄ where
  abbrev reencode : Result WriteError Bytes → Result WriteError String
  reencode (ok raw) = ok (py.b64encode raw)
  reencode (err e) = err e

  -- `_validate_base64_ascii`
  unfoldable pub validate_base64_ascii : String → String → Result WriteError String
  validate_base64_ascii label value =
      if not (filled value) || has_line_break value
      then err (value_error (label <+> " must be non-empty Base64 without CR/LF"))
      else reencode (decoded_or_error label (py.b64decode value))

  -- The transaction of `_transition`.
  unfoldable pub transition_body :
      String → (WriteState → Bool) → WriteState → String → JsonFields → Action (Unit {0})
  unfolding get_row write_audit set_row
  transition_body k expected target action details = do
    row ← get_row k
    require (expected row.state)
        (invalid_write_operation (action <+> " not allowed from state " <+> state_value row.state))
    now ← utc_now
    set_row k (λ r. record r { state = target; updated_at = now })
    write_audit k action (some row.state) (some target) details

  -- `_transition`
  unfoldable pub transition :
      String → (WriteState → Bool) → WriteState → String → JsonFields → Action OperationRecord
  transition k expected target action details = do
    transaction (transition_body k expected target action details)
    get k
