-- ===== src/WritePipeline/Tests.antt =====
-- Runs of the pipeline on one operation, and its theorems at these runs.
use fbs_chz.WritePipeline.Returns.{moved, transition-returns, reserve_submit-returns}
use fbs_chz.WritePipeline.States.{is_unsent}
use fbs_chz.WritePipeline.Store.{
  accept_signature, signature_body, signature_guards, signature_store, reserve_submit,
  submit_guards, complete_submit, complete_body, complete_store, finish_update, apply_poll_status,
  reconciliation_result,
}
use fbs_chz.WritePipeline.Transition.{
  decision_document, get, get_row, validate_base64_ascii, transition, transition_body, to_record,
}
use fbs_chz.WritePipeline.Prepare.{
  prepare, prepare_guards, prepare_body, prepare_new, business_fingerprint, operation_id_of,
}
use fbs_chz.Prelude.{◌≤◌, String, true, false, none, some, List, [], ◌∷◌, ◌≡◌, refl}
use fbs_chz.Models.{ready_to_withdraw}
use fbs_chz.Effect.{ok, err, ◌>>=◌}
use fbs_chz.WritePipeline.Types.{
  succeeded, production_write_disabled, ExactDocument, SigningResponse, HttpResponse,
  classify_poll_status, signed, error, submitting,
}
use fbs_chz.WritePipeline.Schema.{
  Row, World, find, find_fingerprint, insert, write_audit, set_row, utc_now, transaction, update,
}
use fbs_chz.WritePipeline.Adapter.{
  Transport, Writer, Poller, create, post_json, read_create, safe_document_id, poll, get_json,
}
use fbs_chz.WritePipeline.Pipeline.{
  Pipeline, Command, prepare_command, sign_command, submit_command, poll_command, reconcile_command,
  submit, run, perform, prepare_operation, send, attempt, poll_once,
}
use fbs_chz.WritePipeline.Steps.{Steps}
use fbs_chz.WritePipeline.Ranks.{rank_at}
use fbs_chz.WritePipeline.Trail.{IsTold, state_at}
use fbs_chz.WritePipeline.Rows.{AllValid, business, business_at}
use fbs_chz.WritePipeline.Flow.{run-Steps}
use fbs_chz.WritePipeline.Reserved.{reserved_of}
use fbs_chz.WritePipeline.Again.{IsRefused, reserve_submit_again}
use fbs_chz.WritePipeline.AtMostOnce.{requests_of, quota, submit_at_most_once}
use fbs_chz.WritePipeline.Runs.{
  run-rank, run-final, run-IsTold, run-AllValid, run-business, run-disabled,
}
use fbs_chz.Runtime.{end_fields}
use fbs_chz.Samples.{plain, inn}

-- The service accepts every document under one number, and then has checked it.
abbrev answer : HttpResponse
answer = record { status_code = 200; body = 123 ∷ 125 ∷ []; headers = none }

abbrev transport : Transport
transport = record { post_json = λ n q. ok answer; get = λ n url a. ok answer }

abbrev writer : Writer
writer = record {
  base_url = "https://markirovka";
  authorization = "Bearer t";
  transport = transport;
  parse_document_id = λ r. ok (some "doc-1");
}

abbrev poller : Poller
poller = record {
  base_url = "https://markirovka";
  authorization = "Bearer t";
  transport = transport;
  parse_status = λ r. ok (some "CHECKED_OK");
}

abbrev pipeline : Pipeline
pipeline = record {
  own_inn = inn;
  writer = some writer;
  poller = some poller;
  true_api_write = true;
}

abbrev read_only : Pipeline
read_only = record pipeline { true_api_write = false }

abbrev document : ExactDocument
document = record {
  payload = 100 ∷ 111 ∷ 99 ∷ [];
  sha256 = "5e1f";
  product_document_base64 = "ZG9j";
}

abbrev key : String
key = "op_5e1f"

abbrev signature : SigningResponse
signature = record {
  operation_id = key;
  document_sha256 = "5e1f";
  signature_base64 = "c2ln";
  certificate_thumbprint = none;
  certificate_subject = none;
  certificate_inn = some inn;
  certificate_valid_from = none;
  certificate_valid_to = none;
}

abbrev two_submissions : List Command
two_submissions =
    prepare_command "event-1" ready_to_withdraw "LK_RECEIPT" "DISTANCE" "lp" inn document
    ∷ sign_command signature
    ∷ submit_command key
    ∷ submit_command key
    ∷ poll_command key
    ∷ []

abbrev whole_flow : List Command
whole_flow =
    prepare_command "event-1" ready_to_withdraw "LK_RECEIPT" "DISTANCE" "lp" inn document
    ∷ sign_command signature
    ∷ submit_command key
    ∷ poll_command key
    ∷ reconcile_command key true end_fields
    ∷ []

abbrev empty_world : World
empty_world = record {
  db = record { operations = []; audit = [] };
  reads = 0;
  polls = 0;
  posts = [];
}

-- An operation that has succeeded.
abbrev done : Row
done = record {
  operation_id = key;
  business_fingerprint = "5e1f";
  event_id = "event-1";
  decision = ready_to_withdraw;
  document_type = "LK_RECEIPT";
  operation_reason = "DISTANCE";
  pg = "lp";
  expected_inn = inn;
  document_sha256 = "5e1f";
  product_document_base64 = "ZG9j";
  prepared_at = "2024-05-01T10:00:00+00:00";
  state = succeeded;
  signature_base64 = some "c2ln";
  certificate_thumbprint = none;
  certificate_subject = none;
  certificate_inn = some inn;
  certificate_valid_from = none;
  certificate_valid_to = none;
  document_id = some "doc-1";
  submit_http_status = some 200;
  submit_category = none;
  submit_body_sha256 = some "5e1f";
  updated_at = "2024-05-01T10:00:00+00:00";
}

abbrev done_world : World
done_world = record empty_world { db = record { operations = done ∷ []; audit = [] } }

empty-IsTold : IsTold empty_world.db
unfolding find
empty-IsTold = record { told = λ k. refl }

empty-AllValid : AllValid empty_world.db
unfolding find
empty-AllValid = record { valid = λ k. tt }

done_is_found : business_at key done_world.db ≡ some (business done)
unfolding find
done_is_found = refl

done_has_succeeded : state_at key done_world.db ≡ some succeeded
unfolding find
done_has_succeeded = refl

submit_at_most_once_example :
    (requests_of key (run pipeline empty_world two_submissions).posts
      ≤ quota (rank_at key (run pipeline empty_world two_submissions)))
    × (requests_of key (run pipeline empty_world two_submissions).posts
        ≤ reserved_of key (run pipeline empty_world two_submissions).db.audit)
submit_at_most_once_example = submit_at_most_once pipeline two_submissions empty_world refl key

run-Steps_example : Steps empty_world.db (run pipeline empty_world whole_flow).db
run-Steps_example = run-Steps pipeline whole_flow empty_world

run-rank_example : rank_at key done_world ≤ rank_at key (run pipeline done_world two_submissions)
run-rank_example = run-rank pipeline two_submissions done_world key

run-final_example : state_at key (run pipeline done_world two_submissions).db ≡ some succeeded
run-final_example =
    run-final pipeline two_submissions done_world key succeeded refl done_has_succeeded

run-IsTold_example : IsTold (run pipeline empty_world whole_flow).db
run-IsTold_example = run-IsTold pipeline whole_flow empty_world empty-IsTold

run-AllValid_example : AllValid (run pipeline empty_world whole_flow).db
run-AllValid_example = run-AllValid pipeline whole_flow empty_world empty-AllValid

run-business_example :
    business_at key (run pipeline done_world two_submissions).db ≡ some (business done)
run-business_example =
    run-business pipeline two_submissions done_world key (business done) done_is_found

run-disabled_example :
    ((run read_only empty_world two_submissions).posts ≡ empty_world.posts)
    × (submit read_only key empty_world
        ≡ (err (production_write_disabled "true_api_write=false"), empty_world))
run-disabled_example = run-disabled read_only refl two_submissions key empty_world

-- The whole flow reaches its end with one request.
whole_flow_succeeds :
    let w = run pipeline empty_world whole_flow in
    (state_at key w.db ≡ some succeeded) × (requests_of key w.posts ≡ 1)
unfolding run perform prepare_operation prepare prepare_guards prepare_body prepare_new
    business_fingerprint operation_id_of decision_document find_fingerprint insert write_audit
    set_row utc_now transaction get get_row accept_signature signature_body signature_guards
    signature_store validate_base64_ascii transition transition_body find update ◌>>=◌ submit
    reserve_submit submit_guards send attempt create post_json read_create safe_document_id
    complete_submit complete_body complete_store finish_update poll_once poll get_json
    apply_poll_status classify_poll_status reconciliation_result
whole_flow_succeeds = (refl, refl)

-- An operation that is signed, and one that is with the service.
abbrev ready : Row
ready = record done { state = signed; document_id = none }

abbrev ready_world : World
ready_world = record empty_world { db = record { operations = ready ∷ []; audit = [] } }

ready_is_found : find key ready_world.db.operations ≡ some ready
unfolding find
ready_is_found = refl

transition-returns_example :
    ((transition key is_unsent error "PIPELINE_ERROR" end_fields ready_world).0
      ≡ ok (to_record (moved ready error (plain.now 0))))
    × (find key
          (transition key is_unsent error "PIPELINE_ERROR" end_fields ready_world).1.db.operations
        ≡ some (moved ready error (plain.now 0)))
transition-returns_example =
    transition-returns key is_unsent error "PIPELINE_ERROR" end_fields ready_world ready
      ready_is_found refl

reserve_submit-returns_example :
    ((reserve_submit key ready_world).0 ≡ ok (to_record (moved ready submitting (plain.now 0))))
    × (find key (reserve_submit key ready_world).1.db.operations
        ≡ some (moved ready submitting (plain.now 0)))
reserve_submit-returns_example =
    reserve_submit-returns key ready_world ready ready_is_found refl refl

reserve_submit-returns_first :
    (reserve_submit key ready_world).0 ≡ ok (to_record (moved ready submitting (plain.now 0)))
unfolding reserve_submit submit_guards transition transition_body get get_row transaction find
    update utc_now set_row write_audit ◌>>=◌
reserve_submit-returns_first = refl

reserve_submit_again_example :
    IsRefused key (run pipeline (reserve_submit key ready_world).1 two_submissions)
reserve_submit_again_example =
    reserve_submit_again pipeline two_submissions key ready_world
      (to_record (moved ready submitting (plain.now 0))) reserve_submit-returns_first
