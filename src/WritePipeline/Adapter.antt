-- ===== src/WritePipeline/Adapter.antt =====
-- `ExactDocumentBuilder`, `TrueApiWriteAdapter` and `TrueApiPollingAdapter` of
-- wbcz/write_pipeline.py. The HTTP transport and the parsers of the two success envelopes are
-- protocols there, and arguments here: the n-th request gets the n-th answer, which may be an
-- exception.
use fbs_chz.Prelude.{
  ℕ, String, Bool, true, false, Option, none, some, List, [], ◌∷◌, ◌++◌, ◌+◌, ◌||◌, nat_eq, leb,
  ltb, not, ◌==◌, any, filled, present, codes, len, length, ◌<+>◌, if◌then◌else◌,
}
use fbs_chz.Runtime.{Runtime, Bytes, Json, JsonFields, obj}
use fbs_chz.Effect.{Result, ok, err, pure, lift, require, ◌>>=◌, ◌>>◌, bind}
use fbs_chz.WritePipeline.Types.{
  CreateCategory, WriteError, invalid_write_operation, value_error, ExactDocument, HttpResponse,
  CreateResult, PollResult,
}
use fbs_chz.WritePipeline.Schema.{CreateRequest, Action}
use fbs_chz.WritePipeline.Transition.{is_allowed_type, validate_base64_ascii}

-- The answers of the remote service, by the number of the request.
pub record Transport : Type 0 where
  pub post_json : ℕ → CreateRequest → Result WriteError HttpResponse
  pub get : ℕ → String → String → Result WriteError HttpResponse

pub record Writer : Type 0 where
  pub base_url : String
  pub authorization : String
  pub transport : Transport
  pub parse_document_id : HttpResponse → Result WriteError (Option String)

pub record Poller : Type 0 where
  pub base_url : String
  pub authorization : String
  pub transport : Transport
  pub parse_status : HttpResponse → Result WriteError (Option String)

-- `UnconfirmedSuccessEnvelopeParser` and `UnconfirmedPollEnvelopeParser`, the parsers that are used
-- where none is given.
unfoldable pub unconfirmed_success : HttpResponse → Result WriteError (Option String)
unconfirmed_success response = ok none

unfoldable pub unconfirmed_poll : HttpResponse → Result WriteError (Option String)
unconfirmed_poll response = ok none

abbrev pub create_path : String
create_path = "/api/v3/true-api/lk/documents/create?pg=lp"

abbrev header : String → List (String × String) → Option String
header k [] = none
header k ((j, v) ∷ l) = if j == k then some v else header k l

-- `response.headers.get("Content-Type") or response.headers.get("content-type")`
abbrev content_type : Option (List (String × String)) → Option String
content_type none = none
content_type (some l) =
    if present (header "Content-Type" l) then header "Content-Type" l else header "content-type" l

-- The category of a status code other than 200 and 201.
unfoldable pub failure_category : ℕ → CreateCategory
failure_category n =
    if nat_eq n 400
    then CreateCategory.bad_request
    else if nat_eq n 401
    then CreateCategory.unauthorized
    else if nat_eq n 403
    then CreateCategory.forbidden
    else if nat_eq n 422
    then CreateCategory.unprocessable
    else if leb 500 n
    then CreateCategory.server_error
    else CreateCategory.http_error

abbrev success_category : Option String → CreateCategory
success_category none = CreateCategory.success_contract_unconfirmed
success_category (some d) = CreateCategory.success_with_id

abbrev pub is_object : Json → Bool
is_object (obj fields) = true
is_object _ = false

module _ ⦃py : Runtime⦄ where
  abbrev pub parsed_object : Bytes → Option Json → Result WriteError ExactDocument
  parsed_object payload none = err (value_error "document payload must be valid UTF-8 JSON")
  parsed_object payload (some j) =
      if is_object j
      then ok (record {
        payload = payload;
        sha256 = py.sha256_hex payload;
        product_document_base64 = py.b64encode payload;
      })
      else err (value_error "document payload JSON root must be an object")

  abbrev pub parsed_text : Bytes → Option String → Result WriteError ExactDocument
  parsed_text payload none = err (value_error "document payload must be valid UTF-8 JSON")
  parsed_text payload (some text) = parsed_object payload (py.loads text)

  unfoldable pub from_utf8_json_bytes : Bytes → Result WriteError ExactDocument
  from_utf8_json_bytes [] = err (value_error "document payload must be non-empty bytes")
  from_utf8_json_bytes (b ∷ bytes) = parsed_text (b ∷ bytes) (py.utf8_decode (b ∷ bytes))

  unfoldable pub from_json_value : JsonFields → Result WriteError ExactDocument
  unfolding from_utf8_json_bytes
  from_json_value value = from_utf8_json_bytes (py.utf8_encode (py.dumps (obj value)))

  -- `_safe_document_id`
  abbrev safe_text : String → Result WriteError (Option String)
  safe_text value =
      if not (filled value) || ltb 512 (len value) || any (λ c. ltb c 32) (codes value)
      then err (value_error "unsafe document identifier from parser")
      else ok (some value)

  unfoldable pub safe_document_id : Option String → Result WriteError (Option String)
  safe_document_id none = ok none
  safe_document_id (some value) = safe_text (py.strip value)

  -- The request goes out, and is on record whatever the answer.
  unfoldable pub post_json : Writer → String → CreateRequest → Action HttpResponse
  post_json writer tag request w = (
    writer.transport.post_json (length w.posts) request,
    record w { posts = w.posts ++ (tag, request) ∷ [] },
  )

  -- What `create` makes of an answer.
  unfoldable pub read_create : Writer → HttpResponse → Result WriteError CreateResult
  unfolding failure_category
  read_create writer response =
      let sha = py.sha256_hex response.body in
      if nat_eq response.status_code 200 || nat_eq response.status_code 201
      then bind (bind (writer.parse_document_id response) safe_document_id) (λ document_id.
        ok (record {
          category = success_category document_id;
          http_status = response.status_code;
          document_id = document_id;
          body_sha256 = sha;
          content_type = content_type response.headers;
        }))
      else ok (record {
        category = failure_category response.status_code;
        http_status = response.status_code;
        document_id = none;
        body_sha256 = sha;
        content_type = content_type response.headers;
      })

  -- `TrueApiWriteAdapter.create`; `tag` is the operation that is submitted.
  unfoldable pub create : Writer → String → String → String → String → Action CreateResult
  create writer tag document_type product_document_base64 signature_base64 = do
    require (is_allowed_type document_type) (invalid_write_operation "unsupported document_type")
    document ← lift (validate_base64_ascii "product_document" product_document_base64)
    signature ← lift (validate_base64_ascii "signature" signature_base64)
    response ← post_json writer tag (record {
      url = py.rstrip "/" writer.base_url <+> create_path;
      authorization = writer.authorization;
      product_document = document;
      document_type = document_type;
      signature = signature;
    })
    lift (read_create writer response)

  abbrev strip_status : Option String → Option String
  strip_status none = none
  strip_status (some s) = some (py.strip s)

  unfoldable pub get_json : Poller → String → Action HttpResponse
  get_json poller url w =
      (poller.transport.get w.polls url poller.authorization, record w { polls = w.polls + 1 })

  -- The identifier is text here, so `_safe_document_id` returns a text or raises.
  abbrev info_url : Poller → Option String → String
  info_url poller none = ""
  info_url poller (some d) =
      py.rstrip "/" poller.base_url <+> "/api/v4/true-api/doc/" <+> d <+> "/info"

  -- `TrueApiPollingAdapter.poll`
  unfoldable pub poll : Poller → String → Action PollResult
  poll poller document_id = do
    safe ← lift (safe_document_id (some document_id))
    response ← get_json poller (info_url poller safe)
    status ← lift (poller.parse_status response)
    pure (record {
      http_status = response.status_code;
      raw_status = strip_status status;
      body_sha256 = py.sha256_hex response.body;
    })
