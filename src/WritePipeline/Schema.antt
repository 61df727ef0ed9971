-- ===== src/WritePipeline/Schema.antt =====
-- The tables of WRITE_SCHEMA in wbcz/write_pipeline.py, the statements that the store runs on them,
-- and the transaction. The world is the database, the readings of the clock taken so far, and the
-- requests sent to the remote service.
use fbs_chz.Prelude.{
  ℕ, String, Bool, true, false, Option, none, some, List, [], ◌∷◌, ◌++◌, ◌+◌, ◌&&◌, ◌||◌, ◌==◌,
  elem, length, any, opt_eq, if◌then◌else◌,
}
use fbs_chz.Runtime.{Runtime, JsonFields, obj}
use fbs_chz.Models.{Decision, ready_to_withdraw, ready_to_return}
use fbs_chz.Effect.{Result, ok, err, Exec, modify, ◌>>=◌}
use fbs_chz.WritePipeline.Types.{WriteState, CreateCategory, WriteError, integrity_error}

-- A row of `write_operations`.
pub record Row : Type 0 where
  pub operation_id : String
  pub business_fingerprint : String
  pub event_id : String
  pub decision : Decision
  pub document_type : String
  pub operation_reason : String
  pub pg : String
  pub expected_inn : String
  pub document_sha256 : String
  pub product_document_base64 : String
  pub prepared_at : String
  pub state : WriteState
  pub signature_base64 : Option String
  pub certificate_thumbprint : Option String
  pub certificate_subject : Option String
  pub certificate_inn : Option String
  pub certificate_valid_from : Option String
  pub certificate_valid_to : Option String
  pub document_id : Option String
  pub submit_http_status : Option ℕ
  pub submit_category : Option CreateCategory
  pub submit_body_sha256 : Option String
  pub updated_at : String

-- A row of `write_audit`.
pub record AuditEntry : Type 0 where
  pub id : ℕ
  pub operation_id : String
  pub action : String
  pub from_state : Option WriteState
  pub to_state : Option WriteState
  pub details_json : String
  pub created_at : String

pub record Db : Type 0 where
  pub operations : List Row
  pub audit : List AuditEntry

-- A request to create a document: the address, the authorization and the fields of the body. The
-- format (`MANUAL`) and the content type (`application/json`) are constant, and left out.
pub record CreateRequest : Type 0 where
  pub url : String
  pub authorization : String
  pub product_document : String
  pub document_type : String
  pub signature : String

-- `reads` counts the readings of the clock and `polls` the status requests. `posts` holds the
-- create requests with the operation whose submission sent each; the tag is not part of a request.
pub record World : Type 0 where
  pub db : Db
  pub reads : ℕ
  pub polls : ℕ
  pub posts : List (String × CreateRequest)

abbrev pub Action : Type 0 → Type 0
Action = Exec WriteError World

-- SELECT * FROM write_operations WHERE operation_id = ?
unfoldable pub find : String → List Row → Option Row
find k [] = none
find k (r ∷ l) = if r.operation_id == k then some r else find k l

-- SELECT * FROM write_operations WHERE business_fingerprint = ?
unfoldable pub find_fingerprint : String → List Row → Option Row
find_fingerprint k [] = none
find_fingerprint k (r ∷ l) = if r.business_fingerprint == k then some r else find_fingerprint k l

-- UPDATE write_operations SET … WHERE operation_id = ?
unfoldable pub update : String → (Row → Row) → List Row → List Row
update k f [] = []
update k f (r ∷ l) = (if r.operation_id == k then f r else r) ∷ update k f l

abbrev is_ready : Decision → Bool
is_ready ready_to_withdraw = true
is_ready ready_to_return = true
is_ready _ = false

-- The CHECK constraints of `write_operations`.
abbrev pub checks_hold : Row → Bool
checks_hold r =
    is_ready r.decision
    && elem r.document_type ("LK_RECEIPT" ∷ "LP_RETURN" ∷ [])
    && elem r.operation_reason ("DISTANCE" ∷ "REMOTE_SALE_RETURN" ∷ [])
    && r.pg == "lp"

-- The primary key and the UNIQUE constraint on the fingerprint. The new row's document is NULL,
-- and NULLs are distinct.
abbrev pub is_taken : Row → List Row → Bool
is_taken r l =
    any (λ x. x.operation_id == r.operation_id || x.business_fingerprint == r.business_fingerprint)
      l

unfoldable pub insert : Row → Action (Unit {0})
insert r w =
    if checks_hold r && (if is_taken r w.db.operations then false else true)
    then (ok tt, record w { db = record w.db { operations = w.db.operations ++ r ∷ [] } })
    else (err (integrity_error "write_operations"), w)

-- The UNIQUE constraint on `document_id`, for a row other than `k`'s.
abbrev pub document_taken : String → Option String → List Row → Bool
document_taken k none l = false
document_taken k (some d) l =
    any (λ x. (if x.operation_id == k then false else true) && opt_eq x.document_id (some d)) l

unfoldable pub utc_now : ⦃py : Runtime⦄ → Action String
utc_now ⦃py⦄ w = (ok (py.now w.reads), record w { reads = w.reads + 1 })

unfoldable pub set_row : String → (Row → Row) → Action (Unit {0})
set_row k f =
    modify (λ w. record w { db = record w.db { operations = update k f w.db.operations } })

-- `_audit`: one more row, with the next number.
unfoldable pub write_audit :
    ⦃py : Runtime⦄
    → String
    → String
    → Option WriteState
    → Option WriteState
    → JsonFields
    → Action (Unit {0})
unfolding utc_now
write_audit ⦃py⦄ operation_id action from_state to_state details = do
  now ← utc_now
  modify λ w. record w {
    db = record w.db {
      audit =
          w.db.audit
          ++ record {
            id = length w.db.audit + 1;
            operation_id = operation_id;
            action = action;
            from_state = from_state;
            to_state = to_state;
            details_json = py.dumps (obj details);
            created_at = now;
          }
            ∷ [];
    };
  }

-- BEGIN IMMEDIATE … COMMIT, with ROLLBACK of the database when the body raises.
abbrev pub restore : {A : Type 0} → Db → Result WriteError A × World → Result WriteError A × World
restore d (ok a, w) = (ok a, w)
restore d (err e, w) = (err e, record w { db = d })

unfoldable pub transaction : {A : Type 0} → Action A → Action A
transaction body w = restore w.db (body w)
