-- ===== src/EventStore/Tables.antt =====
-- The tables of SCHEMA in wbcz/event_store.py, the transaction, `append_audit` of wbcz/audit.py, and
-- the identifier of an event (wbcz/models.py).
use fbs_chz.Prelude.{
  ℕ, String, Bool, Option, none, some, List, [], ◌∷◌, ◌++◌, ◌+◌, ◌==◌, length, any, ◌<+>◌,
}
use fbs_chz.Runtime.{Runtime, Json, JsonFields, null, bool, str, obj, end_fields, field}
use fbs_chz.Models.{operation_value, naive, aware, Datetime, Event, Outcome, DocumentStatus}
use fbs_chz.Effect.{Result, ok, err, Exec, modify, ◌>>=◌}

pub data StoreError : Type 0 where
  value_error key_error integrity_error : String → StoreError

pub record ImportRow : Type 0 where
  pub fingerprint : String
  pub filename : String
  pub parser_version : ℕ
  pub imported_at : String
  pub partial : Bool
  pub new_events : ℕ
  pub duplicate_events : ℕ
  pub rejected_rows : ℕ

-- A row of `events`. The columns of the event itself are one field here.
pub record EventRow : Type 0 where
  pub event_id : String
  pub event : Event
  pub occurred_at : Option String
  pub payload_json : String
  pub created_at : String

-- A row of `import_rows`: an event, or the reason of a rejection.
pub record SourceRow : Type 0 where
  pub fingerprint : String
  pub row_number : ℕ
  pub event_id : Option String
  pub error : Option String

pub record CheckRow : Type 0 where
  pub check_id : ℕ
  pub event_id : String
  pub source : String
  pub snapshot_json : Option String
  pub outcome : Outcome
  pub checked_at : String

pub record PreviewRow : Type 0 where
  pub event_id : String
  pub check_id : ℕ
  pub updated_at : String

pub record DocumentRow : Type 0 where
  pub document_id : String
  pub event_id : String
  pub status : DocumentStatus
  pub error : Option String
  pub created_at : String
  pub updated_at : String

pub record StatusRow : Type 0 where
  pub id : ℕ
  pub document_id : String
  pub status : DocumentStatus
  pub error : Option String
  pub observed_at : String

pub record LogRow : Type 0 where
  pub id : ℕ
  pub action : String
  pub entity_type : String
  pub entity_id : String
  pub details_json : String
  pub created_at : String

pub record Tables : Type 0 where
  pub imports : List ImportRow
  pub events : List EventRow
  pub import_rows : List SourceRow
  pub checks : List CheckRow
  pub previews : List PreviewRow
  pub documents : List DocumentRow
  pub history : List StatusRow
  pub audit_log : List LogRow

-- The tables, and the readings of the clock taken so far.
pub record EventStore : Type 0 where
  pub tables : Tables
  pub reads : ℕ

abbrev pub StoreAction : Type 0 → Type 0
StoreAction = Exec StoreError EventStore

-- `_transaction`: ROLLBACK when the body raises.
abbrev pub roll_back :
    {A : Type 0} → Tables → Result StoreError A × EventStore → Result StoreError A × EventStore
roll_back t (ok a, s) = (ok a, s)
roll_back t (err e, s) = (err e, record s { tables = t })

unfoldable pub atomically : {A : Type 0} → StoreAction A → StoreAction A
atomically body s = roll_back s.tables (body s)

unfoldable pub change_tables : (Tables → Tables) → StoreAction (Unit {0})
change_tables f = modify (λ s. record s { tables = f s.tables })

abbrev pub has_event : String → List EventRow → Bool
has_event k l = any (λ r. r.event_id == k) l

abbrev pub opt_text : Option String → Json
opt_text none = null
opt_text (some s) = str s

abbrev opt_bool : Option Bool → Json
opt_bool none = null
opt_bool (some b) = bool b

module _ ⦃py : Runtime⦄ where
  unfoldable pub read_clock : StoreAction String
  read_clock s = (ok (py.now s.reads), record s { reads = s.reads + 1 })

  -- `append_audit`
  unfoldable pub append_audit : String → String → String → JsonFields → StoreAction (Unit {0})
  unfolding read_clock change_tables
  append_audit action entity_type entity_id details = do
    now ← read_clock
    change_tables λ t. record t {
      audit_log =
          t.audit_log
          ++ record {
            id = length t.audit_log + 1;
            action = action;
            entity_type = entity_type;
            entity_id = entity_id;
            details_json = py.dumps (obj details);
            created_at = now;
          }
            ∷ [];
    }

  -- The instant of an event, as text. A time zone is checked when the event is made.
  abbrev iso_of : Datetime → String
  iso_of (naive t) = py.isoformat t
  iso_of (aware t) = py.isoformat t

  abbrev pub occurred_text : Option Datetime → Option String
  occurred_text none = none
  occurred_text (some d) = some (iso_of d)

  -- `Event.to_dict`
  unfoldable pub to_dict : Event → JsonFields
  to_dict e = field "kiz" (str e.kiz) (
      field "task_number" (str e.task_number) (
        field "sticker" (str e.sticker) (
          field "operation" (str (operation_value e.operation)) (
            field "occurred_at" (opt_text (occurred_text e.occurred_at)) (
              field "receipt_number" (opt_text e.receipt_number) (
                field "fiscal_drive_number" (opt_text e.fiscal_drive_number) (
                  field "amount" (str (py.format_cents e.amount)) (
                    field "currency" (str e.currency)
                      (field "legal_entity_sale" (opt_bool e.legal_entity_sale) end_fields)))))))))

  -- `Event.event_id`
  unfoldable pub event_id_of : Event → String
  event_id_of e = py.sha256_hex (py.utf8_encode ("wb-event:v1:" <+> py.dumps (obj (to_dict e))))
