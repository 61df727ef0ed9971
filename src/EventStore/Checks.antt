-- ===== src/EventStore/Checks.antt =====
-- `save_check` of wbcz/event_store.py: the history of checks, and the preview of each event.
use fbs_chz.Prelude.{
  String, Option, none, some, List, [], ◌∷◌, ◌++◌, ◌+◌, ◌==◌, length, if◌then◌else◌,
}
use fbs_chz.Runtime.{Runtime, JsonFields, num, str, obj, end_fields, field}
use fbs_chz.Models.{decision_value, KiState, Outcome, CheckResult}
use fbs_chz.Effect.{pure, gets, require, ◌>>=◌, ◌>>◌}
use fbs_chz.EventStore.Tables.{
  integrity_error, PreviewRow, StoreAction, atomically, change_tables, has_event, opt_text,
  read_clock, append_audit,
}

-- INSERT INTO previews … ON CONFLICT(event_id) DO UPDATE SET check_id, updated_at
unfoldable pub put_preview : PreviewRow → List PreviewRow → List PreviewRow
put_preview p [] = p ∷ []
put_preview p (q ∷ l) = if q.event_id == p.event_id then p ∷ l else q ∷ put_preview p l

-- `asdict(snapshot)`
abbrev snapshot_fields : KiState → JsonFields
snapshot_fields s = field "status" (str s.status) (
    field "statusEx" (opt_text s.status_ex) (
      field "withdrawReason" (opt_text s.withdraw_reason) (
        field "ownerInn" (opt_text s.owner_inn)
          (field "productGroup" (opt_text s.product_group) end_fields))))

module _ ⦃py : Runtime⦄ where
  abbrev snapshot_json : Option KiState → Option String
  snapshot_json none = none
  snapshot_json (some s) = some (py.dumps (obj (snapshot_fields s)))

  -- The body of `save_check`. The event has to be there (FOREIGN KEY).
  unfoldable pub check_body : String → Option KiState → Outcome → String → StoreAction CheckResult
  unfolding read_clock change_tables append_audit
  check_body k snapshot outcome source = do
    now ← read_clock
    known ← gets (λ s. has_event k s.tables.events)
    require known (integrity_error "checks.event_id")
    check_id ← gets (λ s. length s.tables.checks + 1)
    change_tables λ t. record t {
      checks =
          t.checks
          ++ record {
            check_id = check_id;
            event_id = k;
            source = source;
            snapshot_json = snapshot_json snapshot;
            outcome = outcome;
            checked_at = now;
          }
            ∷ [];
      previews =
          put_preview (record { event_id = k; check_id = check_id; updated_at = now }) t.previews;
    }
    append_audit "DRY_RUN_CHECKED" "event" k (
        field "check_id" (num check_id) (
          field "decision" (str (decision_value outcome.decision)) (
            field "reason" (str outcome.reason)
              (field "error" (opt_text outcome.error) (field "source" (str source) end_fields)))))
    pure (record { check_id = check_id; event_id = k; outcome = outcome })

  -- `save_check`
  unfoldable pub save_check : String → Option KiState → Outcome → String → StoreAction CheckResult
  save_check k snapshot outcome source = atomically (check_body k snapshot outcome source)
