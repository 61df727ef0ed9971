-- ===== src/Printing/Replay.antt =====
-- `AgentPhysicalReplayStore` of wbcz/physical_printing.py: the durable record of what was printed.
-- The world is its table, the readings of the clock, the resolutions of the printer and the calls of
-- the spooler so far, the messages sent to the backend, and the documents started on a printer.
use fbs_chz.Prelude.{
  ℕ, String, Bool, true, false, Option, none, some, List, [], ◌∷◌, ◌+◌, ◌&&◌, ◌==◌, not,
  if◌then◌else◌,
}
use fbs_chz.Runtime.{Runtime}
use fbs_chz.Effect.{ok, Exec, pure, modify, gets, require, ◌>>=◌, ◌>>◌}
use fbs_chz.Printing.Contracts.{PrintError, replay_blocked, PhysicalExecutionControl}

pub data ReplayState : Type 0 where
  rendered_verified spool_submitting spool_job_created spooler_accepted : ReplayState
  failed_pre_spool blocked unknown_after_spool : ReplayState

-- What an execution is bound to.
pub record Identity : Type 0 where
  pub print_job_item_id : String
  pub delivery_reservation_id : String
  pub payload_sha256 : String
  pub layout_sha256 : String
  pub printer_profile_id : String
  pub printer_profile_fingerprint : String

-- A row of `print_physical_replay`.
pub record ReplayRow : Type 0 where
  pub execution_id : String
  pub identity : Identity
  pub state : ReplayState
  pub windows_spool_job_id : Option ℕ
  pub windows_status : Option String
  pub first_seen_at : String
  pub updated_at : String
  pub safe_error_code : Option String

-- The arguments of the callbacks `mark_rendered`, `begin_spool` and `report_result`. The first two
-- send the hashes and the profile of the identity.
pub data Message : Type 0 where
  mark_rendered : String → Identity → String → String → Message
  begin_spool : String → Identity → Message
  report_result : String → ReplayState → Option ℕ → Option String → Option String → Message

-- `documents` names the execution for which each document was started; the printer is not told.
pub record PrintWorld : Type 0 where
  pub rows : List ReplayRow
  pub reads : ℕ
  pub resolutions : ℕ
  pub submissions : ℕ
  pub messages : List Message
  pub documents : List String

abbrev pub PrintAction : Type 0 → Type 0
PrintAction = Exec PrintError PrintWorld

-- `_IRREVERSIBLE`
unfoldable pub is_irreversible : ReplayState → Bool
is_irreversible rendered_verified = false
is_irreversible blocked = false
is_irreversible _ = true

abbrev pub is_rendered : ReplayState → Bool
is_rendered rendered_verified = true
is_rendered _ = false

abbrev pub is_accepted : ReplayState → Bool
is_accepted spooler_accepted = true
is_accepted _ = false

-- `_identity`
unfoldable pub identity_of : PhysicalExecutionControl → Identity
identity_of c = record {
  print_job_item_id = c.print_job_item_id;
  delivery_reservation_id = c.delivery_reservation_id;
  payload_sha256 = c.payload_sha256;
  layout_sha256 = c.layout_sha256;
  printer_profile_id = c.printer_profile_id;
  printer_profile_fingerprint = c.printer_profile_fingerprint;
}

abbrev pub same_identity : Identity → Identity → Bool
same_identity a b =
    a.print_job_item_id == b.print_job_item_id
    && a.delivery_reservation_id == b.delivery_reservation_id
    && a.payload_sha256 == b.payload_sha256
    && a.layout_sha256 == b.layout_sha256
    && a.printer_profile_id == b.printer_profile_id
    && a.printer_profile_fingerprint == b.printer_profile_fingerprint

unfoldable pub find_replay : String → List ReplayRow → Option ReplayRow
find_replay k [] = none
find_replay k (r ∷ l) = if r.execution_id == k then some r else find_replay k l

-- `get`
unfoldable pub get_replay : String → PrintAction (Option ReplayRow)
get_replay k = gets (λ w. find_replay k w.rows)

-- COALESCE
abbrev pub coalesce {ℓ} : {A : Type ℓ} → Option A → Option A → Option A
coalesce none o = o
coalesce (some a) o = some a

-- INSERT … ON CONFLICT(execution_id) DO UPDATE: the identity and the first reading stay.
unfoldable pub upsert : ReplayRow → List ReplayRow → List ReplayRow
upsert n [] = n ∷ []
upsert n (r ∷ l) =
    if r.execution_id == n.execution_id
    then record n {
      execution_id = r.execution_id;
      identity = r.identity;
      first_seen_at = r.first_seen_at;
      windows_spool_job_id = coalesce n.windows_spool_job_id r.windows_spool_job_id;
      windows_status = coalesce n.windows_status r.windows_status;
    }
      ∷ l
    else r ∷ upsert n l

-- The tests of `record` on the row that is there.
unfoldable pub record_guards : Identity → ReplayState → Option ReplayRow → PrintAction (Unit {0})
record_guards i s none = pure tt
record_guards i s (some r) =
    require (same_identity r.identity i) (replay_blocked "physical replay identity conflict")
    >> require (not (is_irreversible r.state && is_rendered s))
        (replay_blocked "physical execution already crossed spool boundary")
    >> require (not (is_accepted r.state && not (is_accepted s)))
        (replay_blocked "accepted physical execution cannot regress")

abbrev pub first_seen : String → Option ReplayRow → String
first_seen now none = now
first_seen now (some r) = r.first_seen_at

-- What `record` writes beside the execution and its identity.
pub record Evidence : Type 0 where
  pub state : ReplayState
  pub windows_spool_job_id : Option ℕ
  pub windows_status : Option String
  pub safe_error_code : Option String

-- A state alone.
abbrev pub plainly : ReplayState → Evidence
plainly s = record {
  state = s;
  windows_spool_job_id = none;
  windows_status = none;
  safe_error_code = none;
}

module _ ⦃py : Runtime⦄ where
  unfoldable pub read_clock : PrintAction String
  read_clock w = (ok (py.now w.reads), record w { reads = w.reads + 1 })

  abbrev pub replay_row : String → Identity → Evidence → String → Option ReplayRow → ReplayRow
  replay_row k i e now existing = record {
    execution_id = k;
    identity = i;
    state = e.state;
    windows_spool_job_id = e.windows_spool_job_id;
    windows_status = e.windows_status;
    first_seen_at = first_seen now existing;
    updated_at = now;
    safe_error_code = e.safe_error_code;
  }

  abbrev pub write_replay : ReplayRow → PrintAction (Unit {0})
  write_replay n = modify λ w. record w { rows = upsert n w.rows }

  -- `record`, for one of the states that it allows.
  unfoldable pub record_replay : String → Identity → Evidence → PrintAction (Unit {0})
  record_replay k i e = do
    now ← read_clock
    existing ← get_replay k
    a ← record_guards i e.state existing
    write_replay (replay_row k i e now existing)

  abbrev pub crossing_guard : Option ReplayRow → PrintAction (Unit {0})
  crossing_guard none =
      require false (replay_blocked "render verification must be durably recorded first")
  crossing_guard (some r) = require (is_rendered r.state) (
      if is_irreversible r.state
      then replay_blocked "physical execution already crossed spool boundary"
      else replay_blocked "render verification must be durably recorded first")

  -- `cross_spool_boundary`
  unfoldable pub cross_spool_boundary : PhysicalExecutionControl → PrintAction (Unit {0})
  cross_spool_boundary c = do
    existing ← get_replay c.execution_id
    a ← crossing_guard existing
    record_replay c.execution_id (identity_of c) (plainly spool_submitting)
