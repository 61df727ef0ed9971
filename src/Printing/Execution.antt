-- ===== src/Printing/Execution.antt =====
-- `PhysicalPrintRuntime` of wbcz/physical_printing.py: one label, from the checks to the spooler.
use fbs_chz.Prelude.{ℕ, String, Bool, false, Option, none, some, List, [], ◌∷◌, not}
use fbs_chz.Runtime.{Bytes, Runtime}
use fbs_chz.Effect.{pure, raise, lift, require, recover, ◌>>=◌, ◌>>◌}
use fbs_chz.Printing.Contracts.{
  PrintError, physical_error, security_error, replay_blocked, definite_pre_spool,
  ambiguous_after_spool, printing_contract_error, printing_security_error, other,
  PhysicalExecutionControl, PhysicalRenderContract, validate_control, renderer,
}
use fbs_chz.Printing.Display.{derive_gs1_display_values, merged}
use fbs_chz.Printing.Raster.{PhysicalLabelRaster}
use fbs_chz.Printing.Replay.{
  ReplayState, rendered_verified, spool_job_created, spooler_accepted, failed_pre_spool, blocked,
  unknown_after_spool, ReplayRow, Evidence, plainly, mark_rendered, begin_spool, report_result,
  PrintWorld, PrintAction, is_irreversible, identity_of, get_replay, record_replay,
  cross_spool_boundary,
}
use fbs_chz.Printing.Spooler.{GdiSpoolOutcome, submit_raster}
use fbs_chz.Printing.Agent.{
  Agent, Report, resolve, tell, contract_guards, same_dpi, raster_guards, placed, count_submission,
}

-- The state and the code that an exception comes to; `none` where it is raised again at once.
unfoldable pub classify_failure : PrintError → Option (ReplayState × String)
classify_failure (replay_blocked m) = none
classify_failure (other m) = none
classify_failure (definite_pre_spool code) = some (failed_pre_spool, code)
classify_failure (security_error m) = some (blocked, "PHYSICAL_SECURITY_VALIDATION_FAILED")
classify_failure (printing_security_error m) = some (blocked, "PHYSICAL_SECURITY_VALIDATION_FAILED")
classify_failure (printing_contract_error m) = some (blocked, "PHYSICAL_RENDER_VALIDATION_FAILED")
classify_failure _ = some (blocked, "PHYSICAL_PRE_SPOOL_VALIDATION_FAILED")

-- An execution that has crossed the boundary keeps its row, and the exception goes on.
abbrev pub has_crossed : Option ReplayRow → Bool
has_crossed none = false
has_crossed (some row) = is_irreversible row.state

module _ ⦃py : Runtime⦄ (agent : Agent) where
  -- A row of the store, and then its report to the backend.
  abbrev pub record_and_report : PhysicalExecutionControl → Evidence → PrintAction (Unit {0})
  record_and_report c e =
      record_replay c.execution_id (identity_of c) e
      >> tell agent (
          report_result c.execution_id e.state e.windows_spool_job_id e.windows_status
            e.safe_error_code)

  -- `on_job_created`
  unfoldable pub on_job_created : PhysicalExecutionControl → ℕ → PrintAction (Unit {0})
  on_job_created c job = record_and_report c (record {
    state = spool_job_created;
    windows_spool_job_id = some job;
    windows_status = some "QUEUED";
    safe_error_code = none;
  })

  -- The second resolution and the spooler: the body of the `try`.
  unfoldable pub spool :
      PhysicalExecutionControl
      → PhysicalRenderContract
      → PhysicalLabelRaster
      → PrintAction GdiSpoolOutcome
  spool c r raster = do
    resolved ← resolve agent c.agent_printer_id c.printer_profile_fingerprint
    a ← require (same_dpi c r resolved) (definite_pre_spool "PRINTER_PROFILE_DPI_CHANGED")
    n ← count_submission
    submit_raster (agent.device n) raster (on_job_created c) c.execution_id
        resolved.descriptor.queue_name

  -- A job whose number is known is written down before the doubt about it.
  abbrev pub note_job : PhysicalExecutionControl → Option ℕ → PrintAction (Unit {0})
  note_job c none = pure tt
  note_job c (some job) = record_replay c.execution_id (identity_of c) (record {
    state = spool_job_created;
    windows_spool_job_id = some job;
    windows_status = some "UNKNOWN";
    safe_error_code = none;
  })

  -- The two `except` clauses: the label was surely not spooled, or it is not known.
  unfoldable pub spool_failed : PhysicalExecutionControl → PrintError → PrintAction Report
  spool_failed c (definite_pre_spool code) = do
    a ← record_and_report c (record (plainly failed_pre_spool) { safe_error_code = some code })
    pure (record {
      state = failed_pre_spool;
      windows_spool_job_id = none;
      safe_error_code = some code;
    })
  spool_failed c (ambiguous_after_spool code job) = do
    a ← note_job c job
    b ← record_and_report c (record {
      state = unknown_after_spool;
      windows_spool_job_id = job;
      windows_status = some "UNKNOWN";
      safe_error_code = some code;
    })
    pure (record {
      state = unknown_after_spool;
      windows_spool_job_id = job;
      safe_error_code = some code;
    })
  spool_failed c e = raise e

  abbrev pub job_evidence : ReplayState → GdiSpoolOutcome → Evidence
  job_evidence s o = record {
    state = s;
    windows_spool_job_id = some o.windows_spool_job_id;
    windows_status = some o.windows_status;
    safe_error_code = none;
  }

  -- What follows the spooler's answer.
  unfoldable pub spooled : PhysicalExecutionControl → GdiSpoolOutcome → PrintAction Report
  spooled c o = do
    a ← record_replay c.execution_id (identity_of c) (job_evidence spool_job_created o)
    b ← record_and_report c (job_evidence spooler_accepted o)
    pure (record {
      state = spooler_accepted;
      windows_spool_job_id = some o.windows_spool_job_id;
      safe_error_code = none;
    })

  -- The label, rendered, read back and compared with the contract.
  unfoldable pub verified_raster :
      PhysicalExecutionControl
      → PhysicalRenderContract
      → Bytes
      → PrintAction (PhysicalLabelRaster × String)
  verified_raster c r full_km = do
    a ← contract_guards c r full_km
    resolved ← resolve agent c.agent_printer_id c.printer_profile_fingerprint
    b ← require (same_dpi c r resolved) (physical_error "PRINTER_PROFILE_DPI_CHANGED")
    rendered ←
        lift (agent.render full_km r (merged (derive_gs1_display_values full_km) r.field_values))
    d ← raster_guards c r rendered.0
    pure (placed c r rendered.0, rendered.1)

  -- The boundary: recorded here, then acknowledged by the backend, then crossed.
  unfoldable pub cross_and_spool :
      PhysicalExecutionControl → PhysicalRenderContract → PhysicalLabelRaster → PrintAction Report
  cross_and_spool c r raster = do
    a ← cross_spool_boundary c
    b ← tell agent (begin_spool c.execution_id (identity_of c))
    recover (spool c r raster) (spooled c) (spool_failed c)

  -- `_execute_inner`
  unfoldable pub execute_inner :
      PhysicalExecutionControl → PhysicalRenderContract → Bytes → PrintAction Report
  execute_inner c r full_km = do
    label ← verified_raster c r full_km
    a ← record_replay c.execution_id (identity_of c) (plainly rendered_verified)
    b ← tell agent (mark_rendered c.execution_id (identity_of c) renderer label.1)
    cross_and_spool c r label.0

  unfoldable pub fail_with :
      PhysicalExecutionControl → PrintError → Option (ReplayState × String) → PrintAction Report
  fail_with c e none = raise e
  fail_with c e (some (s, code)) = do
    existing ← get_replay c.execution_id
    a ← require (not (has_crossed existing)) e
    b ← record_and_report c (record (plainly s) { safe_error_code = some code })
    pure (record { state = s; windows_spool_job_id = none; safe_error_code = some code })

  -- `execute`
  unfoldable pub execute :
      PhysicalExecutionControl → PhysicalRenderContract → Bytes → PrintAction Report
  execute c r full_km = do
    a ← lift (validate_control c)
    recover (execute_inner c r full_km) pure (λ e. fail_with c e (classify_failure e))

  -- Any sequence of executions, each whether the ones before it returned or raised.
  unfoldable pub execute_all :
      PrintWorld → List (PhysicalExecutionControl × PhysicalRenderContract × Bytes) → PrintWorld
  execute_all w [] = w
  execute_all w ((c, r, full_km) ∷ l) = execute_all (execute c r full_km w).1 l
