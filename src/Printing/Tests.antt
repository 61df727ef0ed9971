-- ===== src/Printing/Tests.antt =====
-- A label that is printed, one that is not, and the theorems at these executions.
use fbs_chz.Prelude.{
  ◌≤◌, ◌<◌, ◌+◌, ◌*◌, ◌%◌, String, true, none, some, List, [], ◌∷◌, ◌≡◌, refl, length,
}
use fbs_chz.Runtime.{Runtime, null, Bytes}
use fbs_chz.Models.{finite}
use fbs_chz.Effect.{ok, ◌>>=◌, pure, raise, lift, gets, modify, require, recover}
use fbs_chz.Samples.{plain}
use fbs_chz.Printing.Contracts.{
  PhysicalExecutionControl, PhysicalRenderContract, validate_control, printing_contract,
  layout_schema, renderer, protocol_version,
}
use fbs_chz.Printing.Replay.{
  spooler_accepted, PrintWorld, Identity, identity_of, find_replay, upsert, record_guards,
  record_replay, read_clock, get_replay, cross_spool_boundary, is_irreversible,
}
use fbs_chz.Printing.Raster.{
  PhysicalLabelRaster, bgr_bottom_up, scanlines, scanline, stride_of, zeros, swapped, skip, first,
}
use fbs_chz.Printing.Spooler.{
  Gdi, PrinterDcGeometry, validate_final_dc_geometry, wrapped, print_page, after_start,
  start_document, submit_raster,
}
use fbs_chz.Printing.Display.{
  derive_gs1_display_values, merged, assigned, starts_with, find_bytes, serial_length, decode_ascii,
}
use fbs_chz.Printing.Agent.{Agent, Report, resolve, tell, contract_guards, raster_guards}
use fbs_chz.Printing.Execution.{
  on_job_created, spool, spool_failed, spooled, verified_raster, cross_and_spool, execute_inner,
  classify_failure, fail_with, execute, execute_all,
}
use fbs_chz.Printing.Ranks.{replay_rank, binding_at, state_at}
use fbs_chz.Printing.Calm.{begins_of, count_of}
use fbs_chz.Printing.Once.{allowance, print_at_most_once}
use fbs_chz.Printing.Reports.{report_agrees, replay_never_regresses, binding_kept}
use fbs_chz.Printing.Raster.Sizes.{bgr_bottom_up-size, bgr_bottom_up-row}

abbrev digest : String
digest = "0123456789abcdef0123456789abcdef0123456789abcdef0123456789abcdef"

-- The stand-in for the hash gives every label this one.
abbrev control : PhysicalExecutionControl
control = record {
  contract_version = protocol_version;
  operation = "PRINT_RENDER_AND_SPOOL";
  execution_id = "exec-1";
  print_job_item_id = "item-1";
  delivery_reservation_id = "res-1";
  payload_sha256 = digest;
  layout_sha256 = digest;
  template_version_id = "tpl-1";
  printer_profile_id = "profile-1";
  printer_profile_fingerprint = digest;
  agent_printer_id = "prn_1";
  organisation_id = "org-1";
  participant_id = "part-1";
  agent_binding_id = "bind-1";
  printing_contract_version = printing_contract;
  layout_schema_version = layout_schema;
  renderer_version = renderer;
  copies = 1;
}

abbrev contract : PhysicalRenderContract
contract = record {
  execution_id = "exec-1";
  layout = null;
  label_width_mm = finite true 58 0;
  label_height_mm = finite true 40 0;
  media_width_mm = finite true 58 0;
  media_height_mm = finite true 40 0;
  dpi_x = 203;
  dpi_y = 203;
  physical_width_px = 1;
  physical_height_px = 2;
  printable_width_px = 1;
  printable_height_px = 2;
  offset_x_px = 0;
  offset_y_px = 0;
  printer_profile_state = "ACTIVE";
  printer_profile_fingerprint = digest;
  agent_printer_id = "prn_1";
  field_values = [];
}

-- One pixel over another.
abbrev raster : PhysicalLabelRaster
raster = record {
  image = record { width = 1; height = 2; bpp = 24; pixels = 1 ∷ 2 ∷ 3 ∷ 4 ∷ 5 ∷ 6 ∷ [] };
  layout_sha256 = digest;
  dpi = 203;
  physical_offset_x_px = 0;
  physical_offset_y_px = 0;
  printable_width_px = 1;
  printable_height_px = 2;
}

abbrev lines : Bytes
lines = 6 ∷ 5 ∷ 4 ∷ 0 ∷ 3 ∷ 2 ∷ 1 ∷ 0 ∷ []

bottom_up : bgr_bottom_up raster ≡ ok (lines, 4)
unfolding bgr_bottom_up scanlines scanline stride_of zeros swapped skip first
bottom_up = refl

bgr_bottom_up-size_example : (length lines ≡ 2 * 4) × (4 % 4 ≡ 0) × (1 * 3 ≤ 4) × (4 < 1 * 3 + 4)
bgr_bottom_up-size_example = bgr_bottom_up-size raster lines 4 bottom_up

bgr_bottom_up-row_example :
    swapped (first (1 * 3) (skip (1 * 4) lines))
    ≡ first (1 * 3) (skip (0 * (1 * 3)) (1 ∷ 2 ∷ 3 ∷ 4 ∷ 5 ∷ 6 ∷ []))
bgr_bottom_up-row_example = bgr_bottom_up-row raster lines 4 1 0 bottom_up refl

abbrev geometry : PrinterDcGeometry
geometry = record {
  dpi_x = 203;
  dpi_y = 203;
  physical_width_px = 1;
  physical_height_px = 2;
  printable_width_px = 1;
  printable_height_px = 2;
  offset_x_px = 0;
  offset_y_px = 0;
}

abbrev device : Gdi
device = record {
  load_validated_devmode = λ q. ok (record { copies = 1; scale_percent = none });
  create_dc = true;
  read_dc_geometry = ok geometry;
  start_doc = ok 17;
  start_page = ok true;
  set_di_bits = λ b. ok 2;
  end_page = ok true;
  end_doc = ok true;
}

abbrev agent : Agent
agent = record {
  enumerate_printers = λ n. ok (record { queue_name = "TSC"; server_name = none } ∷ []);
  local_identity_id = λ q s. "prn_1";
  inspect_printer =
      λ n d. ok (record { dpi_x = 203; dpi_y = 203; driver_name = none; port_name = none });
  fingerprint = λ c. ok digest;
  render = λ b c v. ok (raster, "2.2.0");
  answer = λ n m. ok tt;
  device = λ n. device;
}

abbrev fresh : PrintWorld
fresh = record {
  rows = [];
  reads = 0;
  resolutions = 0;
  submissions = 0;
  messages = [];
  documents = [];
}

abbrev label : Bytes
label = 48 ∷ 49 ∷ []

abbrev hashing : Runtime
hashing = record plain { sha256_hex = λ b. digest }

abbrev report : Report
report = record { state = spooler_accepted; windows_spool_job_id = some 17; safe_error_code = none }

accepted : (execute ⦃py = hashing⦄ agent control contract label fresh).0 ≡ ok report
unfolding execute execute_inner cross_and_spool verified_raster spooled spool spool_failed fail_with
    classify_failure on_job_created contract_guards raster_guards resolve tell submit_raster
    start_document after_start print_page wrapped validate_final_dc_geometry bgr_bottom_up scanlines
    scanline stride_of zeros swapped skip first derive_gs1_display_values merged assigned
    starts_with find_bytes serial_length decode_ascii validate_control find_replay upsert
    record_guards record_replay read_clock get_replay cross_spool_boundary is_irreversible
    identity_of ◌>>=◌ pure raise lift gets modify require recover
accepted = refl

-- The same label twice: the second execution finds it behind the boundary.
abbrev twice : List (PhysicalExecutionControl × PhysicalRenderContract × Bytes)
twice = (control, contract, label) ∷ (control, contract, label) ∷ []

print_at_most_once_example :
    (count_of "exec-1" (execute_all ⦃py = hashing⦄ agent fresh twice).documents
      ≤ allowance (replay_rank "exec-1" (execute_all ⦃py = hashing⦄ agent fresh twice)))
    × (count_of "exec-1" (execute_all ⦃py = hashing⦄ agent fresh twice).documents
        ≤ begins_of "exec-1" (execute_all ⦃py = hashing⦄ agent fresh twice).messages)
print_at_most_once_example = print_at_most_once ⦃py = hashing⦄ agent twice fresh refl "exec-1"

report_agrees_example :
    state_at "exec-1" (execute ⦃py = hashing⦄ agent control contract label fresh).1
    ≡ some spooler_accepted
report_agrees_example =
    report_agrees ⦃py = hashing⦄ agent control contract label fresh report accepted

abbrev printed : PrintWorld
printed = record fresh {
  rows =
      record {
        execution_id = "exec-1";
        identity = record {
          print_job_item_id = "item-1";
          delivery_reservation_id = "res-1";
          payload_sha256 = digest;
          layout_sha256 = digest;
          printer_profile_id = "profile-1";
          printer_profile_fingerprint = digest;
        };
        state = spooler_accepted;
        windows_spool_job_id = some 17;
        windows_status = some "QUEUED";
        first_seen_at = "2024-05-01T10:00:00+00:00";
        updated_at = "2024-05-01T10:00:00+00:00";
        safe_error_code = none;
      }
      ∷ [];
}

replay_never_regresses_example :
    replay_rank "exec-1" printed
    ≤ replay_rank "exec-1" (execute_all ⦃py = hashing⦄ agent printed twice)
replay_never_regresses_example = replay_never_regresses ⦃py = hashing⦄ agent twice printed "exec-1"

abbrev bound : Identity × String
bound = (
  record {
    print_job_item_id = "item-1";
    delivery_reservation_id = "res-1";
    payload_sha256 = digest;
    layout_sha256 = digest;
    printer_profile_id = "profile-1";
    printer_profile_fingerprint = digest;
  },
  "2024-05-01T10:00:00+00:00",
)

was_bound : binding_at "exec-1" printed ≡ some bound
unfolding find_replay
was_bound = refl

binding_kept_example :
    binding_at "exec-1" (execute_all ⦃py = hashing⦄ agent printed twice) ≡ some bound
binding_kept_example = binding_kept ⦃py = hashing⦄ agent twice printed "exec-1" bound was_bound
