-- ===== src/Printing/Agent.antt =====
-- What an execution of wbcz/physical_printing.py calls, and its tests: `LocalPrinterResolver`, the
-- callbacks, and the checks of the contract and of the label. The printers, the renderer, the device
-- and the backend are an argument. What they answer may depend on how often they were asked.
use fbs_chz.Prelude.{
  ℕ, String, Bool, Option, List, [], ◌∷◌, ◌++◌, ◌+◌, ◌&&◌, ◌==◌, nat_eq, length, if◌then◌else◌,
}
use fbs_chz.Runtime.{Bytes, Runtime}
use fbs_chz.Effect.{Result, ok, err, pure, lift, require, ◌>>=◌, ◌>>◌}
use fbs_chz.Printing.Contracts.{
  PrintError, physical_error, security_error, definite_pre_spool, printing_contract_error,
  PhysicalExecutionControl, PhysicalRenderContract,
}
use fbs_chz.Printing.Raster.{PhysicalLabelRaster}
use fbs_chz.Printing.Replay.{ReplayState, Message, PrintAction}
use fbs_chz.Printing.Spooler.{Gdi}

pub record LocalPrinterDescriptor : Type 0 where
  pub queue_name : String
  pub server_name : Option String

pub record LocalPrinterCapabilities : Type 0 where
  pub dpi_x : ℕ
  pub dpi_y : ℕ
  pub driver_name : Option String
  pub port_name : Option String

-- The other parts that a run calls. `local_identity_id` and `fingerprint` are those of
-- wbcz/printer_profiles.py, `render` is `render_decode_verify_physical_label` of wbcz/printing.py.
pub record Agent : Type 0 where
  pub enumerate_printers : ℕ → Result PrintError (List LocalPrinterDescriptor)
  pub local_identity_id : String → Option String → String
  pub inspect_printer : ℕ → LocalPrinterDescriptor → Result PrintError LocalPrinterCapabilities
  pub fingerprint : LocalPrinterCapabilities → Result PrintError String
  pub render :
      Bytes
      → PhysicalRenderContract
      → List (String × String)
      → Result PrintError (PhysicalLabelRaster × String)
  pub answer : ℕ → Message → Result PrintError (Unit {0})
  pub device : ℕ → Gdi

pub record LocalResolvedPrinter : Type 0 where
  pub descriptor : LocalPrinterDescriptor
  pub capabilities : LocalPrinterCapabilities
  pub fingerprint : String

pub record Report : Type 0 where
  pub state : ReplayState
  pub windows_spool_job_id : Option ℕ
  pub safe_error_code : Option String

abbrev pub only : {A : Type 0} → List A → PrintError → Result PrintError A
only (a ∷ []) e = ok a
only _ e = err e

abbrev pub with_id : Agent → String → List LocalPrinterDescriptor → List LocalPrinterDescriptor
with_id agent k [] = []
with_id agent k (d ∷ l) =
    if agent.local_identity_id d.queue_name d.server_name == k
    then d ∷ with_id agent k l
    else with_id agent k l

-- The number of this resolution, or of this call of the spooler.
abbrev pub count_resolution : PrintAction ℕ
count_resolution w = (ok w.resolutions, record w { resolutions = w.resolutions + 1 })

abbrev pub count_submission : PrintAction ℕ
count_submission w = (ok w.submissions, record w { submissions = w.submissions + 1 })

-- `LocalPrinterResolver.resolve`
unfoldable pub resolve : Agent → String → String → PrintAction LocalResolvedPrinter
resolve agent agent_printer_id expected_fingerprint = do
  n ← count_resolution
  printers ← lift (agent.enumerate_printers n)
  descriptor ← lift (
      only (with_id agent agent_printer_id printers)
        (definite_pre_spool "PRINTER_LOCAL_ID_NOT_RESOLVED"))
  capabilities ← lift (agent.inspect_printer n descriptor)
  fingerprint ← lift (agent.fingerprint capabilities)
  a ←
      require (fingerprint == expected_fingerprint)
        (definite_pre_spool "PRINTER_PROFILE_FINGERPRINT_CHANGED")
  pure (record { descriptor = descriptor; capabilities = capabilities; fingerprint = fingerprint })

-- A callback to the backend.
unfoldable pub tell : Agent → Message → PrintAction (Unit {0})
tell agent m w = (agent.answer (length w.messages) m, record w { messages = w.messages ++ m ∷ [] })

module _ (c : PhysicalExecutionControl) (r : PhysicalRenderContract) where
  -- The tests before anything is asked of the printer.
  unfoldable pub contract_guards : ⦃py : Runtime⦄ → Bytes → PrintAction (Unit {0})
  contract_guards ⦃py⦄ full_km = do
    a ←
        require (r.execution_id == c.execution_id)
          (security_error "render contract execution mismatch")
    a ←
        require (py.sha256_hex full_km == c.payload_sha256)
          (security_error "physical payload SHA-256 mismatch")
    a ←
        require (r.printer_profile_state == "ACTIVE")
          (physical_error "printer profile is not ACTIVE")
    a ←
        require (r.printer_profile_fingerprint == c.printer_profile_fingerprint)
          (security_error "printer profile fingerprint mismatch")
    a ←
        require (r.agent_printer_id == c.agent_printer_id)
          (security_error "agent printer ID mismatch")
    require (nat_eq r.dpi_x r.dpi_y) (physical_error "PRINTER_DPI_UNSUPPORTED")

  abbrev pub same_dpi : LocalResolvedPrinter → Bool
  same_dpi p = nat_eq p.capabilities.dpi_x r.dpi_x && nat_eq p.capabilities.dpi_y r.dpi_y

  -- The tests of the rendered label.
  unfoldable pub raster_guards : PhysicalLabelRaster → PrintAction (Unit {0})
  raster_guards raster =
      require (raster.layout_sha256 == c.layout_sha256)
        (security_error "physical layout SHA-256 mismatch")
      >> require
          (nat_eq raster.image.width r.physical_width_px
            && nat_eq raster.image.height r.physical_height_px)
          (printing_contract_error
            "final raster does not exactly match approved physical media pixels")

  abbrev pub placed : PhysicalLabelRaster → PhysicalLabelRaster
  placed raster = record raster {
    physical_offset_x_px = r.offset_x_px;
    physical_offset_y_px = r.offset_y_px;
    printable_width_px = r.printable_width_px;
    printable_height_px = r.printable_height_px;
  }
