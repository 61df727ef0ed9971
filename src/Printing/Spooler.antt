-- ===== src/Printing/Spooler.antt =====
-- `WindowsGdiRasterSpooler.submit` of wbcz/physical_printing.py. The functions of Windows are an
-- argument: what they answer during one submission, or the exception that they raise.
use fbs_chz.Prelude.{
  ℕ, zero, suc, String, Bool, true, Option, none, some, [], ◌∷◌, ◌++◌, ◌||◌, ◌==◌, not, nat_eq,
  if◌then◌else◌,
}
use fbs_chz.Runtime.{Bytes}
use fbs_chz.Effect.{Result, ok, err, pure, raise, lift, modify, require, recover, ◌>>=◌, ◌>>◌}
use fbs_chz.Printing.Contracts.{PrintError, definite_pre_spool, ambiguous_after_spool}
use fbs_chz.Printing.Raster.{PhysicalLabelRaster, bgr_bottom_up}
use fbs_chz.Printing.Replay.{PrintAction}

pub record ValidatedPrinterDevMode : Type 0 where
  pub copies : ℕ
  pub scale_percent : Option ℕ

pub record PrinterDcGeometry : Type 0 where
  pub dpi_x : ℕ
  pub dpi_y : ℕ
  pub physical_width_px : ℕ
  pub physical_height_px : ℕ
  pub printable_width_px : ℕ
  pub printable_height_px : ℕ
  pub offset_x_px : ℕ
  pub offset_y_px : ℕ

-- The driver and GDI. `start_doc` is the number of the job, 0 for every result that is not positive;
-- the tests `> 0` of the other calls are Booleans.
pub record Gdi : Type 0 where
  pub load_validated_devmode : String → Result PrintError ValidatedPrinterDevMode
  pub create_dc : Bool
  pub read_dc_geometry : Result PrintError PrinterDcGeometry
  pub start_doc : Result PrintError ℕ
  pub start_page : Result PrintError Bool
  pub set_di_bits : Bytes × ℕ → Result PrintError ℕ
  pub end_page : Result PrintError Bool
  pub end_doc : Result PrintError Bool

pub record GdiSpoolOutcome : Type 0 where
  pub windows_spool_job_id : ℕ
  pub windows_status : String

-- `_validate_final_dc_geometry`
unfoldable pub validate_final_dc_geometry :
    PrinterDcGeometry → PhysicalLabelRaster → Result PrintError (Unit {0})
validate_final_dc_geometry actual raster =
    if not (nat_eq actual.dpi_x raster.dpi) || not (nat_eq actual.dpi_y raster.dpi)
    then err (definite_pre_spool "PRINTER_PROFILE_DPI_CHANGED")
    else if not (nat_eq actual.physical_width_px raster.image.width)
        || not (nat_eq actual.physical_height_px raster.image.height)
    then err (definite_pre_spool "PRINTER_PHYSICAL_GEOMETRY_CHANGED")
    else if not (nat_eq actual.printable_width_px raster.printable_width_px)
        || not (nat_eq actual.printable_height_px raster.printable_height_px)
    then err (definite_pre_spool "PRINTER_PRINTABLE_AREA_CHANGED")
    else if not (nat_eq actual.offset_x_px raster.physical_offset_x_px)
        || not (nat_eq actual.offset_y_px raster.physical_offset_y_px)
    then err (definite_pre_spool "PRINTER_PHYSICAL_OFFSET_CHANGED")
    else ok tt

-- `devmode.scale_percent in {None, 100}`
abbrev pub is_unscaled : Option ℕ → Bool
is_unscaled none = true
is_unscaled (some n) = nat_eq n 100

abbrev pub log_document : String → PrintAction (Unit {0})
log_document k = modify λ w. record w { documents = w.documents ++ k ∷ [] }

abbrev pub ambiguous : String → ℕ → PrintError
ambiguous code job = ambiguous_after_spool code (some job)

-- The last clauses of the `try`: the two exceptions of printing pass, any other becomes one of them,
-- by whether a job was there.
unfoldable pub wrapped : ℕ → PrintError → PrintError
wrapped job (definite_pre_spool code) = definite_pre_spool code
wrapped job (ambiguous_after_spool code j) = ambiguous_after_spool code j
wrapped zero e = definite_pre_spool "GDI_EXCEPTION_BEFORE_JOB"
wrapped (suc n) e = ambiguous "GDI_EXCEPTION_AFTER_START_DOC" (suc n)

module _ (g : Gdi) (raster : PhysicalLabelRaster)
    (on_job_created : ℕ → PrintAction (Unit {0})) where
  -- From the created job to its end.
  unfoldable pub print_page : ℕ → PrintAction GdiSpoolOutcome
  print_page job = do
    a ← on_job_created job
    page ← lift g.start_page
    b ← require page (ambiguous "GDI_START_PAGE_FAILED" job)
    raw ← lift (bgr_bottom_up raster)
    lines ← lift (g.set_di_bits raw)
    c ← require (nat_eq lines raster.image.height) (ambiguous "GDI_RASTER_OUTPUT_FAILED" job)
    ended ← lift g.end_page
    d ← require ended (ambiguous "GDI_END_PAGE_FAILED" job)
    closed ← lift g.end_doc
    e ← require closed (ambiguous "GDI_END_DOC_FAILED" job)
    pure (record { windows_spool_job_id = job; windows_status = "QUEUED" })

  -- What follows StartDocW.
  unfoldable pub after_start : ℕ → PrintAction GdiSpoolOutcome
  after_start job =
      recover
        (require (not (nat_eq job 0)) (definite_pre_spool "GDI_START_DOC_FAILED") >> print_page job)
        pure (λ e. raise (wrapped job e))

  -- StartDocW. An exception in it, or before it, leaves no job.
  unfoldable pub start_document : String → PrintAction ℕ
  start_document k = do
    geometry ← lift g.read_dc_geometry
    a ← lift (validate_final_dc_geometry geometry raster)
    b ← log_document k
    lift g.start_doc

  unfoldable pub submit_raster : String → String → PrintAction GdiSpoolOutcome
  submit_raster k queue_name = do
    a ← require (not (queue_name == "")) (definite_pre_spool "LOCAL_PRINTER_QUEUE_UNAVAILABLE")
    devmode ← lift (g.load_validated_devmode queue_name)
    b ← require (nat_eq devmode.copies 1) (definite_pre_spool "PRINTER_DEVMODE_COPIES_UNSAFE")
    c ←
        require (is_unscaled devmode.scale_percent)
          (definite_pre_spool "PRINTER_DEVMODE_SCALING_UNSAFE")
    d ← require g.create_dc (definite_pre_spool "GDI_CREATE_DC_FAILED")
    recover (start_document k) after_start (λ e. raise (wrapped 0 e))
