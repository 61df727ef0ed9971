-- ===== src/Printing/Contracts.antt =====
-- The exceptions and contracts of wbcz/physical_printing.py. A contract arrives as a record of typed
-- fields: the reading of the mapping (`from_mapping`) is left out, its `validate` is here. A float is
-- a `Decimal`.
use fbs_chz.Prelude.{
  ℕ, String, Bool, Option, List, [], ◌∷◌, ◌&&◌, ◌||◌, not, leb, nat_eq, all, codes, len, ◌==◌,
  if◌then◌else◌,
}
use fbs_chz.Runtime.{Json}
use fbs_chz.Models.{Decimal}
use fbs_chz.Effect.{Result, ok, err}

-- The exceptions that matter to the flow. `other` is any exception outside these families, with the
-- name of its type.
pub data PrintError : Type 0 where
  physical_error security_error replay_blocked definite_pre_spool : String → PrintError
  ambiguous_after_spool : String → Option ℕ → PrintError
  printing_contract_error printing_security_error profile_contract_error : String → PrintError
  other : String → PrintError

pub record PhysicalExecutionControl : Type 0 where
  pub contract_version : String
  pub operation : String
  pub execution_id : String
  pub print_job_item_id : String
  pub delivery_reservation_id : String
  pub payload_sha256 : String
  pub layout_sha256 : String
  pub template_version_id : String
  pub printer_profile_id : String
  pub printer_profile_fingerprint : String
  pub agent_printer_id : String
  pub organisation_id : String
  pub participant_id : String
  pub agent_binding_id : String
  pub printing_contract_version : String
  pub layout_schema_version : String
  pub renderer_version : String
  pub copies : ℕ

pub record PhysicalRenderContract : Type 0 where
  pub execution_id : String
  pub layout : Json
  pub label_width_mm : Decimal
  pub label_height_mm : Decimal
  pub media_width_mm : Decimal
  pub media_height_mm : Decimal
  pub dpi_x : ℕ
  pub dpi_y : ℕ
  pub physical_width_px : ℕ
  pub physical_height_px : ℕ
  pub printable_width_px : ℕ
  pub printable_height_px : ℕ
  pub offset_x_px : ℕ
  pub offset_y_px : ℕ
  pub printer_profile_state : String
  pub printer_profile_fingerprint : String
  pub agent_printer_id : String
  pub field_values : List (String × String)

abbrev pub between : ℕ → ℕ → ℕ → Bool
between lo hi c = leb lo c && leb c hi

-- `_ID`: 1 to 160 letters, digits and `.`, `_`, `:`, `-`.
abbrev is_id_char : ℕ → Bool
is_id_char c =
    between 65 90 c
    || between 97 122 c
    || between 48 57 c
    || nat_eq c 46
    || nat_eq c 95
    || nat_eq c 58
    || nat_eq c 45

abbrev pub is_identifier : String → Bool
is_identifier s = between 1 160 (len s) && all is_id_char (codes s)

-- `_SHA`: 64 digits of base 16, in lower case.
abbrev is_hex_char : ℕ → Bool
is_hex_char c = between 48 57 c || between 97 102 c

abbrev pub is_sha : String → Bool
is_sha s = nat_eq (len s) 64 && all is_hex_char (codes s)

-- The constants of wbcz/printing.py and of wbcz/physical_printing.py.
abbrev pub protocol_version : String
protocol_version = "printing-agent-v2"

abbrev pub printing_contract : String
printing_contract = "sellari-printing-contract-v1"

abbrev pub layout_schema : String
layout_schema = "printing-layout-v1"

abbrev pub renderer : String
renderer = "sellari-libdmtx-raster-v1"

-- `PhysicalExecutionControl.validate`
unfoldable pub validate_control : PhysicalExecutionControl → Result PrintError (Unit {0})
validate_control c =
    if not (c.contract_version == protocol_version) || not (c.operation == "PRINT_RENDER_AND_SPOOL")
    then err (physical_error "unsupported physical print operation")
    else if not (
        all is_identifier (
          c.execution_id ∷ c.print_job_item_id ∷ c.delivery_reservation_id ∷ c.template_version_id
          ∷ c.printer_profile_id ∷ c.agent_printer_id ∷ c.organisation_id ∷ c.participant_id
          ∷ c.agent_binding_id ∷ []))
    then err (physical_error "invalid physical print identifier")
    else if not (is_sha c.payload_sha256) || not (is_sha c.layout_sha256)
    then err (physical_error "invalid physical print hash")
    else if not (is_sha c.printer_profile_fingerprint)
    then err (physical_error "invalid printer profile fingerprint")
    else if not (c.printing_contract_version == printing_contract)
    then err (physical_error "incompatible printing contract version")
    else if not (c.layout_schema_version == layout_schema)
    then err (physical_error "incompatible layout schema version")
    else if not (c.renderer_version == renderer)
    then err (physical_error "incompatible renderer version")
    else if not (nat_eq c.copies 1)
    then err (security_error "physical printing copies must equal 1")
    else ok tt
