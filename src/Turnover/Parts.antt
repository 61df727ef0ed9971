-- ===== src/Turnover/Parts.antt =====
-- The parts that the documents of wbcz/turnover.py share. A dict of the source is the list of its
-- fields in the order of insertion.
use fbs_chz.Effect.Checks.{check, ◌>>=◌}
use fbs_chz.Prelude.{
  String, Bool, true, false, Option, none, some, List, [], ◌∷◌, ◌==◌, ◌<+>◌, not, elem, blank,
  nat_eq, length, if◌then◌else◌,
}
use fbs_chz.Runtime.{
  Runtime, Json, JsonItems, JsonFields, str, arr, obj, end_items, item, end_fields, field,
}
use fbs_chz.Effect.{ok, err}
use fbs_chz.Turnover.Fields.{
  contract_error, Checked, Library, Day, nonempty, day_field, fias_field, kpp_field, cis_field,
  tnved_field,
}

abbrev pub Wire : Type 0
Wire = List (String × Json)

abbrev pub fields_of : Wire → JsonFields
fields_of [] = end_fields
fields_of ((k, v) ∷ l) = field k v (fields_of l)

abbrev pub dict : Wire → Json
dict w = obj (fields_of w)

abbrev pub items_of : List Wire → JsonItems
items_of [] = end_items
items_of (w ∷ l) = item (dict w) (items_of l)

-- `[item.to_wire() for item in items]`
unfoldable pub wires : {A : Type 0} → (A → Checked Wire) → List A → Checked (List Wire)
wires f [] = ok []
wires f (x ∷ l) = do w ← f x; rest ← wires f l; ok (w ∷ rest)

-- A field that is there where its value is.
unfoldable pub optional : {A : Type 0} → Option A → (A → Checked Wire) → Checked Wire
optional none f = ok []
optional (some a) f = f a

abbrev pub text_field : String → Checked String → Checked Wire
text_field key value = value >>= λ s. ok ((key, str s) ∷ [])

abbrev pub is_none {ℓ} : {A : Type ℓ} → Option A → Bool
is_none none = true
is_none (some a) = false

-- `value or ""` for a name that must be given.
abbrev pub some_given {ℓ} : {A : Type ℓ} → List A → String → Checked (Unit {0})
some_given l m = check (not (nat_eq (length l) 0)) (contract_error m)

pub record PermitDocument : Type 0 where
  pub certificate_type : String
  pub certificate_number : String
  pub certificate_date : Day

pub record PrimaryDocument : Type 0 where
  pub document_type : String
  pub number : String
  pub document_date : Day
  pub custom_name : Option String

pub record ModLocation : Type 0 where
  pub fias_id : String
  pub legal_entity : Bool
  pub kpp : Option String

-- `IntroduceProduct`, `ImportProduct`, `CrossborderProduct` and `ContractProduct`, which differ in the
-- key of the code.
pub record CodedProduct : Type 0 where
  pub code : String
  pub tnved_code : String
  pub permit_documents : List PermitDocument

abbrev pub return_primary_types : List String
return_primary_types = "RECEIPT" ∷ "SALES_RECEIPT" ∷ "OTHER" ∷ []

module _ ⦃py : Runtime⦄ ⦃lib : Library⦄ where
  unfoldable pub permit_wire : PermitDocument → Checked Wire
  permit_wire p = do
    kind ← nonempty p.certificate_type "certificate_type" 64
    number ← nonempty p.certificate_number "certificate_number" 255
    day ← day_field p.certificate_date "certificate_date"
    ok (
        ("certificate_type", str kind)
        ∷ ("certificate_number", str number)
        ∷ ("certificate_date", str day)
        ∷ [])

  -- The field of the permits, where there are some.
  unfoldable pub permits_wire : List PermitDocument → Checked Wire
  permits_wire [] = ok []
  permits_wire (p ∷ l) = do
    w ← wires permit_wire (p ∷ l)
    ok (("certificate_document_data", arr (items_of w)) ∷ [])

  -- A name that is not given is no string.
  abbrev pub required_name : Option String → Checked String
  required_name none = err (contract_error "primary_document_custom_name must be a string")
  required_name (some s) = nonempty s "primary_document_custom_name" 255

  abbrev pub custom_name_wire : String → Option String → Checked Wire
  custom_name_wire kind name =
      if kind == "OTHER"
      then text_field "primary_document_custom_name" (required_name name)
      else check (blank name)
          (contract_error "primary_document_custom_name must be absent unless type=OTHER")
        >>= λ a. ok []

  -- `PrimaryDocument._common`
  unfoldable pub primary_wire :
      String → String → String → List String → PrimaryDocument → Checked Wire
  primary_wire kind_label number_label date_label allowed p = do
    kind_text ← nonempty p.document_type kind_label 32
    let kind = lib.upper kind_text
    a ← check (elem kind allowed) (contract_error ("unsupported " <+> kind_label))
    number ← nonempty p.number number_label 255
    day ← day_field p.document_date date_label
    name ← custom_name_wire kind p.custom_name
    ok ((kind_label, str kind) ∷ (number_label, str number) ∷ (date_label, str day) ∷ name)

  unfoldable pub return_wire : List String → PrimaryDocument → Checked Wire
  return_wire allowed p =
      primary_wire "primary_document_type" "primary_document_number" "primary_document_date" allowed
        p

  unfoldable pub withdrawal_wire : PrimaryDocument → Checked Wire
  withdrawal_wire p =
      primary_wire "document_type" "document_number" "document_date"
        ("RECEIPT" ∷ "SALES_RECEIPT" ∷ "OTHER" ∷ "CONSIGNMENT_NOTE" ∷ "UTD" ∷ []) p

  unfoldable pub remark_wire : String → PrimaryDocument → Checked Wire
  remark_wire cause p = do
    a ←
        check (elem cause ("RETAIL_RETURN" ∷ "REMOTE_SALE_RETURN" ∷ []))
          (contract_error "primary document is unsupported for this M5 remarking cause")
    return_wire return_primary_types p

  abbrev pub kpp_wire : Bool → Option String → Checked Wire
  kpp_wire true none = err (contract_error "legal entity MOD requires kpp")
  kpp_wire true (some kpp) = text_field "kpp" (kpp_field kpp "kpp")
  kpp_wire false none = ok []
  kpp_wire false (some kpp) =
      err (contract_error "individual entrepreneur MOD must not contain kpp")

  -- `ModLocation.to_withdrawal_wire`
  unfoldable pub mod_wire : ModLocation → Checked Wire
  mod_wire m = do
    fias ← fias_field m.fias_id "fias_id"
    kpp ← kpp_wire m.legal_entity m.kpp
    ok (("fias_id", str fias) ∷ kpp)

  -- `to_wire` of the four products.
  unfoldable pub coded_wire : String → CodedProduct → Checked Wire
  coded_wire key p = do
    code ← cis_field p.code key
    tnved ← tnved_field p.tnved_code "tnved_code"
    permits ← permits_wire p.permit_documents
    ok ((key, str code) ∷ ("tnved_code", str tnved) ∷ permits)
