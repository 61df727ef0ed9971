-- ===== src/Turnover/Introductions.antt =====
-- The documents of wbcz/turnover.py that bring codes into circulation.
use fbs_chz.Effect.Checks.{check, ◌>>=◌}
use fbs_chz.Prelude.{
  String, Bool, true, false, Option, none, some, List, [], ◌∷◌, ◌++◌, ◌&&◌, ◌||◌, ◌==◌, not, elem,
  nat_eq, all, codes, len, map, ◌⊎◌,
}
use fbs_chz.Runtime.{Runtime, num, str, arr, JsonItems, end_items, item}
use fbs_chz.Models.{Datetime}
use fbs_chz.Effect.{ok, err}
use fbs_chz.Turnover.Fields.{
  contract_error, Checked, Library, Day, distinct, nonempty, inn_field, cis_field, country_field,
  day_field, declaration_field, utc_millis,
}
use fbs_chz.Turnover.Parts.{
  Wire, dict, items_of, wires, optional, text_field, some_given, PermitDocument, CodedProduct,
  permits_wire, coded_wire,
}

pub record LpIntroduceGoodsDocument : Type 0 where
  pub participant_inn : String
  pub producer_inn : String
  pub owner_inn : String
  pub products : List CodedProduct
  pub production_date : Option Day
  pub production_type : String

mutual
  pub data IndividualProduct : Type 0 where
    individual :
        (uit uitu : Option String) (product_receiving_date : Option (String ⊎ Datetime))
        (product_name : Option String) (children : IndividualProducts)
        → IndividualProduct

  pub data IndividualProducts : Type 0 where
    no_products : IndividualProducts
    product : IndividualProduct → IndividualProducts → IndividualProducts

pub record LkIndiCommissioningDocument : Type 0 where
  pub participant_inn : String
  pub products_list : IndividualProducts
  pub product_receiving_date : Option (String ⊎ Datetime)

pub record LpGoodsImportDocument : Type 0 where
  pub participant_inn : String
  pub declaration_date : Day
  pub declaration_number : String
  pub customs_code : String
  pub decision_code : String
  pub products : List CodedProduct

pub record CrossborderDocument : Type 0 where
  pub trade_participant_inn : String
  pub sender_tax_number : String
  pub exporter_name : String
  pub country_oksm : String
  pub import_date : Day
  pub primary_document_number : String
  pub primary_document_date : Day
  pub products_list : List CodedProduct

pub record RemainsProduct : Type 0 where
  pub ki : String
  pub country : String
  pub declaration_number : String
  pub declaration_date : Day
  pub permit_documents : List PermitDocument

pub record LpIntroduceOstDocument : Type 0 where
  pub trade_participant_inn : String
  pub products_list : List RemainsProduct

pub record LkContractCommissioningDocument : Type 0 where
  pub producer_inn : String
  pub owner_inn : String
  pub products_list : List CodedProduct
  pub production_date : Option Day

pub record FtsProduct : Type 0 where
  pub cis : String
  pub color : String
  pub product_size : String

pub record LpFtsIntroduceDocument : Type 0 where
  pub trade_participant_inn : String
  pub declaration_number : String
  pub declaration_date : Day
  pub products_list : List FtsProduct

module _ ⦃py : Runtime⦄ ⦃lib : Library⦄ where
  abbrev pub is_digits : String → Bool
  is_digits s = not (nat_eq (len s) 0) && all py.is_digit (codes s)

  unfoldable pub introduce_goods_wire : LpIntroduceGoodsDocument → Checked Wire
  introduce_goods_wire d = do
    a ←
        check (d.production_type == "OWN_PRODUCTION")
          (contract_error "LP_INTRODUCE_GOODS production_type must be OWN_PRODUCTION")
    b ← some_given d.products "products must be non-empty"
    participant ← inn_field d.participant_inn "participant_inn"
    producer ← inn_field d.producer_inn "producer_inn"
    owner ← inn_field d.owner_inn "owner_inn"
    products ← wires (coded_wire "uit_code") d.products
    date ←
        optional d.production_date
          (λ x. text_field "production_date" (day_field x "production_date"))
    ok (
        ("participant_inn", str participant)
        ∷ ("producer_inn", str producer)
        ∷ ("owner_inn", str owner)
        ∷ ("production_type", str "OWN_PRODUCTION")
        ∷ ("products", arr (items_of products))
        ∷ date)

  -- The code of a product, under one of its two keys.
  abbrev pub one_code : Option String → Option String → Checked Wire
  one_code (some u) none = text_field "uit" (cis_field u "uit")
  one_code none (some u) = text_field "uitu" (cis_field u "uitu")
  one_code _ _ = err (contract_error "individual product requires exactly one of uit/uitu")

  abbrev pub received_wire : Option (String ⊎ Datetime) → Checked Wire
  received_wire o =
      optional o (λ x. text_field "product_receiving_date" (utc_millis x "product_receiving_date"))

  abbrev pub children_field : JsonItems → Wire
  children_field end_items = []
  children_field (item j l) = ("children", arr (item j l)) ∷ []

  unfoldable mutual
    pub individual_wire : IndividualProduct → Checked Wire
    individual_wire (individual uit uitu date name children) = do
      code ← one_code uit uitu
      received ← received_wire date
      named ← optional name (λ x. text_field "productName" (nonempty x "productName" 255))
      nested ← individual_wires children
      ok (code ++ received ++ named ++ children_field nested)

    pub individual_wires : IndividualProducts → Checked JsonItems
    individual_wires no_products = ok end_items
    individual_wires (product p l) = do
      w ← individual_wire p
      rest ← individual_wires l
      ok (item (dict w) rest)

  abbrev pub has_products : IndividualProducts → Bool
  has_products no_products = false
  has_products (product p l) = true

  unfoldable pub individual_commissioning_wire : LkIndiCommissioningDocument → Checked Wire
  individual_commissioning_wire d = do
    a ← check (has_products d.products_list) (contract_error "products_list must be non-empty")
    participant ← inn_field d.participant_inn "participant_inn"
    products ← individual_wires d.products_list
    received ← received_wire d.product_receiving_date
    ok (("participant_inn", str participant) ∷ ("products_list", arr products) ∷ received)

  unfoldable pub goods_import_wire : LpGoodsImportDocument → Checked Wire
  goods_import_wire d = do
    a ← some_given d.products "products must be non-empty"
    customs ← nonempty d.customs_code "customs_code" 8
    b ←
        check (is_digits customs && nat_eq (len customs) 8)
          (contract_error "customs_code must be 8 digits")
    decision ← nonempty d.decision_code "decision_code" 2
    c ←
        check (is_digits decision && nat_eq (len decision) 2)
          (contract_error "decision_code must be a two digit classifier code")
    participant ← inn_field d.participant_inn "participant_inn"
    date ← day_field d.declaration_date "declaration_date"
    number ← declaration_field d.declaration_number "declaration_number" false
    products ← wires (coded_wire "uit_code") d.products
    ok (
        ("participant_inn", str participant)
        ∷ ("declaration_date", str date)
        ∷ ("declaration_number", str number)
        ∷ ("customs_code", str customs)
        ∷ ("decision_code", num (lib.int_of decision))
        ∷ ("products", arr (items_of products))
        ∷ [])

  unfoldable pub crossborder_wire : CrossborderDocument → Checked Wire
  crossborder_wire d = do
    a ← some_given d.products_list "products_list must be non-empty"
    sender ← nonempty d.sender_tax_number "sender_tax_number" 14
    b ←
        check
          (is_digits sender
            && (nat_eq (len sender) 8
                || nat_eq (len sender) 9
                || nat_eq (len sender) 12
                || nat_eq (len sender) 14))
          (contract_error "sender_tax_number must contain 8, 9, 12 or 14 digits")
    country ← country_field d.country_oksm "country_oksm"
    c ←
        check (elem country ("051" ∷ "112" ∷ "398" ∷ "417" ∷ []))
          (contract_error "country_oksm is not a supported EAEU source country")
    participant ← inn_field d.trade_participant_inn "trade_participant_inn"
    exporter ← nonempty d.exporter_name "exporter_name" 255
    date ← day_field d.import_date "import_date"
    number ← nonempty d.primary_document_number "primary_document_number" 255
    primary_date ← day_field d.primary_document_date "primary_document_date"
    products ← wires (coded_wire "ki") d.products_list
    ok (
        ("trade_participant_inn", str participant)
        ∷ ("sender_tax_number", str sender)
        ∷ ("exporter_name", str exporter)
        ∷ ("country_oksm", str country)
        ∷ ("import_date", str date)
        ∷ ("primary_document_number", str number)
        ∷ ("primary_document_date", str primary_date)
        ∷ ("products_list", arr (items_of products))
        ∷ [])

  unfoldable pub remains_wire : RemainsProduct → Checked Wire
  remains_wire p = do
    ki ← cis_field p.ki "ki"
    country ← country_field p.country "country"
    number ← declaration_field p.declaration_number "declaration_number" true
    date ← day_field p.declaration_date "declaration_date"
    permits ← permits_wire p.permit_documents
    ok (
        ("ki", str ki)
        ∷ ("country", str country)
        ∷ ("declaration_number", str number)
        ∷ ("declaration_date", str date)
        ∷ permits)

  unfoldable pub introduce_ost_wire : LpIntroduceOstDocument → Checked Wire
  introduce_ost_wire d = do
    a ← some_given d.products_list "products_list must be non-empty"
    products ← wires remains_wire d.products_list
    b ←
        check (distinct (map (λ p. p.ki) d.products_list))
          (contract_error "products_list[].ki must be unique")
    participant ← inn_field d.trade_participant_inn "trade_participant_inn"
    ok (
        ("trade_participant_inn", str participant)
        ∷ ("products_list", arr (items_of products))
        ∷ [])

  unfoldable pub contract_commissioning_wire : LkContractCommissioningDocument → Checked Wire
  contract_commissioning_wire d = do
    a ← some_given d.products_list "products_list must be non-empty"
    producer ← inn_field d.producer_inn "producer_inn"
    owner ← inn_field d.owner_inn "owner_inn"
    products ← wires (coded_wire "uit") d.products_list
    date ←
        optional d.production_date
          (λ x. text_field "production_date" (day_field x "production_date"))
    ok (
        ("producer_inn", str producer)
        ∷ ("owner_inn", str owner)
        ∷ ("production_order", str "CONTRACT_PRODUCTION")
        ∷ ("products_list", arr (items_of products))
        ∷ date)

  unfoldable pub fts_product_wire : FtsProduct → Checked Wire
  fts_product_wire p = do
    cis ← cis_field p.cis "cis"
    color ← nonempty p.color "color" 1024
    size ← nonempty p.product_size "productSize" 1024
    ok (("cis", str cis) ∷ ("color", str color) ∷ ("productSize", str size) ∷ [])

  unfoldable pub fts_introduce_wire : LpFtsIntroduceDocument → Checked Wire
  fts_introduce_wire d = do
    a ← some_given d.products_list "products_list must be non-empty"
    participant ← inn_field d.trade_participant_inn "trade_participant_inn"
    number ← declaration_field d.declaration_number "declaration_number" false
    date ← day_field d.declaration_date "declaration_date"
    products ← wires fts_product_wire d.products_list
    ok (
        ("trade_participant_inn", str participant)
        ∷ ("declaration_number", str number)
        ∷ ("declaration_date", str date)
        ∷ ("products_list", arr (items_of products))
        ∷ [])
