-- ===== src/Turnover/DocumentTests.antt =====
-- A remote sale and its return, written out and taken by the write pipeline.
use Prim.Native.Char.{code}
use fbs_chz.Prelude.{
  ℕ, zero, suc, ◌+◌, nat_eq, String, true, false, none, some, [], ◌∷◌, ◌≡◌, ◌∙◌, ap, refl, map,
  length, All, if◌then◌else◌, arith,
}
use fbs_chz.Runtime.{
  Runtime, Bytes, str, bool, num, arr, obj, item, end_items, field, end_fields, end_items,
}
use fbs_chz.Models.{ready_to_withdraw}
use fbs_chz.Effect.{ok}
use fbs_chz.Samples.{plain, inn}
use fbs_chz.WritePipeline.Types.{ExactDocument}
use fbs_chz.WritePipeline.Adapter.{from_json_value, from_utf8_json_bytes}
use fbs_chz.WritePipeline.Schema.{World}
use fbs_chz.WritePipeline.Prepare.{prepare_guards}
use fbs_chz.Turnover.Fields.{
  day_text, distinct, nonempty, inn_field, cis_field, fias_field, parsed_day, bounded_day,
  five_years_before,
}
use fbs_chz.Turnover.Parts.{Wire, wires, optional, mod_wire}
use fbs_chz.Turnover.Snapshots.{withdraw_distance}
use fbs_chz.Turnover.Withdrawals.{
  LkReceiptDistanceDocument, LpReturnDocument, pos, checked_cost, withdrawn_wire, distance_wire,
  returned_wire, check_paid, check_kind, check_root, checked_return, lp_return_wire,
}
use fbs_chz.Turnover.Operations.{
  distance, PreparedTurnoverDocument, prepare_turnover_document, to_wire, is_expected, is_remote,
  type_of_document, document_type_of, reason_of, postcondition_class,
}
use fbs_chz.Turnover.Documents.{prepared_passes_guards}
use fbs_chz.Turnover.Rules.{IsBounded, distance_wire-bounds}
use fbs_chz.Turnover.Returns.{IsPaidRight, lp_return_wire-IsPaidRight}
use fbs_chz.Turnover.Sample.{library}

-- A code of bytes that can be read back: so many strokes for a byte, and then a bar.
abbrev strokes : ℕ → String → String
strokes zero s = String.◌∷◌ "|" s
strokes (suc n) s = String.◌∷◌ "1" (strokes n s)

abbrev encoded : Bytes → String
encoded [] = ""
encoded (n ∷ b) = strokes n (encoded b)

abbrev counted : ℕ → String → Bytes
counted n String.[] = []
counted n (String.◌∷◌ c s) =
    let more = counted (suc n) s in
    let done = counted 0 s in if nat_eq (code c) 49 then more else n ∷ done

counted-strokes : (m n : ℕ) (s : String) → counted m (strokes n s) ≡ (m + n) ∷ counted 0 s
counted-strokes m zero s = ap (λ k. k ∷ counted 0 s) (plus_zero m)
  where
    plus_zero : (k : ℕ) → k ≡ k + 0
    plus_zero k = omega arith
counted-strokes m (suc n) s = counted-strokes (suc m) n s ∙ ap (λ k. k ∷ counted 0 s) (plus_suc m n)
  where
    plus_suc : (k j : ℕ) → suc k + j ≡ k + suc j
    plus_suc k j = omega arith

counted-encoded : (b : Bytes) → counted 0 (encoded b) ≡ b
counted-encoded [] = refl
counted-encoded (n ∷ b) =
    counted-strokes 0 n (encoded b) ∙ rw (counted-encoded b) (ap (λ k. k ∷ b) (zero_plus n))
  where
    zero_plus : (k : ℕ) → 0 + k ≡ k
    zero_plus k = omega arith

abbrev coding : Runtime
coding = record plain {
  b64encode = encoded;
  b64decode = λ s. some (counted 0 s);
  loads = λ s. some (obj end_fields);
}

coding_decodes : (b : Bytes) → coding.b64decode (coding.b64encode b) ≡ some b
coding_decodes b = ap some (counted-encoded b)

abbrev sale_document : LkReceiptDistanceDocument
sale_document = record {
  inn = inn;
  action_date = day_text "2024-05-01";
  products = record { cis = "010460123456789021ABC"; product_cost = pos 150000 } ∷ [];
  mod_location = record { fias_id = "fias-1"; legal_entity = false; kpp = none };
  primary_document = none;
}

abbrev sale_wire : Wire
sale_wire =
    ("inn", str inn)
    ∷ ("action", str "DISTANCE")
    ∷ ("action_date", str "2024-05-01")
    ∷ ("fias_id", str "fias-1")
    ∷ (
      "products",
      arr (
          item
            (obj (
              field "cis" (str "010460123456789021ABC")
                (field "product_cost" (num 150000) end_fields)))
            end_items),
    )
    ∷ []

sale_is_written : distance_wire ⦃py = coding⦄ sale_document ≡ ok sale_wire
unfolding distance_wire wires withdrawn_wire checked_cost nonempty inn_field cis_field fias_field
    bounded_day parsed_day five_years_before mod_wire optional
sale_is_written = refl

distance_wire-bounds_example :
    (nat_eq (length (sale_document.products)) 0 ≡ false)
    × (distinct (map (λ p. p.cis) sale_document.products) ≡ true)
    × All IsBounded sale_document.products
distance_wire-bounds_example =
    distance_wire-bounds ⦃py = coding⦄ sale_document sale_wire sale_is_written

abbrev sale_exact : ExactDocument
sale_exact = record {
  payload = 123 ∷ 125 ∷ [];
  sha256 = "5e1f";
  product_document_base64 = encoded (123 ∷ 125 ∷ []);
}

abbrev prepared : PreparedTurnoverDocument
prepared = record {
  operation_kind = withdraw_distance;
  document_type = "LK_RECEIPT";
  document_format = "MANUAL";
  pg = "lp";
  exact_document = sale_exact;
  raw_business_reason = some "DISTANCE";
  expected_postcondition = "RETIRED:DISTANCE";
}

sale_is_prepared :
    prepare_turnover_document ⦃py = coding⦄ withdraw_distance (distance sale_document) ≡ ok prepared
unfolding prepare_turnover_document is_expected is_remote type_of_document document_type_of to_wire
    distance_wire wires withdrawn_wire checked_cost nonempty inn_field cis_field fias_field
    bounded_day parsed_day five_years_before mod_wire optional from_json_value from_utf8_json_bytes
    reason_of postcondition_class
sale_is_prepared = refl

abbrev empty_world : World
empty_world = record {
  db = record { operations = []; audit = [] };
  reads = 0;
  polls = 0;
  posts = [];
}

prepared_passes_guards_example :
    prepare_guards ⦃py = coding⦄ ready_to_withdraw "LK_RECEIPT" "DISTANCE" "lp" inn sale_exact
      empty_world
    ≡ (ok tt, empty_world)
prepared_passes_guards_example =
    prepared_passes_guards ⦃py = coding⦄ withdraw_distance (distance sale_document) prepared
      ready_to_withdraw inn empty_world coding_decodes refl refl sale_is_prepared

abbrev return_document : LpReturnDocument
return_document = record {
  trade_participant_inn = inn;
  products_list =
      record { ki = "010460123456789021ABC"; paid = none; primary_document = none; permit = none }
      ∷ [];
  paid = some false;
  primary_document = none;
  permit = none;
  state_contract_id = none;
  return_type = "REMOTE_SALE_RETURN";
}

abbrev return_fields : Wire
return_fields =
    ("trade_participant_inn", str inn)
    ∷ ("return_type", str "REMOTE_SALE_RETURN")
    ∷ (
      "products_list",
      arr (item (obj (field "ki" (str "010460123456789021ABC") end_fields)) end_items),
    )
    ∷ ("paid", bool false)
    ∷ []

return_is_written : lp_return_wire ⦃py = coding⦄ return_document ≡ ok return_fields
unfolding lp_return_wire check_kind check_root check_paid checked_return returned_wire wires
    optional nonempty inn_field cis_field
return_is_written = refl

lp_return_wire-IsPaidRight_example :
    (nat_eq (length return_document.products_list) 0 ≡ false)
    × (distinct (map (λ p. p.ki) return_document.products_list) ≡ true)
    × All (IsPaidRight ⦃py = coding⦄ return_document) return_document.products_list
lp_return_wire-IsPaidRight_example =
    lp_return_wire-IsPaidRight ⦃py = coding⦄ return_document return_fields return_is_written
