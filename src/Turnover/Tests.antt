-- ===== src/Turnover/Tests.antt =====
-- Codes before and after a return, and a remark.
use fbs_chz.Effect.Checks.{each}
use fbs_chz.Prelude.{
  nat_eq, String, true, false, Option, none, some, [], ◌∷◌, ◌≡◌, ◌↔◌, ◌⊎◌, refl, elem, length, All,
  ◌==◌,
}
use fbs_chz.Models.{aware}
use fbs_chz.Effect.{ok}
use fbs_chz.Samples.{plain, inn}
use fbs_chz.Turnover.Sample.{library}
use fbs_chz.Turnover.Fields.{nonempty, inn_field, cis_field}
use fbs_chz.Turnover.Snapshots.{
  CisSnapshot, Service, return_remote_sale, remark, PreconditionEvidence, validated, check_fresh,
  check_owned, check_plain, validate_return_reason_matrix,
}
use fbs_chz.Turnover.Preconditions.{
  validate_return, validate_remark, check_returned, check_usual, check_new_code, check_old_code,
  evidence, known_return_types,
}
use fbs_chz.Turnover.Admitted.{
  IsReturnable, IsNewCode, IsOldCode, validate_return_sound, validate_remark_sound,
}
use fbs_chz.Turnover.Reconciliation.{reconcile, reconciled}
use fbs_chz.Turnover.Reconciled.{codes_fit, packages_fit, reconcile_iff}

abbrev checked : Option String
checked = some "CHECKED_OK"

abbrev service : Service
service = record { participant_inn = inn; now = 1714557600000000; max_snapshot_age = 300000000 }

abbrev sold_code : CisSnapshot
sold_code = record {
  cis = "010460123456789021ABC";
  status = some "RETIRED";
  status_ex = none;
  owner_inn = some inn;
  withdraw_reason = some "DISTANCE";
  emission_type = some "LOCAL";
  commission_from_individual_confirmed = none;
  fetched_at = some (aware 1714557540000000);
  parent = none;
  package_type = some "UNIT";
  direct_children = [];
}

abbrev new_code : CisSnapshot
new_code = record sold_code {
  cis = "010460123456789021DEF";
  status = some "APPLIED";
  withdraw_reason = none;
  emission_type = some "REMARK";
}

abbrev return_evidence : PreconditionEvidence
return_evidence = record {
  operation_kind = return_remote_sale;
  checked_cises = "010460123456789021ABC" ∷ [];
  observed = sold_code ∷ [];
  source_document = none;
}

admitted :
    validate_return service (sold_code ∷ []) "REMOTE_SALE_RETURN" return_remote_sale
    ≡ ok return_evidence
unfolding validate_return each check_returned check_usual evidence check_fresh check_owned
    check_plain validated validate_return_reason_matrix nonempty inn_field cis_field
admitted = refl

validate_return_sound_example :
    (evidence return_remote_sale (sold_code ∷ []) ≡ return_evidence)
    × (nat_eq (length (sold_code ∷ [])) 0 ≡ false)
    × (elem "REMOTE_SALE_RETURN" known_return_types ≡ true)
    × All (IsReturnable service "REMOTE_SALE_RETURN") (sold_code ∷ [])
validate_return_sound_example =
    validate_return_sound service (sold_code ∷ []) "REMOTE_SALE_RETURN" return_remote_sale
      return_evidence admitted

abbrev remark_evidence : PreconditionEvidence
remark_evidence = record {
  operation_kind = remark;
  checked_cises = "010460123456789021DEF" ∷ "010460123456789021ABC" ∷ [];
  observed = new_code ∷ sold_code ∷ [];
  source_document = none;
}

remarked :
    validate_remark service (new_code ∷ []) (sold_code ∷ []) "RETAIL_RETURN" ≡ ok remark_evidence
unfolding validate_remark each check_new_code check_old_code check_usual evidence check_fresh
    check_owned check_plain validated nonempty inn_field cis_field
remarked = refl

validate_remark_sound_example :
    All (IsNewCode service) (new_code ∷ [])
    × All (IsOldCode service "RETAIL_RETURN") (sold_code ∷ [])
    × ((("RETAIL_RETURN" == "DESCRIPTION_ERRORS") ≡ false)
        ⊎ (nat_eq (length (sold_code ∷ [])) 0 ≡ false))
validate_remark_sound_example =
    validate_remark_sound service (new_code ∷ []) (sold_code ∷ []) "RETAIL_RETURN" remark_evidence
      remarked

abbrev returned_code : CisSnapshot
returned_code = record sold_code { status = some "INTRODUCED"; withdraw_reason = none }

reconcile_iff_example :
    ((reconcile return_remote_sale checked (returned_code ∷ []) [] [] []).state ≡ reconciled) ↔ (
      (checked ≡ checked)
      × (codes_fit return_remote_sale [] (returned_code ∷ []) ≡ true)
      × (packages_fit return_remote_sale [] [] ≡ true))
reconcile_iff_example = reconcile_iff return_remote_sale checked (returned_code ∷ []) [] [] []
