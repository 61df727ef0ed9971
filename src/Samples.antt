-- ===== src/Samples.antt =====
-- Sample data for the tests: a stand-in for Python's library, and the records of one operation.
use fbs_chz.Prelude.{nat_eq, String, true, false, none, some, [], ◌∷◌, ◌&&◌, leb, codes}
use fbs_chz.Runtime.{Runtime, null}
use fbs_chz.Models.{sale, return, finite, aware, Event, KiState}

-- Base64 and the hash are constant here, which is enough for one document.
instance abbrev pub plain : Runtime
plain = record {
  casefold = λ s. s;
  strip = λ s. s;
  rstrip = λ s t. t;
  is_digit = λ c. leb 48 c && leb c 57;
  is_space = λ c. nat_eq c 32;
  utf8_encode = λ s. codes s;
  utf8_decode = λ b. some "{}";
  dumps = λ j. "{}";
  loads = λ s. some null;
  b64encode = λ b. "ZG9j";
  b64decode = λ s. some (100 ∷ 111 ∷ 99 ∷ []);
  sha256_hex = λ b. "5e1f";
  now = λ n. "2024-05-01T10:00:00+00:00";
  isoformat = λ n. "2024-05-01T10:00:00+00:00";
  format_cents = λ d. "1500.00";
}

abbrev pub inn : String
inn = "7701234567"

abbrev pub sale_event : Event
sale_event = record {
  kiz = "010460123456789021ABC";
  task_number = "100";
  sticker = "S-1";
  operation = sale;
  occurred_at = some (aware 1714557600000000);
  receipt_number = some "17";
  fiscal_drive_number = none;
  amount = finite true 150000 2;
  currency = "RUB";
  legal_entity_sale = some false;
}

abbrev pub return_event : Event
return_event = record sale_event { operation = return }

abbrev pub in_circulation : KiState
in_circulation = record {
  status = "IN_CIRCULATION";
  status_ex = none;
  withdraw_reason = none;
  owner_inn = some inn;
  product_group = some "lp";
}

abbrev pub sold : KiState
sold = record in_circulation { status = "WITHDRAWN"; withdraw_reason = some "DISTANCE" }
