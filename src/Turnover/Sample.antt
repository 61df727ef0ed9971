-- ===== src/Turnover/Sample.antt =====
-- A stand-in for the libraries that wbcz/turnover.py uses, for the tests.
use fbs_chz.Prelude.{true, some, ◌&&◌, leb}
use fbs_chz.Turnover.Fields.{Library, Date}

-- Digits are read as ASCII ones; every day is the first of May 2024.
abbrev may : Date
may = record { year = 2024; month = 5; day = 1 }

instance abbrev pub library : Library
library = record {
  upper = λ s. s;
  str_of = λ n. "n";
  int_of = λ s. 0;
  is_decimal = λ c. leb 48 c && leb c 57;
  uuid = λ s. some s;
  date_text = λ d. "2024-05-01";
  parse_date = λ s. some may;
  parse_instant = λ s. some 0;
  is_date = λ d. true;
  plus_days = λ d n. d;
  seconds_text = λ n. "2024-05-01T10:00:00.";
  three_digits = λ n. "000";
  today = may;
}
