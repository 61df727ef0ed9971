-- ===== src/Runtime.antt =====
-- What the program takes from Python's standard library, as a record of functions: text and byte
-- functions, `json`, `base64`, `hashlib` and the clock. None of it is under src/, so it is an
-- argument of the definitions that use it. Also the JSON values that the program builds.
use fbs_chz.Prelude.{ℕ, String, Bool, Option, List}
use fbs_chz.Models.{Decimal}

abbrev pub Bytes : Type 0
Bytes = List ℕ

mutual
  -- A value that `json.dumps` takes. A dict is `obj`, in the order of insertion.
  pub data Json : Type 0 where
    null : Json
    bool : Bool → Json
    num : ℕ → Json
    str : String → Json
    arr : JsonItems → Json
    obj : JsonFields → Json

  pub data JsonItems : Type 0 where
    end_items : JsonItems
    item : Json → JsonItems → JsonItems

  pub data JsonFields : Type 0 where
    end_fields : JsonFields
    field : String → Json → JsonFields → JsonFields

pub record Runtime : Type 0 where
  -- str.casefold, str.strip, str.rstrip(chars); str.isdigit and str.isspace of one code point
  pub casefold : String → String
  pub strip : String → String
  pub rstrip : String → String → String
  pub is_digit : ℕ → Bool
  pub is_space : ℕ → Bool
  -- str.encode("utf-8"); bytes.decode("utf-8"), `none` where it raises
  pub utf8_encode : String → Bytes
  pub utf8_decode : Bytes → Option String
  -- json.dumps(…, ensure_ascii=False, sort_keys=True, separators=(",", ":"), allow_nan=False)
  pub dumps : Json → String
  -- json.loads, `none` where it raises
  pub loads : String → Option Json
  -- base64.b64encode(…).decode("ascii"); base64.b64decode(…, validate=True), `none` where it raises
  pub b64encode : Bytes → String
  pub b64decode : String → Option Bytes
  -- hashlib.sha256(…).hexdigest()
  pub sha256_hex : Bytes → String
  -- the n-th reading of the clock by `utc_now`; isoformat of a UTC instant
  pub now : ℕ → String
  pub isoformat : ℕ → String
  -- format(amount.quantize(Decimal("0.01")), ".2f")
  pub format_cents : Decimal → String
