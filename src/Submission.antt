-- ===== src/Submission.antt =====
-- `FakeSubmissionService` of wbcz/submission.py, which answers a repeated key with the same document,
-- and `classify_direct_status` of wbcz/document_lifecycle.py.
pub mod Replays
mod Tests
use fbs_chz.Prelude.{
  ℕ, ◌+◌, String, Bool, true, false, Option, none, some, List, [], ◌∷◌, ◌++◌, ◌&&◌, nat_eq, ◌==◌,
  filled, length, ◌<+>◌, if◌then◌else◌,
}
use fbs_chz.Runtime.{Bytes}
use fbs_chz.Effect.{Result, ok, err}
use fbs_chz.WritePipeline.Types.{status_in}

-- `_documents`: the payload and the document of each key, in the order of insertion.
pub record SubmissionService : Type 0 where
  pub calls : ℕ
  pub documents : List (String × Bytes × String)

unfoldable pub find_submitted : String → List (String × Bytes × String) → Option (Bytes × String)
find_submitted k [] = none
find_submitted k ((j, payload, d) ∷ l) = if j == k then some (payload, d) else find_submitted k l

abbrev pub equal_bytes : Bytes → Bytes → Bool
equal_bytes [] [] = true
equal_bytes (a ∷ l) (b ∷ m) = nat_eq a b && equal_bytes l m
equal_bytes _ _ = false

-- `shown` writes a number in decimal, as an f-string does.
module _ (shown : ℕ → String) where
  abbrev pub store_document :
      Option (Bytes × String)
      → Bytes
      → String
      → SubmissionService
      → Result String String × SubmissionService
  store_document (some (payload, d)) signed_payload k s =
      if equal_bytes payload signed_payload
      then (ok d, s)
      else (err "Повтор ключа с другим содержимым", s)
  store_document none signed_payload k s =
      let d = "fake-document-" <+> shown (length s.documents + 1) in
      (ok d, record s { documents = s.documents ++ (k, signed_payload, d) ∷ [] })

  -- `submit`
  unfoldable pub submit_payload :
      Bytes → String → SubmissionService → Result String String × SubmissionService
  submit_payload signed_payload k s =
      let s1 = record s { calls = s.calls + 1 } in
      if filled k
      then store_document (find_submitted k s.documents) signed_payload k s1
      else (err "Нужен idempotency_key", s1)

pub data DirectStatusClass : Type 0 where
  intermediate success failure unknown : DirectStatusClass

unfoldable pub classify_direct_status : Option String → DirectStatusClass
classify_direct_status status =
    if status_in status ("IN_PROGRESS" ∷ "WAIT_FOR_CONTINUATION" ∷ [])
    then intermediate
    else if status_in status ("CHECKED_OK" ∷ [])
    then success
    else if status_in status ("CHECKED_NOT_OK" ∷ "PARSE_ERROR" ∷ "PROCESSING_ERROR" ∷ [])
    then failure
    else unknown
