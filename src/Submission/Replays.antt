-- ===== src/Submission/Replays.antt =====
-- A submission that is repeated (wbcz/submission.py), and the two classifications of a status.
use fbs_chz.Prelude.{
  ℕ, ◌+◌, String, true, Option, none, some, List, [], ◌∷◌, ◌++◌, ◌≡◌, refl, arith, filled, length,
  ◌<+>◌, ==-eq_self,
}
use fbs_chz.Runtime.{Bytes}
use fbs_chz.Effect.{ok}
use fbs_chz.WritePipeline.Types.{PollClassification, classify_poll_status}
use fbs_chz.Submission.{
  SubmissionService, find_submitted, equal_bytes, submit_payload, DirectStatusClass, intermediate,
  success, failure, unknown, classify_direct_status,
}

equal_bytes_self : (l : Bytes) → equal_bytes l l ≡ true
equal_bytes_self [] = refl
equal_bytes_self (a ∷ l) = ground (arith, equal_bytes_self l)

find_submitted-append :
    (k : String) (l : List (String × Bytes × String)) (b : Bytes) (d : String)
    → find_submitted k l ≡ none
    → find_submitted k (l ++ (k, b, d) ∷ []) ≡ some (b, d)
unfolding find_submitted
find_submitted-append k [] b d h = rw (==-eq_self k) refl
find_submitted-append k ((j, c, e) ∷ l) b d h = ground (arith, find_submitted-append k l b d)

-- What the classes mean to the pipeline.
abbrev pub poll_class : DirectStatusClass → PollClassification
poll_class intermediate = PollClassification.intermediate
poll_class success = PollClassification.terminal_success
poll_class failure = PollClassification.terminal_failure
poll_class unknown = PollClassification.manual_review

-- The two classifications of a status, that of the pipeline and that of the document lifecycle, agree
-- on every status.
pub classify_poll_status-classify_direct_status :
    (status : Option String)
    → classify_poll_status status ≡ poll_class (classify_direct_status status)
unfolding classify_poll_status classify_direct_status
classify_poll_status-classify_direct_status status = ground arith

module _ (shown : ℕ → String) where
  -- A submission with a key that is new and not empty returns a document, and the same submission made
  -- again returns the same document and stores nothing more.
  pub submit_payload-again :
      (payload : Bytes) (k : String) (s : SubmissionService)
      → filled k ≡ true
      → find_submitted k s.documents ≡ none
      → (d : String) × ((submit_payload shown payload k s).0 ≡ ok d)
        × ((submit_payload shown payload k (submit_payload shown payload k s).1).0 ≡ ok d)
        × ((submit_payload shown payload k (submit_payload shown payload k s).1).1.documents
            ≡ (submit_payload shown payload k s).1.documents)
  unfolding submit_payload
  submit_payload-again payload k s f n =
      let d = "fake-document-" <+> shown (length s.documents + 1) in
      let again = find_submitted-append k s.documents payload d n in
      (
        d,
        rw (f, n) refl,
        rw (f, n) (rw (again, equal_bytes_self payload) refl),
        rw (f, n) (rw (again, equal_bytes_self payload) refl),
      )
