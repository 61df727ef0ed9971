-- ===== src/Submission/Tests.antt =====
-- Runs of the submission service, and its theorems at these runs.
use fbs_chz.Prelude.{ℕ, String, none, some, [], ◌∷◌, ◌≡◌, refl}
use fbs_chz.Effect.{ok}
use fbs_chz.WritePipeline.Types.{classify_poll_status}
use fbs_chz.Submission.{SubmissionService, find_submitted, submit_payload, classify_direct_status}
use fbs_chz.Submission.Replays.{
  poll_class, classify_poll_status-classify_direct_status, submit_payload-again,
}

abbrev empty_service : SubmissionService
empty_service = record { calls = 0; documents = [] }

abbrev one : ℕ → String
one n = "1"

nothing_submitted : find_submitted "key" empty_service.documents ≡ none
unfolding find_submitted
nothing_submitted = refl

first_submission : (submit_payload one (1 ∷ 2 ∷ []) "key" empty_service).0 ≡ ok "fake-document-1"
unfolding submit_payload find_submitted
first_submission = refl

classify_poll_status-classify_direct_status_example :
    classify_poll_status (some "PARSE_ERROR")
    ≡ poll_class (classify_direct_status (some "PARSE_ERROR"))
classify_poll_status-classify_direct_status_example =
    classify_poll_status-classify_direct_status (some "PARSE_ERROR")

submit_payload-again_example :
    (d : String) × ((submit_payload one (1 ∷ 2 ∷ []) "key" empty_service).0 ≡ ok d)
    × ((submit_payload one
          (1 ∷ 2 ∷ [])
          "key"
          (submit_payload one (1 ∷ 2 ∷ []) "key" empty_service).1).0
        ≡ ok d)
    × ((submit_payload one
          (1 ∷ 2 ∷ [])
          "key"
          (submit_payload one (1 ∷ 2 ∷ []) "key" empty_service).1).1.documents
        ≡ (submit_payload one (1 ∷ 2 ∷ []) "key" empty_service).1.documents)
submit_payload-again_example =
    submit_payload-again one (1 ∷ 2 ∷ []) "key" empty_service refl nothing_submitted
