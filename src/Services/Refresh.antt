-- ===== src/Services/Refresh.antt =====
-- What a refresh of a document's status does (wbcz/status_verifier.py), and that a check never lets an
-- error of the remote service escape (wbcz/service.py).
use fbs_chz.Prelude.{
  ◌↔◌, String, List, [], ◌∷◌, none, some, true, ◌≡◌, ◌≢◌, ◌∙◌, sym, ap, refl, arith, if◌then◌else◌,
  Bool-cases, inl, inr,
}
use mathlib.Core.Path.{subst}
use fbs_chz.Runtime.{Runtime}
use fbs_chz.Models.{
  KiState, Decision, Outcome, ready_to_withdraw, ready_to_return, error, DocumentReport, Event,
}
use fbs_chz.Effect.{Result, ok, err, ok-injective, modify, gets, pure, ◌>>=◌}
use fbs_chz.ControlEngine.{validate_owner_inn, decide}
use fbs_chz.ControlEngine.Decisions.{
  IsWithdrawable, IsReturnable, is_calm, decide-withdraw_iff, decide_return_iff,
  decide_checked-ne-err, decide_checked_calm,
}
use fbs_chz.EventStore.Tables.{
  EventStore, DocumentRow, atomically, read_clock, append_audit, change_tables,
}
use fbs_chz.EventStore.Documents.{
  find_document, set_status, document_report, is_terminal, report_of, put_status, add_history,
  note_status, store_status, update_body, update_document,
}
use fbs_chz.EventStore.Keeps.{report_at}
use fbs_chz.Services.{Exception, observed, refresh, settled, outcome_of}

report_at-set_status :
    (k : String) (r : DocumentReport) (now : String) (l : List DocumentRow) (x : DocumentRow)
    → find_document k l ≡ some x
    → find_document k (set_status k r now l) ≡ some (put_status r now x)
unfolding find_document set_status
report_at-set_status k r now [] x h = absurd (ground arith)
report_at-set_status k r now (y ∷ l) x h = ground (arith, report_at-set_status k r now l x)

-- What `decide` recommends, a check recommends too.
settled_iff :
    (d : Result String Outcome) (x : Decision)
    → x ≢ error
    → ((settled d).decision ≡ x) ↔ ((o : Outcome) × (d ≡ ok o) × (o.decision ≡ x))
settled_iff (ok o) x n = (λ h. (o, refl, h), λ w. ap (λ r. (settled r).decision) w.1 ∙ w.2)
settled_iff (err m) x n = (λ h. absurd (n (sym h)), λ w. absurd (ground (arith, w.1)))

settled-ne-error :
    (d : Result String Outcome)
    → ((m : String) → d ≢ err m)
    → ((o : Outcome) → d ≡ ok o → (o.error ≡ none) × (is_calm o.decision ≡ true))
    → (settled d).decision ≢ error
settled-ne-error (ok o) n calm h = absurd (ground (arith, (calm o refl).1))
settled-ne-error (err m) n calm h = absurd (n m refl)

-- What holds of an answer with a state, and only of some states.
answered_iff :
    (P : KiState → Type 0) (A : Type 0) (state : KiState)
    → A ↔ P state
    → A ↔ ((s : KiState) × (Path (Result Exception KiState) (ok state) (ok s)) × P s)
answered_iff P A state f =
    (λ a. (state, refl, f.0 a), λ w. f.1 (subst P (sym (ok-injective _ _ w.1)) w.2))

iff_trans : {A B C : Type 0} → A ↔ B → B ↔ C → A ↔ C
iff_trans f g = (λ a. g.0 (f.0 a), λ c. f.1 (g.1 c))

module _ ⦃py : Runtime⦄ where
  -- A refresh of a document that is on record returns and leaves the report that it returns: the one
  -- on record where that is a last one, and otherwise what the remote service answered, an exception
  -- being the status VERIFICATION_ERROR with its text.
  pub refresh-report :
      (verifier : String → Result Exception DocumentReport) (k : String) (s : EventStore)
      (row : DocumentRow)
      → find_document k s.tables.documents ≡ some row
      → (r : DocumentReport) × (r
          ≡ (if is_terminal row.status then report_of row else observed (verifier k)))
        × ((refresh verifier k s).0 ≡ ok r)
        × (report_at k (refresh verifier k s).1.tables ≡ some r)
  unfolding refresh document_report update_document update_body store_status note_status add_history
      append_audit read_clock change_tables atomically modify gets pure ◌>>=◌
  refresh-report verifier k s row h = elim (Bool-cases (is_terminal row.status)) [
    | inl e ↦ (report_of row, rw e refl, rw h (rw e refl), rw h (rw e (rw h refl)))
    | inr e ↦ (
      observed (verifier k),
      rw e refl,
      rw h (rw e (rw h (rw e refl))),
      rw h (
          rw e (
            rw h (
              rw e (
                rw (report_at-set_status k (observed (verifier k)) _ s.tables.documents row h)
                  refl)))),
    )
  ]

  -- With a valid INN of ours, a check recommends a withdrawal exactly when the remote service answered
  -- with a state for which the sale may be withdrawn, a return exactly when it answered with a state for
  -- which the event may be returned, and its decision is ERROR exactly when the service raised an
  -- exception.
  pub outcome_of_iff :
      (event : Event) (response : Result Exception KiState) (own_inn : String)
      → validate_owner_inn own_inn ≡ ok tt
      → (((outcome_of event response own_inn).decision ≡ ready_to_withdraw)
          ↔ ((state : KiState) × (response ≡ ok state) × IsWithdrawable event state own_inn))
        × (((outcome_of event response own_inn).decision ≡ ready_to_return)
            ↔ ((state : KiState) × (response ≡ ok state) × IsReturnable event state own_inn))
        × (((outcome_of event response own_inn).decision ≡ error)
            ↔ ((e : Exception) × (response ≡ err e)))
  unfolding outcome_of decide
  outcome_of_iff event (err e) own_inn v = (
    (λ h. absurd (ground arith), λ w. absurd (ground (arith, w.1))),
    (λ h. absurd (ground arith), λ w. absurd (ground (arith, w.1))),
    (λ h. (e, refl), λ w. refl),
  )
  outcome_of_iff event (ok state) own_inn v = (
    answered_iff (λ s. IsWithdrawable event s own_inn) _ state
        (iff_trans (settled_iff (decide event state own_inn) ready_to_withdraw (λ h. ground arith))
          (decide-withdraw_iff event state own_inn v).0),
    answered_iff (λ s. IsReturnable event s own_inn) _ state
        (iff_trans (settled_iff (decide event state own_inn) ready_to_return (λ h. ground arith))
          (decide_return_iff event state own_inn v)),
    (
      λ h. absurd (
          settled-ne-error (decide event state own_inn)
            (λ m e. decide_checked-ne-err event state own_inn m (sym (rw v refl) ∙ e))
            (λ o e. decide_checked_calm event state own_inn o (sym (rw v refl) ∙ e)) h),
      λ w. absurd (ground (arith, w.1)),
    ),
  )
