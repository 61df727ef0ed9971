-- ===== src/WritePipeline/Returns.antt =====
-- Calls of the store of wbcz/write_pipeline.py that return: a transition from an expected state, and
-- the reservation of a signed operation.
use fbs_chz.Prelude.{String, Bool, true, some, List, ◌≡◌, ◌∙◌, refl, present}
use fbs_chz.Runtime.{Runtime, JsonFields, end_fields}
use fbs_chz.Effect.{ok, gets, modify, pure, require, ◌>>=◌}
use fbs_chz.WritePipeline.Types.{WriteState}
use fbs_chz.WritePipeline.Schema.{
  Row, World, find, update, utc_now, set_row, write_audit, transaction,
}
use fbs_chz.WritePipeline.States.{is_signed}
use fbs_chz.WritePipeline.Transition.{to_record, get_row, get, transition_body, transition}
use fbs_chz.WritePipeline.Store.{reserve_submit, submit_guards}
use fbs_chz.WritePipeline.Ranks.{find-update_self}

abbrev pub moved : Row → WriteState → String → Row
moved r target now = record r { state = target; updated_at = now }

found_moved :
    (k : String) (target : WriteState) (now : String) (l : List Row) (r : Row)
    → find k l ≡ some r
    → find k (update k (λ x. moved x target now) l) ≡ some (moved r target now)
found_moved k target now l r h =
    find-update_self k (λ x. moved x target now) l (λ x. refl) ∙ rw h refl

module _ ⦃py : Runtime⦄ where
  -- A transition of an operation that is there, from a state that the call expects, returns the
  -- operation in the target state, and leaves its row so, with nothing else of the row changed but the
  -- time of the update.
  pub transition-returns :
      (k : String) (expected : WriteState → Bool) (target : WriteState) (action : String)
      (details : JsonFields) (w : World) (r : Row)
      → find k w.db.operations ≡ some r
      → expected r.state ≡ true
      → ((transition k expected target action details w).0
          ≡ ok (to_record (moved r target (py.now w.reads))))
        × (find k (transition k expected target action details w).1.db.operations
            ≡ some (moved r target (py.now w.reads)))
  unfolding transition transition_body transaction get get_row utc_now set_row write_audit modify
      gets require pure ◌>>=◌
  transition-returns k expected target action details w r found e =
      let there = found_moved k target (py.now w.reads) w.db.operations r found in
      (rw (found, e) (rw there refl), rw (found, e) (rw there there))

  -- The reservation of a signed operation that has a signature returns it in the state SUBMITTING and
  -- stores that state.
  pub reserve_submit-returns :
      (k : String) (w : World) (r : Row)
      → find k w.db.operations ≡ some r
      → r.state ≡ WriteState.signed
      → present r.signature_base64 ≡ true
      → ((reserve_submit k w).0 ≡ ok (to_record (moved r WriteState.submitting (py.now w.reads))))
        × (find k (reserve_submit k w).1.db.operations
            ≡ some (moved r WriteState.submitting (py.now w.reads)))
  unfolding reserve_submit submit_guards get get_row gets require pure ◌>>=◌
  reserve_submit-returns k w r found s p =
      let (a, b) =
        transition-returns k is_signed WriteState.submitting "SUBMIT_RESERVED" end_fields w r found
          (rw s refl) in
      (rw found (rw s (rw p (rw a refl))), rw found (rw s (rw p b)))
