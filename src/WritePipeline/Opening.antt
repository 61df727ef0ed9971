-- ===== src/WritePipeline/Opening.antt =====
-- `WriteOperationStore.prepare` (wbcz/write_pipeline.py) changes the tables by steps of the relation.
use fbs_chz.Prelude.{
  ◌+◌, String, true, false, Option, none, some, List, [], ◌∷◌, ◌++◌, ◌≡◌, ◌⊎◌, refl, inl, inr,
  arith, filled, eq_iff, Bool-cases, Option-cases,
}
use fbs_chz.Runtime.{Runtime}
use fbs_chz.Models.{Decision}
use fbs_chz.Effect.{ok, err, ◌>>=◌}
use fbs_chz.Effect.Rules.{
  Moves, Same, Same-preorder, Moves-lift, Moves-require, Moves-pure, Moves-gets, Moves-bind,
  at_read,
}
use fbs_chz.WritePipeline.Types.{
  WriteError, integrity_error, ExactDocument, OperationRecord, prepared, awaiting_signature,
}
use fbs_chz.WritePipeline.Schema.{Row, World, find, insert, is_taken, checks_hold}
use fbs_chz.WritePipeline.Transition.{decision_document}
use fbs_chz.WritePipeline.Prepare.{
  prepare_new, prepare_replay, prepare_body, prepare_guards, prepare, prepare_found,
  prepared_or_get,
}
use fbs_chz.WritePipeline.Steps.{
  move, open_operation, change, here, next, Follows, Follows-reflexive, Follows-preorder,
}
use fbs_chz.WritePipeline.Follows.{
  entry, transaction-Follows, get-Follows, utc_now-Follows, follows_rules,
}

pub find-append_new :
    (l : List Row) (r : Row) → is_taken r l ≡ false → find r.operation_id (l ++ r ∷ []) ≡ some r
unfolding find
find-append_new [] r h = ground (arith, eq_iff r.operation_id r.operation_id)
find-append_new (x ∷ l) r h = ground (arith, find-append_new l r)

-- A new row is refused and nothing changes, or its keys are free and it stands at the end.
pub insert-cases :
    (r : Row) (w : World)
    → ((e : WriteError) × (insert r w ≡ (err e, w)))
      ⊎ ((is_taken r w.db.operations ≡ false)
          × (checks_hold r ≡ true)
          × (insert r w
              ≡ (ok tt, record w { db = record w.db { operations = w.db.operations ++ r ∷ [] } })))
unfolding insert
insert-cases r w = elim (Bool-cases (checks_hold r)) [
  | inr e ↦ inl (integrity_error "write_operations", rw e)
  | inl e ↦ elim (Bool-cases (is_taken r w.db.operations)) [
    | inl t ↦ inl (integrity_error "write_operations", rw (e, t))
    | inr t ↦ inr (t, e, rw (e, t))
  ]
]

-- The fields of a new operation that do not come from the database.
pub record IsFresh (r : Row) : Type 0 where
  pub starts : r.state ≡ prepared
  pub unsigned : r.signature_base64 ≡ none
  pub unsent : r.document_id ≡ none
  pub owned : filled r.expected_inn ≡ true
  pub mapped : decision_document r.decision ≡ some (r.document_type, r.operation_reason)

module _ ⦃py : Runtime⦄ where
  prepare_new-Follows : (r : Row) → IsFresh r → Moves Follows (prepare_new r)
  unfolding prepare_new ◌>>=◌
  prepare_new-Follows r p = record {
    at = λ w. elim (insert-cases r w) [
      | inl (e, i) ↦ rw i (Follows-preorder.rfl w)
      | inr (free, checked, i) ↦ rw i (record {
        steps =
            next
              (next here (
                open_operation r
                  (entry w r.operation_id "OPERATION_PREPARED" none (some prepared) _)
                  (record {
                    free = free;
                    checked = checked;
                    starts = p.starts;
                    unsigned = p.unsigned;
                    unsent = p.unsent;
                    owned = p.owned;
                    mapped = p.mapped;
                  })
                  (record { numbered = refl }) refl refl refl refl))
              (change r
                (λ x. record x { state = awaiting_signature; updated_at = py.now (w.reads + 1) })
                (record {
                  id = _;
                  operation_id = r.operation_id;
                  action = "SIGNING_REQUEST_PENDING";
                  from_state = some prepared;
                  to_state = some awaiting_signature;
                  details_json = _;
                  created_at = _;
                })
                (find-append_new w.db.operations r free) (λ x. refl)
                (move awaiting_signature (py.now (w.reads + 1)) (rw p.starts) refl)
                (record { numbered = refl }) refl (rw p.starts) refl refl);
        posts = refl;
      })
    ];
  }

  prepare_guards_keep :
      (decision : Decision) (document_type reason pg inn : String) (document : ExactDocument)
      → Moves Same (prepare_guards decision document_type reason pg inn document)
  unfolding prepare_guards
  prepare_guards_keep decision document_type reason pg inn document =
      search (Same-preorder, Moves-lift, Moves-require, Moves-bind) depth 20

  prepare_guards_owned :
      (decision : Decision) (document_type reason pg inn : String) (document : ExactDocument)
      (w : World) (u : Unit {0})
      → (prepare_guards decision document_type reason pg inn document w).0 ≡ ok u
      → filled inn ≡ true
  unfolding prepare_guards ◌>>=◌
  prepare_guards_owned decision document_type reason pg inn document w u h = ground arith

  prepare_guards_mapped :
      (decision : Decision) (document_type reason pg inn : String) (document : ExactDocument)
      (w : World) (u : Unit {0})
      → (prepare_guards decision document_type reason pg inn document w).0 ≡ ok u
      → decision_document decision ≡ some (document_type, reason)
  unfolding prepare_guards ◌>>=◌
  prepare_guards_mapped decision document_type reason pg inn document w u h =
      elim (Option-cases (decision_document decision)) [
        | inl n ↦ absurd (ground arith)
        | inr (p, e) ↦ rw e (ground (arith, eq_iff document_type p.0, eq_iff reason p.1))
      ]

  prepare_replay-Follows :
      (r : Row) (inn : String) (document : ExactDocument)
      → Moves Follows (prepare_replay r inn document)
  unfolding prepare_replay
  prepare_replay-Follows r inn document = search follows_rules depth 12

  prepare_found-Follows :
      (o : Option Row) (r : Row) (document : ExactDocument)
      → IsFresh r
      → Moves Follows (prepare_found o r document)
  prepare_found-Follows none r document p =
      Moves-bind Follows-preorder _ _ (prepare_new-Follows r p) (λ _. Moves-pure Follows-preorder _)
  prepare_found-Follows (some x) r document p =
      Moves-bind Follows-preorder _ _ (prepare_replay-Follows x r.expected_inn document)
        (λ _. Moves-pure Follows-preorder _)

  prepared_or_get-Follows :
      (k : String) (o : Option OperationRecord) → Moves Follows (prepared_or_get k o)
  prepared_or_get-Follows k none = get-Follows k
  prepared_or_get-Follows k (some x) = Moves-pure Follows-preorder x

  prepare_body-Follows :
      (r : Row) (document : ExactDocument) → IsFresh r → Moves Follows (prepare_body r document)
  unfolding prepare_body
  prepare_body-Follows r document p =
      Moves-bind Follows-preorder _ _ (Moves-gets Follows-preorder _)
        (λ o. prepare_found-Follows o r document p)

  pub prepare-Follows :
      (event_id : String) (decision : Decision) (document_type reason pg inn : String)
      (document : ExactDocument)
      → Moves Follows (prepare event_id decision document_type reason pg inn document)
  unfolding prepare
  prepare-Follows event_id decision document_type reason pg inn document = record {
    at = λ w.
        at_read Follows-reflexive _ _ w
          ((prepare_guards_keep decision document_type reason pg inn document).at w).same
          λ u g.
            (Moves-bind Follows-preorder _ _ utc_now-Follows λ now.
                Moves-bind Follows-preorder _ _
                  (transaction-Follows _ (
                    prepare_body-Follows _ document (record {
                      starts = refl;
                      unsigned = refl;
                      unsent = refl;
                      owned =
                          prepare_guards_owned decision document_type reason pg inn document w u g;
                      mapped =
                          prepare_guards_mapped decision document_type reason pg inn document w u g;
                    })))
                  λ o. prepared_or_get-Follows _ o).at
              w;
  }
