-- ===== src/WritePipeline/AtMostOnce.antt =====
-- The pipeline of wbcz/write_pipeline.py sends at most one create request for an operation.
use fbs_chz.Prelude.{
  ℕ, ◌+◌, ◌≤◌, String, some, List, [], ◌∷◌, ◌++◌, ◌≡◌, ◌⊎◌, refl, inl, inr, arith, length, leb,
  ◌==◌, eq_of_==, ==-eq_self, Bool-cases, Option-cases, if◌then◌else◌,
}
use fbs_chz.Runtime.{Runtime, end_fields}
use fbs_chz.Effect.{Result, ok, err, lift, ◌>>=◌, Result-cases}
use fbs_chz.Effect.Rules.{
  Moves, IsPreorder, IsReflexive, Moves-pure, Moves-require, Moves-bind, at_require, at_lift,
}
use fbs_chz.WritePipeline.Types.{WriteState, WriteError, type_name, OperationRecord}
use fbs_chz.WritePipeline.Schema.{World, Action, CreateRequest, find, transaction}
use fbs_chz.WritePipeline.Transition.{get, transition, transition_body}
use fbs_chz.WritePipeline.Store.{reserve_submit, submit_guards}
use fbs_chz.WritePipeline.Adapter.{Writer, post_json, read_create, create}
use fbs_chz.WritePipeline.Pipeline.{
  Pipeline, attempt, handle, signature_text, prepare_command, sign_command, poll_command,
  review_command, error_command, reconcile_command, note_command, send, submit, Command,
  submit_command, perform, run,
}
use fbs_chz.WritePipeline.Steps.{Follows}
use fbs_chz.WritePipeline.Follows.{entry}
use fbs_chz.WritePipeline.Reserved.{reserved_of, reserved_of-append, Steps-reserved}
use fbs_chz.WritePipeline.Ranks.{rank_at, Steps-rank, find-update_self}
use fbs_chz.WritePipeline.Methods.{
  complete_submit-Follows, mark_submit_ambiguous-Follows, reserve_submit-Follows,
}
use fbs_chz.WritePipeline.Flow.{writer_of-Follows, perform-Follows}

-- The requests that the submission of an operation has sent.
abbrev pub requests_of : String → List (String × CreateRequest) → ℕ
requests_of k [] = 0
requests_of k ((j, q) ∷ l) = (if j == k then 1 else 0) + requests_of k l

-- How many an operation may have sent by the rank of its state: none up to SIGNED.
abbrev pub quota : ℕ → ℕ
quota n = if leb 4 n then 1 else 0

-- Each operation has sent at most one request, none up to SIGNED and none without a reservation.
pub record IsThrifty (w : World) : Type 0 where
  pub thrifty : (k : String) → requests_of k w.posts ≤ quota (rank_at k w)
  pub told : (k : String) → requests_of k w.posts ≤ reserved_of k w.db.audit

quota_mono : (m n : ℕ) → m ≤ n → quota m ≤ quota n
quota_mono m n h = ground arith

-- A relation that keeps the property, as a preorder on worlds.
record Keeps (v w : World) : Type 0 where
  keeps : IsThrifty v → IsThrifty w

Keeps-preorder : IsPreorder Keeps
Keeps-preorder = record {
  rfl = λ s. record { keeps = λ h. h };
  trans = λ s t u h g. record { keeps = λ x. g.keeps (h.keeps x) };
}

Follows-IsThrifty : {v w : World} → Follows v w → IsThrifty v → IsThrifty w
Follows-IsThrifty {v} {w} f h = record {
  thrifty = λ k.
      rw f.posts
        (omega (arith, h.thrifty k, quota_mono (rank_at k v) (rank_at k w) (Steps-rank f.steps k)));
  told = λ k. rw f.posts (omega (arith, h.told k, Steps-reserved f.steps k));
}

requests_of-append :
    (k j : String) (q : CreateRequest) (l : List (String × CreateRequest))
    → requests_of k (l ++ (j, q) ∷ []) ≡ requests_of k l + (if j == k then 1 else 0)
requests_of-append k j q [] = omega arith
requests_of-append k j q ((i, x) ∷ l) = omega (arith, requests_of-append k j q l)

-- The tables stay, and at most one request goes out, for `k`.
record Sends (k : String) (v w : World) : Type 0 where
  tables : w.db ≡ v.db
  sent : (w.posts ≡ v.posts) ⊎ ((q : CreateRequest) × (w.posts ≡ v.posts ++ (k, q) ∷ []))

module _ ⦃py : Runtime⦄ where
  send_one :
      (x : Writer) (k : String) (q : CreateRequest) (w : World)
      → ((post_json x k q >>= λ r. lift (read_create x r)) w).1
        ≡ record w { posts = w.posts ++ (k, q) ∷ [] }
  unfolding post_json ◌>>=◌
  send_one x k q w = elim (Result-cases (x.transport.post_json (length w.posts) q)) [
    | inl (a, e) ↦ rw e refl
    | inr (a, e) ↦ rw e refl
  ]

  create-Sends : (x : Writer) (k t d s : String) (w : World) → Sends k w (create x k t d s w).1
  unfolding create
  create-Sends x k t d s w = at_require stays _ _ _ w λ a. at_lift stays _ _ w λ document b.
      at_lift stays _ _ w
        λ signature c. rw send_one (record { tables = refl; sent = inr (_, refl) })
    where
      stays : IsReflexive (Sends k)
      stays = record { rfl = λ v. record { tables = refl; sent = inl refl } }

  -- A reservation that succeeds found the operation signed, left it reserved and told the audit.
  pub reserve_submit-rank :
      (k : String) (w : World) (op : OperationRecord)
      → (reserve_submit k w).0 ≡ ok op
      → (rank_at k w ≡ 3)
        × (rank_at k (reserve_submit k w).1 ≡ 4)
        × (1 ≤ reserved_of k (reserve_submit k w).1.db.audit)
  unfolding reserve_submit submit_guards transition transition_body get transaction ◌>>=◌
  reserve_submit-rank k w op h = elim (Option-cases (find k w.db.operations)) [
    | inl n ↦ absurd (ground arith)
    | inr (r, s) ↦ ground (
      arith,
      find-update_self k
          (λ x. record x { state = WriteState.submitting; updated_at = py.now w.reads })
          w.db.operations (λ x. refl),
      reserved_of-append k w.db.audit (
          entry (record w { reads = w.reads + 1 }) k "SUBMIT_RESERVED" (some r.state)
            (some WriteState.submitting) end_fields),
      ==-eq_self k,
    )
  ]

  -- After a reservation the request fits the quota of its operation.
  Sends-IsThrifty :
      (k : String) (u v w : World)
      → rank_at k u ≡ 3
      → rank_at k v ≡ 4
      → 1 ≤ reserved_of k v.db.audit
      → Follows u v
      → Sends k v w
      → IsThrifty u
      → IsThrifty w
  Sends-IsThrifty k u v w low high told f s h = record {
    thrifty = λ j.
        let before = (Follows-IsThrifty f h).thrifty j in
        let first = h.thrifty k in
        rw s.tables (elim s.sent [
          | inl same ↦ rw same before
          | inr (q, more) ↦
              rw (more, requests_of-append j k q v.posts)
                (elim (Bool-cases (k == j)) [
                  | inl e ↦ rw (e, ← eq_of_== k j e, high) (rw (f.posts) (ground (arith, first)))
                  | inr e ↦ rw e (omega (arith, before))
                ])
        ]);
    told = λ j.
        let before = (Follows-IsThrifty f h).told j in
        let first = h.thrifty k in
        rw s.tables (elim s.sent [
          | inl same ↦ rw same before
          | inr (q, more) ↦
              rw (more, requests_of-append j k q v.posts)
                (elim (Bool-cases (k == j)) [
                  | inl e ↦ rw (e, ← eq_of_== k j e) (rw (f.posts) (ground (arith, first, told)))
                  | inr e ↦ rw e (omega (arith, before))
                ])
        ]);
  }

  Moves-Keeps : {A : Type 0} {m : Action A} → Moves Follows m → Moves Keeps m
  Moves-Keeps h = record { at = λ w. record { keeps = Follows-IsThrifty (h.at w) } }

  send-IsThrifty :
      (x : Writer) (k : String) (op : OperationRecord) (u v : World)
      → rank_at k u ≡ 3
      → rank_at k v ≡ 4
      → 1 ≤ reserved_of k v.db.audit
      → Follows u v
      → IsThrifty u
      → IsThrifty (send x k op v).1
  unfolding send attempt
  send-IsThrifty x k op u v low high told f h =
      handle_after (λ a. Moves-Keeps (complete_submit-Follows k a))
        (λ e. Moves-Keeps (mark_submit_ambiguous-Follows k (type_name e)))
        (create x k op.document_type op.product_document_base64 (signature_text op.signature_base64)
          v)
        (Sends-IsThrifty k u v _ low high told f (create-Sends x k _ _ _ v) h)
    where
      handle_after :
          {A B : Type 0} {f : A → Action B} {g : WriteError → Action B}
          → ((a : A) → Moves Keeps (f a))
          → ((e : WriteError) → Moves Keeps (g e))
          → (r : Result WriteError A × World) → IsThrifty r.1
          → IsThrifty (handle r f g).1
      handle_after kf kg (ok a, w) t = ((kf a).at w).keeps t
      handle_after kf kg (err e, w) t = ((kg e).at w).keeps t

  reserve_and_send :
      (x : Writer) (k : String) (w : World)
      → IsThrifty w
      → IsThrifty ((reserve_submit k >>= λ op. send x k op) w).1
  unfolding ◌>>=◌
  reserve_and_send x k w h = elim (Result-cases (reserve_submit k w).0) [
    | inl (op, e) ↦ rw e (
        let (low, high, told) = reserve_submit-rank k w op e in
        send-IsThrifty x k op w (reserve_submit k w).1 low high told
          ((reserve_submit-Follows k).at w) h)
    | inr (x, e) ↦ rw e (Follows-IsThrifty ((reserve_submit-Follows k).at w) h)
  ]

  submit-Keeps : (p : Pipeline) (k : String) → Moves Keeps (submit p k)
  unfolding submit
  submit-Keeps p k = Moves-bind Keeps-preorder _ _ (Moves-require Keeps-preorder _ _) λ _.
      Moves-bind Keeps-preorder _ _ (Moves-Keeps (writer_of-Follows p.writer))
        λ x. record { at = λ w. record { keeps = reserve_and_send x k w } }

  perform-Keeps : (p : Pipeline) (c : Command) → Moves Keeps (perform p c)
  unfolding perform
  perform-Keeps p (submit_command k) =
      Moves-bind Keeps-preorder _ _ (submit-Keeps p k) (λ _. Moves-pure Keeps-preorder tt)
  perform-Keeps p (prepare_command e d t r g i x) =
      Moves-Keeps (perform-Follows p (prepare_command e d t r g i x) refl)
  perform-Keeps p (sign_command response) =
      Moves-Keeps (perform-Follows p (sign_command response) refl)
  perform-Keeps p (poll_command k) = Moves-Keeps (perform-Follows p (poll_command k) refl)
  perform-Keeps p (review_command k r) = Moves-Keeps (perform-Follows p (review_command k r) refl)
  perform-Keeps p (error_command k t) = Moves-Keeps (perform-Follows p (error_command k t) refl)
  perform-Keeps p (reconcile_command k b d) =
      Moves-Keeps (perform-Follows p (reconcile_command k b d) refl)
  perform-Keeps p (note_command k a d) = Moves-Keeps (perform-Follows p (note_command k a d) refl)

  run-IsThrifty :
      (p : Pipeline) (cs : List Command) (w : World) → IsThrifty w → IsThrifty (run p w cs)
  unfolding run
  run-IsThrifty p [] w h = h
  run-IsThrifty p (c ∷ cs) w h =
      run-IsThrifty p cs (perform p c w).1 (((perform-Keeps p c).at w).keeps h)

  -- From a world with no request on record, whatever calls are made, at most one create request has
  -- gone out for each operation: none for one whose state has not come past SIGNED, and no more than
  -- the entries of the audit that tell of its reservation, so none for one that was never reserved.
  pub submit_at_most_once :
      (p : Pipeline) (cs : List Command) (w : World)
      → w.posts ≡ []
      → (k : String)
      → (requests_of k (run p w cs).posts ≤ quota (rank_at k (run p w cs)))
        × (requests_of k (run p w cs).posts ≤ reserved_of k (run p w cs).db.audit)
  submit_at_most_once p cs w e k =
      let t =
        run-IsThrifty p cs w
          (record { thrifty = λ j. rw e (omega arith); told = λ j. rw e (omega arith) }) in
      (t.thrifty k, t.told k)
