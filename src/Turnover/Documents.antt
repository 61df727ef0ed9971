-- ===== src/Turnover/Documents.antt =====
-- What the documents of wbcz/turnover.py are: their bounds, their rules, and that the write pipeline
-- takes them.
use fbs_chz.Effect.Checks.{bind-ok, check, check-ok}
use fbs_chz.Prelude.{
  String, Bool, true, false, Option, none, some, [], ◌∷◌, ◌≡◌, ap, refl, filled, ◌==◌,
  if◌then◌else◌, arith, eq_of_==, ==-eq_self,
}
use fbs_chz.Runtime.{Runtime, Bytes, Json, JsonFields}
use fbs_chz.Models.{Decision, ready_to_withdraw, ready_to_return}
use fbs_chz.Effect.{Result, ok-injective, ok, err, ◌>>=◌, lift, require}
use fbs_chz.WritePipeline.Types.{WriteError, ExactDocument}
use fbs_chz.WritePipeline.Adapter.{
  from_json_value, from_utf8_json_bytes, parsed_text, parsed_object, is_object,
}
use fbs_chz.WritePipeline.Schema.{World}
use fbs_chz.WritePipeline.Transition.{decision_document, is_allowed_type}
use fbs_chz.WritePipeline.Prepare.{prepare_guards, same_bytes}
use fbs_chz.Turnover.Fields.{Library}
use fbs_chz.Turnover.Parts.{fields_of}
use fbs_chz.Turnover.Snapshots.{
  TurnoverOperationKind, withdraw_distance, return_remote_sale, or_empty,
}
use fbs_chz.Turnover.Operations.{
  TypedDocument, distance, lp_return, is_expected, is_executable, is_remote, type_of_document,
  document_type_of, reason_of, PreparedTurnoverDocument, to_wire, built, prepare_turnover_document,
}

-- The decision of the control engine for which the write pipeline takes a document.
abbrev pub pipeline_decision : TurnoverOperationKind → Option Decision
pipeline_decision withdraw_distance = some ready_to_withdraw
pipeline_decision return_remote_sale = some ready_to_return
pipeline_decision _ = none

-- A document that is hashed and encoded as the pipeline wants it.
pub record IsExact ⦃py : Runtime⦄ (e : ExactDocument) : Type 0 where
  pub hash : e.sha256 ≡ py.sha256_hex e.payload
  pub base64 : e.product_document_base64 ≡ py.b64encode e.payload

if_ok :
    {A E : Type 0} (b : Bool) (v a : A) (x : E)
    → Path (Result E A) (if b then ok v else err x) (ok a)
    → v ≡ a
if_ok true v a x h = ok-injective v a h
if_ok false v a x h = absurd (ground arith)

module _ ⦃py : Runtime⦄ where
  same_bytes_self : (b : Bytes) → same_bytes b b ≡ true
  same_bytes_self [] = refl
  same_bytes_self (x ∷ b) = ground (arith, same_bytes_self b)

  object-IsExact :
      (b : Bytes) (o : Option Json) (e : ExactDocument) → parsed_object b o ≡ ok e → IsExact e
  object-IsExact b none e h = absurd (ground arith)
  object-IsExact b (some j) e h =
      rw (← if_ok (is_object j) _ e _ h) (record { hash = refl; base64 = refl })

  text-IsExact :
      (b : Bytes) (o : Option String) (e : ExactDocument) → parsed_text b o ≡ ok e → IsExact e
  text-IsExact b none e h = absurd (ground arith)
  text-IsExact b (some t) e h = object-IsExact b (py.loads t) e h

  bytes-IsExact : (b : Bytes) (e : ExactDocument) → from_utf8_json_bytes b ≡ ok e → IsExact e
  unfolding from_utf8_json_bytes
  bytes-IsExact [] e h = absurd (ground arith)
  bytes-IsExact (x ∷ b) e h = text-IsExact (x ∷ b) (py.utf8_decode (x ∷ b)) e h

  built-IsExact :
      (v : JsonFields) (e : ExactDocument) → built (from_json_value v) ≡ ok e → IsExact e
  unfolding from_json_value
  built-IsExact v e h = returned (from_json_value v) h λ q. bytes-IsExact _ e q
    where
      returned :
          (r : Result WriteError ExactDocument)
          → built r ≡ ok e
          → (r ≡ ok e → IsExact e)
          → IsExact e
      returned (ok d) h k = k (ap ok (ok-injective d e h))
      returned (err x) h k = absurd (ground arith)

  -- The guards of the pipeline let a document through that is mapped to its decision.
  guards_pass :
      (decision : Decision) (kind reason inn : String) (e : ExactDocument) (w : World)
      → ((b : Bytes) → py.b64decode (py.b64encode b) ≡ some b)
      → decision_document decision ≡ some (kind, reason)
      → is_allowed_type kind ≡ true
      → filled inn ≡ true
      → IsExact e
      → prepare_guards decision kind reason "lp" inn e w ≡ (ok tt, w)
  unfolding prepare_guards ◌>>=◌ lift require
  guards_pass decision kind reason inn e w codec mapped allowed given exact =
      rw
        (
          mapped,
          ==-eq_self kind,
          ==-eq_self reason,
          allowed,
          given,
          exact.base64,
          codec e.payload,
          same_bytes_self e.payload,
          exact.hash,
          ==-eq_self (py.sha256_hex e.payload),
        )
        refl

same_decision : (a b : Decision) → Path (Option Decision) (some a) (some b) → a ≡ b
same_decision a b h = ap value h
  where
    value : Option Decision → Decision
    value (some x) = x
    value none = a

-- The mapping of the pipeline's decisions is the registry's.
mapped_decision :
    (kind : TurnoverOperationKind) (d : TypedDocument) (decision : Decision)
    → pipeline_decision kind ≡ some decision
    → is_expected kind d ≡ true
    → is_remote kind d ≡ true
    → (decision_document decision ≡ some (document_type_of kind, or_empty (reason_of d)))
      × (is_allowed_type (document_type_of kind) ≡ true)
unfolding is_expected is_remote reason_of document_type_of decision_document
mapped_decision withdraw_distance (distance d) decision h e r =
    (rw (← same_decision ready_to_withdraw decision h) refl, refl)
mapped_decision return_remote_sale (lp_return d) decision h e r = (
  rw (← same_decision ready_to_return decision h, eq_of_== d.return_type "REMOTE_SALE_RETURN" r)
      refl,
  refl,
)
mapped_decision _ _ decision h e r = absurd (ground arith)

module _ ⦃py : Runtime⦄ ⦃lib : Library⦄ where
  -- A document that `prepare_turnover_document` has prepared for a remote sale or its return passes
  -- every guard of the write pipeline's `prepare`, for the decision of the control engine, any filled
  -- INN and any world, and leaves the world as it is: where Base64 decodes what it has encoded.
  pub prepared_passes_guards :
      (kind : TurnoverOperationKind) (d : TypedDocument) (p : PreparedTurnoverDocument)
      (decision : Decision) (inn : String) (w : World)
      → ((b : Bytes) → py.b64decode (py.b64encode b) ≡ some b)
      → pipeline_decision kind ≡ some decision
      → filled inn ≡ true
      → prepare_turnover_document kind d ≡ ok p
      → prepare_guards decision p.document_type
          (or_empty p.raw_business_reason)
          p.pg
          inn
          p.exact_document
          w
        ≡ (ok tt, w)
  unfolding prepare_turnover_document
  prepared_passes_guards kind d p decision inn w codec approved given h =
      let (a, executable, h1) = bind-ok (check (is_executable kind) _) _ p h in
      let (b, expected, h2) = bind-ok (check (is_expected kind d) _) _ p h1 in
      let (c, remote, h3) = bind-ok (check (is_remote kind d) _) _ p h2 in
      let (e, typed, h4) = bind-ok (check (type_of_document d == document_type_of kind) _) _ p h3 in
      let (wire, wired, h5) = bind-ok (to_wire d) _ p h4 in
      let (exact, frozen, h6) = bind-ok (built (from_json_value (fields_of wire))) _ p h5 in
      let (mapped, allowed) =
        mapped_decision kind d decision approved (check-ok _ _ b expected)
          (check-ok _ _ c remote) in
      rw (← ok-injective _ p h6) (
        guards_pass decision (document_type_of kind) (or_empty (reason_of d)) inn exact w codec
          mapped allowed given (built-IsExact (fields_of wire) exact frozen))
