-- ===== src/Printing/Reports.antt =====
-- What an execution of wbcz/physical_printing.py returns is what its row says, and rows only go
-- forward.
use fbs_chz.Prelude.{◌≤◌, String, Option, none, some, List, [], ◌∷◌, ◌≡◌, ◌∙◌, refl, sym, ap, arith}
use fbs_chz.Runtime.{Runtime, Bytes}
use fbs_chz.Effect.{◌>>=◌, ok, err, Result, pure}
use fbs_chz.Effect.Mixed.{bind-returned}
use fbs_chz.Effect.Returns.{Returns, Returns-raise, Returns-bind, Returns-recover, Returns-rescue}
use fbs_chz.Effect.Rules.{Moves, Moves-pure, Moves-lift, Moves-bind, Moves-recover}
use fbs_chz.Printing.Contracts.{
  PrintError, PhysicalExecutionControl, PhysicalRenderContract, replay_blocked, definite_pre_spool,
  ambiguous_after_spool, physical_error, security_error, printing_contract_error,
  printing_security_error, profile_contract_error, other,
}
use fbs_chz.Printing.Replay.{
  ReplayState, PrintWorld, PrintAction, identity_of, record_replay, Evidence, Message, Identity,
}
use fbs_chz.Printing.Spooler.{GdiSpoolOutcome}
use fbs_chz.Printing.Agent.{Agent, tell, Report}
use fbs_chz.Printing.Execution.{
  spool_failed, spooled, cross_and_spool, execute_inner, fail_with, classify_failure, execute,
  execute_all, record_and_report,
}
use fbs_chz.Printing.Ranks.{replay_rank, binding_at, Forward, Forward-preorder, state_at}
use fbs_chz.Printing.Calm.{Calm, record-Calm, record-state}
use fbs_chz.Printing.Parts.{spool-Starts, tell-Calm, verified_raster-Calm}
use fbs_chz.Printing.Once.{cross-Calm, fail_with-Calm}

-- The row of an execution is in the reported state.
abbrev pub Agrees : String → Report → PrintWorld → Type 0
Agrees k report w = state_at k w ≡ some report.state

module _ ⦃py : Runtime⦄ (agent : Agent) (c : PhysicalExecutionControl) where
  tell-rows : (m : Message) (w : PrintWorld) → (tell agent m w).1.rows ≡ w.rows
  unfolding tell
  tell-rows m w = refl

  reported_state :
      (r a : Report) → Path (Result PrintError Report) (ok r) (ok a) → r.state ≡ a.state
  reported_state r a h = ap reported h
    where
      reported : Result PrintError Report → ReplayState
      reported (ok x) = x.state
      reported (err e) = r.state

  -- A write and its report, and then the result.
  report-Agrees :
      (e : Evidence) (report : Report)
      → report.state ≡ e.state
      → Returns (Agrees c.execution_id) (record_and_report agent c e >>= λ a. pure report)
  unfolding pure tell
  report-Agrees e report same = record {
    returned = λ w a h.
        let (x, q, t) = bind-returned _ (record_and_report agent c e) w a h in
        let (y, p, u) = bind-returned _ (record_replay c.execution_id (identity_of c) e) w x q in
        rw (t, u)
          (record-state c.execution_id (identity_of c) e w y p
            ∙ ap some (sym same ∙ reported_state report a (sym (ap (λ z. z.0) t) ∙ h)));
  }

  spooled-Agrees : (o : GdiSpoolOutcome) → Returns (Agrees c.execution_id) (spooled agent c o)
  unfolding spooled
  spooled-Agrees o = Returns-bind _ _ λ a. report-Agrees _ _ refl

  spool_failed-Agrees : (e : PrintError) → Returns (Agrees c.execution_id) (spool_failed agent c e)
  unfolding spool_failed
  spool_failed-Agrees (definite_pre_spool code) = report-Agrees _ _ refl
  spool_failed-Agrees (ambiguous_after_spool code job) =
      Returns-bind _ _ λ a. report-Agrees _ _ refl
  spool_failed-Agrees (physical_error m) = Returns-raise _
  spool_failed-Agrees (security_error m) = Returns-raise _
  spool_failed-Agrees (replay_blocked m) = Returns-raise _
  spool_failed-Agrees (printing_contract_error m) = Returns-raise _
  spool_failed-Agrees (printing_security_error m) = Returns-raise _
  spool_failed-Agrees (profile_contract_error m) = Returns-raise _
  spool_failed-Agrees (other m) = Returns-raise _

  execute_inner-Agrees :
      (r : PhysicalRenderContract) (b : Bytes)
      → Returns (Agrees c.execution_id) (execute_inner agent c r b)
  unfolding execute_inner cross_and_spool
  execute_inner-Agrees r b = Returns-bind _ _ λ x. Returns-bind _ _ λ a. Returns-bind _ _ λ b.
      Returns-bind _ _
        λ a. Returns-bind _ _ λ b. Returns-recover _ _ _ spooled-Agrees spool_failed-Agrees

  fail_with-Agrees :
      (e : PrintError) (o : Option (ReplayState × String))
      → Returns (Agrees c.execution_id) (fail_with agent c e o)
  unfolding fail_with
  fail_with-Agrees e none = Returns-raise e
  fail_with-Agrees e (some (s, code)) =
      Returns-bind _ _ λ o. Returns-bind _ _ λ a. report-Agrees _ _ refl

  execute-Agrees :
      (r : PhysicalRenderContract) (b : Bytes)
      → Returns (Agrees c.execution_id) (execute agent c r b)
  unfolding execute
  execute-Agrees r b = Returns-bind _ _ λ a.
      Returns-rescue _ _ (execute_inner-Agrees r b) λ e. fail_with-Agrees e (classify_failure e)

  -- Where an execution returns, by whichever branch, its row in the durable store is in the state
  -- that it reports.
  pub report_agrees :
      (r : PhysicalRenderContract) (b : Bytes) (w : PrintWorld) (report : Report)
      → (execute agent c r b w).0 ≡ ok report
      → state_at c.execution_id (execute agent c r b w).1 ≡ some report.state
  report_agrees r b w report h = (execute-Agrees r b).returned w report h

  -- Nothing that an execution does takes a row back or binds it to something else.
  execute-Forward : (r : PhysicalRenderContract) (b : Bytes) → Moves Forward (execute agent c r b)
  unfolding execute execute_inner cross_and_spool
  execute-Forward r b = Moves-bind Forward-preorder _ _ (Moves-lift Forward-preorder _) λ a.
      Moves-recover Forward-preorder _ _ _
        (Moves-bind Forward-preorder _ _ (forward (verified_raster-Calm agent c r b)) λ x.
          Moves-bind Forward-preorder _ _ (forward (record-Calm _ _ _ λ h. absurd (ground arith)))
            λ a. Moves-bind Forward-preorder _ _ (forward (tell-Calm agent _)) λ b.
              Moves-bind Forward-preorder _ _ (forward (cross-Calm c)) λ a.
                Moves-bind Forward-preorder _ _ (forward (tell-Calm agent _))
                  λ b. record { at = λ w. ((spool-Starts agent c r x.0).at w).forward })
        (λ x. Moves-pure Forward-preorder x)
        λ e. forward (fail_with-Calm agent c e (classify_failure e))
    where
      forward : {A : Type 0} {m : PrintAction A} → Moves Calm m → Moves Forward m
      forward h = record { at = λ w. (h.at w).forward }

module _ ⦃py : Runtime⦄ (agent : Agent) where
  execute_all-Forward :
      (l : List (PhysicalExecutionControl × PhysicalRenderContract × Bytes)) (w : PrintWorld)
      → Forward w (execute_all agent w l)
  unfolding execute_all
  execute_all-Forward [] w = Forward-preorder.rfl w
  execute_all-Forward ((c, r, b) ∷ l) w =
      Forward-preorder.trans w (execute agent c r b w).1 _ ((execute-Forward agent c r b).at w)
        (execute_all-Forward l (execute agent c r b w).1)

  -- Whatever is executed, no execution goes back: one behind the boundary stays behind it, and one
  -- that the spooler has accepted stays accepted.
  pub replay_never_regresses :
      (l : List (PhysicalExecutionControl × PhysicalRenderContract × Bytes)) (w : PrintWorld)
      (k : String)
      → replay_rank k w ≤ replay_rank k (execute_all agent w l)
  replay_never_regresses l w k = (execute_all-Forward l w).ranks k

  -- Whatever is executed, an execution stays bound to the item, the reservation, the hashes, the
  -- profile and the first reading of the clock that it was recorded with.
  pub binding_kept :
      (l : List (PhysicalExecutionControl × PhysicalRenderContract × Bytes)) (w : PrintWorld)
      (k : String) (b : Identity × String)
      → binding_at k w ≡ some b
      → binding_at k (execute_all agent w l) ≡ some b
  binding_kept l w k b h = (execute_all-Forward l w).bindings k b h
