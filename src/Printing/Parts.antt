-- ===== src/Printing/Parts.antt =====
-- What each part of an execution of wbcz/physical_printing.py may do: all but the spooler start no
-- document, and the spooler starts at most one.
use fbs_chz.Prelude.{
  ℕ, ◌≤◌, ◌+◌, String, Bool, Option, none, some, [], ◌∷◌, ◌++◌, ◌≡◌, ◌≢◌, ◌⊎◌, refl, inl, inr,
  arith,
}
use fbs_chz.Runtime.{Runtime, Bytes}
use fbs_chz.Effect.{◌>>=◌, Result, lift, pure, require, modify, recover}
use fbs_chz.Effect.Rules.{
  Moves, Moves-pure, Moves-raise, Moves-lift, Moves-require, Moves-bind, Moves-recover,
}
use fbs_chz.Effect.Mixed.{Composes, bind_mixed, recover_mixed}
use fbs_chz.Printing.Contracts.{
  PrintError, PhysicalExecutionControl, PhysicalRenderContract, replay_blocked, definite_pre_spool,
  ambiguous_after_spool, physical_error, security_error, printing_contract_error,
  printing_security_error, profile_contract_error, other,
}
use fbs_chz.Printing.Replay.{blocked, Evidence, Message, PrintWorld, PrintAction}
use fbs_chz.Printing.Raster.{PhysicalLabelRaster}
use fbs_chz.Printing.Spooler.{
  Gdi, GdiSpoolOutcome, print_page, after_start, start_document, submit_raster, log_document,
}
use fbs_chz.Printing.Agent.{Agent, resolve, tell, contract_guards, raster_guards}
use fbs_chz.Printing.Execution.{
  on_job_created, record_and_report, spool, spool_failed, spooled, verified_raster, note_job,
}
use fbs_chz.Printing.Ranks.{Forward, Forward-preorder, Forward-same}
use fbs_chz.Printing.Calm.{
  Calm, Calm-preorder, Calm-counted, record-Calm, begins_of, begins_of-append,
}

Calm-pure : {A : Type 0} (a : A) → Moves {E = PrintError} Calm (pure a)
Calm-pure a = Moves-pure Calm-preorder a

Calm-lift : {A : Type 0} (r : Result PrintError A) → Moves Calm (lift r)
Calm-lift r = Moves-lift Calm-preorder r

Calm-require : (b : Bool) (e : PrintError) → Moves Calm (require b e)
Calm-require b e = Moves-require Calm-preorder b e

Calm-bind :
    {A B : Type 0} {m : PrintAction A} {f : A → PrintAction B}
    → Moves Calm m
    → ((a : A) → Moves Calm (f a))
    → Moves Calm (m >>= f)
Calm-bind km kf = Moves-bind Calm-preorder _ _ km kf

-- A document may be started for `k`, one at most.
pub record Starts (k : String) (v w : PrintWorld) : Type 0 where
  pub forward : Forward v w
  pub documents : (w.documents ≡ v.documents) ⊎ (w.documents ≡ v.documents ++ k ∷ [])
  pub begun : (j : String) → begins_of j v.messages ≤ begins_of j w.messages

quiet_first : (k : String) → Composes Calm (Starts k) (Starts k)
quiet_first k = record {
  alone = λ s t h. record { forward = h.forward; documents = inl h.documents; begun = h.begun };
  both = λ s t u h g. record {
    forward = Forward-preorder.trans s t u h.forward g.forward;
    documents = rw (← h.documents) g.documents;
    begun = λ j. omega (arith, h.begun j, g.begun j);
  };
}

quiet_last : (k : String) → Composes (Starts k) Calm (Starts k)
quiet_last k = record {
  alone = λ s t h. h;
  both = λ s t u h g. record {
    forward = Forward-preorder.trans s t u h.forward g.forward;
    documents = rw g.documents h.documents;
    begun = λ j. omega (arith, h.begun j, g.begun j);
  };
}

module _ (agent : Agent) where
  pub tell-Calm : (m : Message) → Moves Calm (tell agent m)
  unfolding tell
  tell-Calm m = record {
    at = λ w. record {
      forward = Forward-same w (record w { messages = w.messages ++ m ∷ [] }) refl;
      documents = refl;
      begun = λ j. omega (arith, begins_of-append j w.messages m);
    };
  }

  resolve-Calm : (k f : String) → Moves Calm (resolve agent k f)
  unfolding resolve
  resolve-Calm k f =
      Calm-bind
        (record {
          at = λ w. Calm-counted w (record w { resolutions = w.resolutions + 1 }) refl refl refl;
        })
        λ n. Calm-bind (Calm-lift _) λ l. Calm-bind (Calm-lift _) λ d.
          Calm-bind (Calm-lift _)
            λ c. Calm-bind (Calm-lift _) λ p. Calm-bind (Calm-require _ _) λ a. Calm-pure _

module _ (c : PhysicalExecutionControl) (r : PhysicalRenderContract) where
  contract_guards-Calm : ⦃py : Runtime⦄ (b : Bytes) → Moves Calm (contract_guards c r b)
  unfolding contract_guards
  contract_guards-Calm b = Calm-bind (Calm-require _ _) λ a. Calm-bind (Calm-require _ _) λ a.
      Calm-bind (Calm-require _ _)
        λ a. Calm-bind (Calm-require _ _) λ a. Calm-bind (Calm-require _ _) λ a. Calm-require _ _

  raster_guards-Calm : (x : PhysicalLabelRaster) → Moves Calm (raster_guards c r x)
  unfolding raster_guards
  raster_guards-Calm x = Calm-bind (Calm-require _ _) λ a. Calm-require _ _

module _ (g : Gdi) (x : PhysicalLabelRaster) (f : ℕ → PrintAction (Unit {0}))
    (kf : (n : ℕ) → Moves Calm (f n)) where
  print_page-Calm : (n : ℕ) → Moves Calm (print_page g x f n)
  unfolding print_page
  print_page-Calm n = Calm-bind (kf n) λ a. Calm-bind (Calm-lift _) λ a.
      Calm-bind (Calm-require _ _) λ a. Calm-bind (Calm-lift _) λ a. Calm-bind (Calm-lift _) λ a.
        Calm-bind (Calm-require _ _) λ a. Calm-bind (Calm-lift _) λ a.
          Calm-bind (Calm-require _ _)
            λ a. Calm-bind (Calm-lift _) λ a. Calm-bind (Calm-require _ _) λ a. Calm-pure _

  after_start-Calm : (n : ℕ) → Moves Calm (after_start g x f n)
  unfolding after_start
  after_start-Calm n =
      Moves-recover Calm-preorder _ _ _ (Calm-bind (Calm-require _ _) λ a. print_page-Calm n)
        (λ a. Calm-pure a) λ e. Moves-raise Calm-preorder _

  log-Starts : (k : String) → Moves {E = PrintError} (Starts k) (log_document k)
  unfolding modify
  log-Starts k = record {
    at = λ w. record {
      forward = Forward-same w (record w { documents = w.documents ++ k ∷ [] }) refl;
      documents = inr refl;
      begun = λ j. omega arith;
    };
  }

  start_document-Starts : (k : String) → Moves (Starts k) (start_document g x f k)
  unfolding start_document
  start_document-Starts k = bind_mixed (quiet_first k) _ _ (Calm-lift _) λ a.
      bind_mixed (quiet_first k) _ _ (Calm-lift _)
        λ a. bind_mixed (quiet_last k) _ _ (log-Starts k) λ a. Calm-lift _

  submit_raster-Starts : (k q : String) → Moves (Starts k) (submit_raster g x f k q)
  unfolding submit_raster
  submit_raster-Starts k q = bind_mixed (quiet_first k) _ _ (Calm-require _ _) λ a.
      bind_mixed (quiet_first k) _ _ (Calm-lift _) λ a.
        bind_mixed (quiet_first k) _ _ (Calm-require _ _) λ a.
          bind_mixed (quiet_first k) _ _ (Calm-require _ _) λ a.
            bind_mixed (quiet_first k) _ _ (Calm-require _ _) λ a.
              recover_mixed (quiet_last k) _ _ _ (start_document-Starts k) (λ n. after_start-Calm n)
                λ e. Moves-raise Calm-preorder _

module _ ⦃py : Runtime⦄ (agent : Agent) (c : PhysicalExecutionControl) where
  report-Calm : (e : Evidence) → e.state ≢ blocked → Moves Calm (record_and_report agent c e)
  report-Calm e h = Calm-bind (record-Calm _ _ e h) λ a. tell-Calm agent _

  note_job-Calm : (o : Option ℕ) → Moves Calm (note_job agent c o)
  note_job-Calm none = Calm-pure tt
  note_job-Calm (some job) = record-Calm _ _ _ λ h. absurd (ground arith)

  pub spooled-Calm : (o : GdiSpoolOutcome) → Moves Calm (spooled agent c o)
  unfolding spooled
  spooled-Calm o =
      Calm-bind (record-Calm _ _ _ λ h. absurd (ground arith))
        λ a. Calm-bind (report-Calm _ λ h. absurd (ground arith)) λ b. Calm-pure _

  pub spool_failed-Calm : (e : PrintError) → Moves Calm (spool_failed agent c e)
  unfolding spool_failed
  spool_failed-Calm (definite_pre_spool code) =
      Calm-bind (report-Calm _ λ h. absurd (ground arith)) λ b. Calm-pure _
  spool_failed-Calm (ambiguous_after_spool code job) =
      Calm-bind (note_job-Calm job)
        λ a. Calm-bind (report-Calm _ λ h. absurd (ground arith)) λ b. Calm-pure _
  spool_failed-Calm (physical_error m) = Moves-raise Calm-preorder _
  spool_failed-Calm (security_error m) = Moves-raise Calm-preorder _
  spool_failed-Calm (replay_blocked m) = Moves-raise Calm-preorder _
  spool_failed-Calm (printing_contract_error m) = Moves-raise Calm-preorder _
  spool_failed-Calm (printing_security_error m) = Moves-raise Calm-preorder _
  spool_failed-Calm (profile_contract_error m) = Moves-raise Calm-preorder _
  spool_failed-Calm (other m) = Moves-raise Calm-preorder _

  pub verified_raster-Calm :
      (r : PhysicalRenderContract) (b : Bytes) → Moves Calm (verified_raster agent c r b)
  unfolding verified_raster
  verified_raster-Calm r b = Calm-bind (contract_guards-Calm c r b) λ a.
      Calm-bind (resolve-Calm agent _ _) λ a.
        Calm-bind (Calm-require _ _)
          λ a. Calm-bind (Calm-lift _) λ a. Calm-bind (raster_guards-Calm c r _) λ a. Calm-pure _

  -- The `try` of the spooler with its three endings.
  pub spool-Starts :
      (r : PhysicalRenderContract) (x : PhysicalLabelRaster)
      → Moves
          (Starts c.execution_id)
          (recover (spool agent c r x) (spooled agent c) (spool_failed agent c))
  unfolding spool on_job_created
  spool-Starts r x =
      recover_mixed (quiet_last c.execution_id) _ _ _
        (bind_mixed (quiet_first c.execution_id) _ _ (resolve-Calm agent _ _) λ p.
          bind_mixed (quiet_first c.execution_id) _ _ (Calm-require _ _) λ a.
            bind_mixed (quiet_first c.execution_id) _ _
              (record {
                at = λ w.
                    Calm-counted w (record w { submissions = w.submissions + 1 }) refl refl refl;
              })
              λ n.
                submit_raster-Starts (agent.device n) x _
                  (λ j. report-Calm _ λ h. absurd (ground arith)) _ _)
        (λ o. spooled-Calm o) λ e. spool_failed-Calm e
