-- ===== src/Printing/Once.antt =====
-- wbcz/physical_printing.py starts at most one document on a printer for an execution, and only after
-- the execution is recorded and the backend has been asked to begin.
use fbs_chz.Prelude.{
  ℕ, ◌≤◌, ◌+◌, String, true, Option, none, some, List, [], ◌∷◌, ◌++◌, ◌≡◌, ◌∙◌, not, refl, sym, ap,
  length, inl, inr, arith, leb, ◌==◌, if◌then◌else◌, Bool-cases, eq_of_==, ==-eq_self,
}
use fbs_chz.Runtime.{Runtime, Bytes}
use fbs_chz.Effect.{◌>>=◌, ok, require, recover, gets, Result-cases}
use fbs_chz.Effect.Rules.{
  Moves, IsPreorder, Moves-pure, Moves-raise, Moves-gets, Moves-require, Moves-lift, Moves-bind,
  Moves-recover, at_require, at_then,
}
use fbs_chz.Effect.Mixed.{bind-returned}
use fbs_chz.Printing.Contracts.{PrintError, PhysicalExecutionControl, PhysicalRenderContract}
use fbs_chz.Printing.Replay.{
  ReplayState, PrintWorld, PrintAction, identity_of, begin_spool, cross_spool_boundary, get_replay,
  crossing_guard, is_rendered, ReplayRow, find_replay, record_replay, is_irreversible,
  spool_submitting, plainly,
}
use fbs_chz.Printing.Raster.{PhysicalLabelRaster}
use fbs_chz.Printing.Agent.{Agent, tell}
use fbs_chz.Printing.Execution.{
  spool, spool_failed, spooled, cross_and_spool, execute_inner, fail_with, classify_failure,
  execute, execute_all, has_crossed, record_and_report,
}
use fbs_chz.Printing.Ranks.{rank, row_rank, replay_rank}
use fbs_chz.Printing.Calm.{
  Calm, Calm-preorder, Calm-reflexive, record-Calm, record-written, record_at, begins_of,
  begins_of-append, count_of,
}
use fbs_chz.Printing.Parts.{Starts, spool-Starts, tell-Calm, verified_raster-Calm}

-- How many documents an execution may have started: one once it is behind the boundary.
abbrev pub allowance : ℕ → ℕ
allowance n = if leb 1 n then 1 else 0

pub record IsSafe (w : PrintWorld) : Type 0 where
  pub once : (k : String) → count_of k w.documents ≤ allowance (replay_rank k w)
  pub begun : (k : String) → count_of k w.documents ≤ begins_of k w.messages

allowance_mono : (m n : ℕ) → m ≤ n → allowance m ≤ allowance n
allowance_mono m n h = ground arith

allowance-zero : (m n : ℕ) → n ≡ 0 → m ≤ allowance n → m ≡ 0
allowance-zero m n h g = ground arith

Calm-IsSafe : {v w : PrintWorld} → Calm v w → IsSafe v → IsSafe w
Calm-IsSafe {v} {w} c h = record {
  once = λ k. rw c.documents (omega (arith, h.once k, allowance_mono _ _ (c.forward.ranks k)));
  begun = λ k. rw c.documents (omega (arith, h.begun k, c.begun k));
}

count_of-append :
    (k j : String) (l : List String)
    → count_of k (l ++ j ∷ []) ≡ count_of k l + (if j == k then 1 else 0)
count_of-append k j [] = omega arith
count_of-append k j (i ∷ l) = omega (arith, count_of-append k j l)

-- Behind the boundary, with the backend asked and no document yet, one may be started.
Starts-IsSafe :
    (k : String) (v w : PrintWorld)
    → Starts k v w
    → IsSafe v
    → count_of k v.documents ≡ 0
    → 1 ≤ replay_rank k v
    → 1 ≤ begins_of k v.messages
    → IsSafe w
Starts-IsSafe k v w s h z up asked = elim s.documents [
  | inl e ↦ Calm-IsSafe (record { forward = s.forward; documents = e; begun = s.begun }) h
  | inr e ↦ record {
    once = λ j.
        rw (e, count_of-append j k v.documents)
          (elim (Bool-cases (k == j)) [
            | inl q ↦
                rw (q, ← eq_of_== k j q, z)
                  (omega (arith, allowance_mono _ _ up, allowance_mono _ _ (s.forward.ranks k)))
            | inr q ↦ rw q (omega (arith, h.once j, allowance_mono _ _ (s.forward.ranks j)))
          ]);
    begun = λ j.
        rw (e, count_of-append j k v.documents)
          (elim (Bool-cases (k == j)) [
            | inl q ↦ rw (q, ← eq_of_== k j q, z) (omega (arith, asked, s.begun k))
            | inr q ↦ rw q (omega (arith, h.begun j, s.begun j))
          ]);
  }
]

-- A relation that keeps the property.
record Keeps (v w : PrintWorld) : Type 0 where
  keeps : IsSafe v → IsSafe w

Keeps-preorder : IsPreorder Keeps
Keeps-preorder = record {
  rfl = λ s. record { keeps = λ h. h };
  trans = λ s t u h g. record { keeps = λ x. g.keeps (h.keeps x) };
}

Moves-Keeps : {A : Type 0} {m : PrintAction A} → Moves Calm m → Moves Keeps m
Moves-Keeps h = record { at = λ w. record { keeps = Calm-IsSafe (h.at w) } }

module _ ⦃py : Runtime⦄ where
  crossing_guard-ranks :
      (o : Option ReplayRow) (w : PrintWorld) (a : Unit {0})
      → (crossing_guard o w).0 ≡ ok a
      → (row_rank o ≡ 0) × ((crossing_guard o w).1 ≡ w)
  unfolding require
  crossing_guard-ranks none w a h = absurd (ground arith)
  crossing_guard-ranks (some r) w a h = elim (Bool-cases (is_rendered r.state)) [
    | inl e ↦ rw e (rendered-rank r.state e, refl)
    | inr e ↦ absurd (ground arith)
  ]
    where
      rendered-rank : (s : ReplayState) → is_rendered s ≡ true → rank s ≡ 0
      rendered-rank s h = ground arith

  -- A crossing that succeeds found its execution in front of the boundary, and left it behind.
  cross-ranks :
      (c : PhysicalExecutionControl) (w : PrintWorld) (a : Unit {0})
      → (cross_spool_boundary c w).0 ≡ ok a
      → (replay_rank c.execution_id w ≡ 0)
        × (1 ≤ replay_rank c.execution_id (cross_spool_boundary c w).1)
  unfolding cross_spool_boundary get_replay ◌>>=◌
  cross-ranks c w a h =
      let o = find_replay c.execution_id w.rows in
      let write = record_replay c.execution_id (identity_of c) (plainly spool_submitting) in
      let (x, q, t) = bind-returned (λ y. write) (crossing_guard o) w a h in
      let (low, same) = crossing_guard-ranks o w x q in
      (
        low,
        rw (t, same)
            (rw
              (record-written c.execution_id (identity_of c) (plainly spool_submitting) w a
                (rw (← same) (sym (ap (λ p. p.0) t) ∙ h)))
              (omega arith)),
      )

  pub cross-Calm : (c : PhysicalExecutionControl) → Moves Calm (cross_spool_boundary c)
  unfolding cross_spool_boundary get_replay
  cross-Calm c = Moves-bind Calm-preorder _ _ (Moves-gets Calm-preorder _) λ o.
      Moves-bind Calm-preorder _ _ (guard-Calm o) λ a. record-Calm _ _ _ λ h. absurd (ground arith)
    where
      guard-Calm : (o : Option ReplayRow) → Moves Calm (crossing_guard o)
      guard-Calm none = Moves-require Calm-preorder _ _
      guard-Calm (some r) = Moves-require Calm-preorder _ _

  module _ (agent : Agent) where
    -- Behind the boundary, once the backend has been told, the spooler may start its document.
    told_and_spooled :
        (c : PhysicalExecutionControl) (r : PhysicalRenderContract) (x : PhysicalLabelRaster)
        (w : PrintWorld)
        → IsSafe w
        → count_of c.execution_id w.documents ≡ 0
        → 1 ≤ replay_rank c.execution_id w
        → IsSafe
            ((tell agent (begin_spool c.execution_id (identity_of c)) >>= λ b.
                recover (spool agent c r x) (spooled agent c) (spool_failed agent c))
              w).1
    unfolding ◌>>=◌ tell
    told_and_spooled c r x w h z up =
        let m = begin_spool c.execution_id (identity_of c) in
        let told = Calm-IsSafe ((tell-Calm agent m).at w) h in
        elim (Result-cases (agent.answer (length w.messages) m)) [
          | inl (a, e) ↦ rw e (
              Starts-IsSafe c.execution_id (record w { messages = w.messages ++ m ∷ [] }) _
                ((spool-Starts agent c r x).at (record w { messages = w.messages ++ m ∷ [] })) told
                z up
                (rw (begins_of-append c.execution_id w.messages m, ==-eq_self c.execution_id)
                  (omega arith)))
          | inr (a, e) ↦ rw e told
        ]

    cross_and_spool-IsSafe :
        (c : PhysicalExecutionControl) (r : PhysicalRenderContract) (x : PhysicalLabelRaster)
        (w : PrintWorld)
        → IsSafe w
        → IsSafe (cross_and_spool agent c r x w).1
    unfolding cross_and_spool ◌>>=◌
    cross_and_spool-IsSafe c r x w h =
        let crossed = (cross-Calm c).at w in
        elim (Result-cases (cross_spool_boundary c w).0) [
          | inl (a, e) ↦
              let (low, high) = cross-ranks c w a e in
              rw e (
                told_and_spooled c r x (cross_spool_boundary c w).1 (Calm-IsSafe crossed h)
                  (rw crossed.documents (allowance-zero _ _ low (h.once c.execution_id))) high)
          | inr (a, e) ↦ rw e (Calm-IsSafe crossed h)
        ]

    execute_inner-Keeps :
        (c : PhysicalExecutionControl) (r : PhysicalRenderContract) (b : Bytes)
        → Moves Keeps (execute_inner agent c r b)
    unfolding execute_inner
    execute_inner-Keeps c r b =
        Moves-bind Keeps-preorder _ _ (Moves-Keeps (verified_raster-Calm agent c r b)) λ x.
          Moves-bind Keeps-preorder _ _ (Moves-Keeps (record-Calm _ _ _ λ h. absurd (ground arith)))
            λ a.
              Moves-bind Keeps-preorder _ _ (Moves-Keeps (tell-Calm agent _))
                λ b. record { at = λ w. record { keeps = cross_and_spool-IsSafe c r x.0 w } }

    uncrossed-rank : (o : Option ReplayRow) → not (has_crossed o) ≡ true → row_rank o ≡ 0
    unfolding is_irreversible
    uncrossed-rank none h = refl
    uncrossed-rank (some r) h = ground arith

    pub fail_with-Calm :
        (c : PhysicalExecutionControl) (e : PrintError) (o : Option (ReplayState × String))
        → Moves Calm (fail_with agent c e o)
    unfolding fail_with get_replay gets ◌>>=◌
    fail_with-Calm c e none = Moves-raise Calm-preorder _
    fail_with-Calm c e (some (s, code)) = record {
      at = λ w. at_require Calm-reflexive _ e _ w λ n.
          at_then Calm-preorder (record_and_report agent c _) _ w
            (at_then Calm-preorder (record_replay c.execution_id _ _) _ w
              (record_at c.execution_id _ _ w
                λ b. uncrossed-rank (find_replay c.execution_id w.rows) n)
              λ a. tell-Calm agent _)
            λ b. Moves-pure Calm-preorder _;
    }

    execute-Keeps :
        (c : PhysicalExecutionControl) (r : PhysicalRenderContract) (b : Bytes)
        → Moves Keeps (execute agent c r b)
    unfolding execute
    execute-Keeps c r b =
        Moves-bind Keeps-preorder _ _ (Moves-Keeps (Moves-lift Calm-preorder _)) λ a.
          Moves-recover Keeps-preorder _ _ _ (execute_inner-Keeps c r b)
            (λ x. Moves-pure Keeps-preorder x)
            λ e. Moves-Keeps (fail_with-Calm c e (classify_failure e))

    execute_all-IsSafe :
        (l : List (PhysicalExecutionControl × PhysicalRenderContract × Bytes)) (w : PrintWorld)
        → IsSafe w
        → IsSafe (execute_all agent w l)
    unfolding execute_all
    execute_all-IsSafe [] w h = h
    execute_all-IsSafe ((c, r, b) ∷ l) w h =
        execute_all-IsSafe l (execute agent c r b w).1 (((execute-Keeps c r b).at w).keeps h)

    -- From a world in which no document was started, whatever is executed, with whatever answers of
    -- the printers, the renderer, the device and the backend: at most one document is started on a
    -- printer for an execution, and none for an execution that is not recorded behind the boundary
    -- or whose spooling the backend was not asked to begin.
    pub print_at_most_once :
        (l : List (PhysicalExecutionControl × PhysicalRenderContract × Bytes)) (w : PrintWorld)
        → w.documents ≡ []
        → (k : String)
        → (count_of k (execute_all agent w l).documents
            ≤ allowance (replay_rank k (execute_all agent w l)))
          × (count_of k (execute_all agent w l).documents
              ≤ begins_of k (execute_all agent w l).messages)
    print_at_most_once l w e k =
        let safe =
          execute_all-IsSafe l w
            (record { once = λ j. rw e (omega arith); begun = λ j. rw e (omega arith) }) in
        (safe.once k, safe.begun k)
