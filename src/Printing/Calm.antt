-- ===== src/Printing/Calm.antt =====
-- The parts of wbcz/physical_printing.py that start no document on a printer: what they may do to the
-- world.
use fbs_chz.Prelude.{
  ℕ, ◌≤◌, ◌+◌, String, Bool, true, false, Option, none, some, List, [], ◌∷◌, ◌++◌, ◌≡◌, ◌≢◌, ◌∙◌,
  ◌⊎◌, ◌&&◌, not, refl, inl, inr, arith, ◌==◌, if◌then◌else◌,
}
use fbs_chz.Runtime.{Runtime}
use fbs_chz.Effect.{◌>>=◌, ◌>>◌, ok, pure, require, modify}
use fbs_chz.Effect.Rules.{Moves, IsPreorder, IsReflexive, at_read}
use fbs_chz.Effect.Mixed.{bind-returned}
use fbs_chz.Printing.Contracts.{PrintError}
use fbs_chz.Printing.Replay.{
  is_irreversible, is_accepted, is_rendered, ReplayState, blocked, Identity, ReplayRow, Evidence,
  Message, begin_spool, PrintWorld, find_replay, upsert, record_guards, record_replay, read_clock,
  get_replay, replay_row, write_replay,
}
use fbs_chz.Printing.Ranks.{
  rank, row_rank, replay_rank, Forward, Forward-preorder, Forward-same, upsert-Forward, state_at,
  row_rank-map, find-upsert-state,
}

-- The documents started for an execution, and the requests to begin its spooling.
abbrev pub count_of : String → List String → ℕ
count_of k [] = 0
count_of k (j ∷ l) = (if j == k then 1 else 0) + count_of k l

abbrev pub is_begin : String → Message → ℕ
is_begin k (begin_spool j i) = if j == k then 1 else 0
is_begin k _ = 0

abbrev pub begins_of : String → List Message → ℕ
begins_of k [] = 0
begins_of k (m ∷ l) = is_begin k m + begins_of k l

pub begins_of-append :
    (k : String) (l : List Message) (m : Message)
    → begins_of k (l ++ m ∷ []) ≡ begins_of k l + is_begin k m
begins_of-append k [] m = omega arith
begins_of-append k (x ∷ l) m = omega (arith, begins_of-append k l m)

-- No document is started, no execution goes back, and what was sent stays sent.
pub record Calm (v w : PrintWorld) : Type 0 where
  pub forward : Forward v w
  pub documents : w.documents ≡ v.documents
  pub begun : (j : String) → begins_of j v.messages ≤ begins_of j w.messages

pub Calm-preorder : IsPreorder Calm
Calm-preorder = record {
  rfl =
      λ s. record { forward = Forward-preorder.rfl s; documents = refl; begun = λ j. omega arith };
  trans = λ s t u h g. record {
    forward = Forward-preorder.trans s t u h.forward g.forward;
    documents = g.documents ∙ h.documents;
    begun = λ j. omega (arith, h.begun j, g.begun j);
  };
}

pub Calm-reflexive : IsReflexive Calm
Calm-reflexive = record { rfl = Calm-preorder.rfl }

-- Only counters move.
pub Calm-counted :
    (v w : PrintWorld)
    → w.rows ≡ v.rows
    → w.documents ≡ v.documents
    → w.messages ≡ v.messages
    → Calm v w
Calm-counted v w r d m = record {
  forward = Forward-same v w r;
  documents = d;
  begun = λ j. rw m (omega arith);
}

three_same :
    (a b c : Bool) (e f g : PrintError) (w : PrintWorld)
    → ((require a e >> require b f >> require c g) w).1 ≡ w
unfolding require ◌>>=◌
three_same false b c e f g w = refl
three_same true false c e f g w = refl
three_same true true false e f g w = refl
three_same true true true e f g w = refl

three_ok :
    (a b c : Bool) (e f g : PrintError) (w : PrintWorld) (x : Unit {0})
    → ((require a e >> require b f >> require c g) w).0 ≡ ok x
    → (b ≡ true) × (c ≡ true)
unfolding require ◌>>=◌
three_ok false b c e f g w x h = absurd (ground arith)
three_ok true false c e f g w x h = absurd (ground arith)
three_ok true true false e f g w x h = absurd (ground arith)
three_ok true true true e f g w x h = (refl, refl)

record_guards_same :
    (i : Identity) (s : ReplayState) (o : Option ReplayRow) (w : PrintWorld)
    → (record_guards i s o w).1 ≡ w
unfolding record_guards pure
record_guards_same i s none w = refl
record_guards_same i s (some r) w = three_same _ _ _ _ _ _ w

up_or_blocked :
    (r s : ReplayState)
    → not (is_irreversible r && is_rendered s) ≡ true
    → not (is_accepted r && not (is_accepted s)) ≡ true
    → (rank r ≤ rank s) ⊎ (s ≡ blocked)
unfolding is_irreversible
up_or_blocked r s h g = ground arith

-- What `record` lets through takes no execution back, unless it blocks it.
record_guards-up :
    (i : Identity) (s : ReplayState) (o : Option ReplayRow) (w : PrintWorld) (a : Unit {0})
    → (record_guards i s o w).0 ≡ ok a
    → (row_rank o ≤ rank s) ⊎ (s ≡ blocked)
unfolding record_guards
record_guards-up i s none w a h = inl (omega arith)
record_guards-up i s (some r) w a h =
    let (x, y) = three_ok _ _ _ _ _ _ w a h in up_or_blocked r.state s x y

write-Calm :
    (n : ReplayRow) (w : PrintWorld)
    → replay_rank n.execution_id w ≤ rank n.state
    → Calm w (record w { rows = upsert n w.rows })
write-Calm n w h = record {
  forward = upsert-Forward n w (record w { rows = upsert n w.rows }) refl h;
  documents = refl;
  begun = λ j. omega arith;
}

up_or_zero :
    (s : ReplayState) (m : ℕ) → (m ≤ rank s) ⊎ (s ≡ blocked) → (s ≡ blocked → m ≡ 0) → m ≤ rank s
up_or_zero s m (inl h) g = h
up_or_zero s m (inr h) g = rw (g h) (omega arith)

module _ ⦃py : Runtime⦄ where
  -- Writing a state takes its execution back at most by blocking it.
  pub record_at :
      (k : String) (i : Identity) (e : Evidence) (w : PrintWorld)
      → (e.state ≡ blocked → replay_rank k w ≡ 0)
      → Calm w (record_replay k i e w).1
  unfolding record_replay read_clock get_replay modify ◌>>=◌
  record_at k i e w h =
      Calm-preorder.trans w (record w { reads = w.reads + 1 }) _
        (Calm-counted w (record w { reads = w.reads + 1 }) refl refl refl)
        (at_read Calm-reflexive (record_guards i e.state (find_replay k w.rows))
          (λ a. write_replay (replay_row k i e (py.now w.reads) (find_replay k w.rows)))
          (record w { reads = w.reads + 1 }) (record_guards_same _ _ _ _)
          λ a ok.
            write-Calm _ (record w { reads = w.reads + 1 })
              (up_or_zero e.state _ (record_guards-up i e.state _ _ a ok) h))

  pub record-Calm :
      (k : String) (i : Identity) (e : Evidence)
      → e.state ≢ blocked
      → Moves Calm (record_replay k i e)
  record-Calm k i e h = record { at = λ w. record_at k i e w λ b. absurd (h b) }

  -- What is written is found.
  pub record-state :
      (k : String) (i : Identity) (e : Evidence) (w : PrintWorld) (a : Unit {0})
      → (record_replay k i e w).0 ≡ ok a
      → state_at k (record_replay k i e w).1 ≡ some e.state
  unfolding record_replay read_clock get_replay modify ◌>>=◌
  record-state k i e w a h =
      let (x, q, t) =
        bind-returned _ (record_guards i e.state (find_replay k w.rows))
          (record w { reads = w.reads + 1 }) a h in
      rw (t, record_guards_same i e.state (find_replay k w.rows) (record w { reads = w.reads + 1 }))
        (find-upsert-state (replay_row k i e (py.now w.reads) (find_replay k w.rows)) w.rows)

  pub record-written :
      (k : String) (i : Identity) (e : Evidence) (w : PrintWorld) (a : Unit {0})
      → (record_replay k i e w).0 ≡ ok a
      → replay_rank k (record_replay k i e w).1 ≡ rank e.state
  record-written k i e w a h = row_rank-map _ e.state (record-state k i e w a h)
