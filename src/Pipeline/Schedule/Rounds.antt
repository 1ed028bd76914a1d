-- ===== src/Pipeline/Schedule/Rounds.antt =====
-- The loop of `executeRemainingStages` and the continuation of `nextStage` keep the invariant.
use identity_access_graph.Prelude.{
  ℕ, suc, String, ◌≡◌, refl, sym, ap, ◌∙◌, List, [], ◌∷◌, ◌++◌, some, ok, throw, ◌==◌, arith,
  length, append-nil, length-append, inl, inr, ◌⊎◌, Bool-cases,
}
use identity_access_graph.Pipeline.Types.{
  Stage, paused, completed, failed, stages_order, stage_eq, status_eq, StageData, StageResult,
}
use identity_access_graph.Pipeline.Engine.{
  Engine, Loop, racing, Config, invoke, Outcome, advance, finish, suspend, go_to_sleep, return,
}
use identity_access_graph.Pipeline.Methods.{
  loop_settled, loop_threw, loop_failed, loop_completed, record_result, next_settled,
}
use identity_access_graph.Pipeline.Run.Sequential.{advance_fresh}
use identity_access_graph.Pipeline.Schedule.{apply_stages, output_of, Inv, SystemInv, IsActive}
use identity_access_graph.Pipeline.Schedule.Order.{includes-split, split_next, apply_stages-concat}

advance_paused :
    (id i : ℕ) (stage : Stage) (rest : List Stage) (now : String) (e : Engine)
    → e.execution_id ≡ id
    → e.run.status ≡ paused
    → advance id i (stage ∷ rest) now e
      ≡ (record e { run = record e.run { current_stage = some stage } }, return)
unfolding advance
advance_paused id i stage rest now e h p = ground arith

module _ (c : Config) where
  -- The engine at the head of a round, with no thread but the one that runs.
  pub record AtRound (e : Engine) (id i : ℕ) (rest : List Stage) : Type 0 where
    pub split : e.run.completed_stages ++ rest ≡ stages_order
    pub output : apply_stages c e.run.completed_stages e.initial_input ≡ e.current_output
    pub same_id : id ≡ e.execution_id
    pub same_index : i ≡ length e.run.completed_stages
    pub active : IsActive e.run.status

  pub advance-Inv :
      (id i : ℕ) (rest : List Stage) (now : String) (e : Engine)
      → AtRound e id i rest
      → SystemInv c (suspend [] (advance id i rest now e)).0
  unfolding advance finish go_to_sleep
  advance-Inv id i [] now e h = record {
    rest = [];
    split = h.split;
    output = h.output;
    finished = λ _. sym (append-nil _) ∙ h.split;
    threads = λ a. refl;
  }
  advance-Inv id i (stage ∷ rest) now e h = elim h.active [
    | inl r ↦
        rw
          (advance_fresh id i stage rest now e (sym h.same_id) r
            (includes-split e.run.completed_stages stage rest h.split))
          (record {
            rest = stage ∷ rest;
            split = h.split;
            output = h.output;
            finished = λ f. cc (r, f);
            threads = ((refl, h.same_id, h.same_index, h.active), refl);
          })
    | inr p ↦ rw (advance_paused id i stage rest now e (sym h.same_id) p) (record {
      rest = stage ∷ rest;
      split = h.split;
      output = h.output;
      finished = λ f. cc (p, f);
      threads = λ a. refl;
    })
  ]

  module _ (now : String) (e : Engine) (l : Loop)
      (v : Inv c e (racing l (invoke c l.stage e.current_output) ∷ [])) where
    -- A loop that ends by a failure.
    stopped-Inv :
        (e' : Engine)
        → e'.run.status ≡ failed
        → e'.run.completed_stages ≡ e.run.completed_stages
        → e'.initial_input ≡ e.initial_input
        → e'.current_output ≡ e.current_output
        → Inv c e' []
    stopped-Inv e' f done start out = record {
      rest = v.rest;
      split = rw done v.split;
      output = rw (done, start, out) v.output;
      finished = λ g. cc (f, g);
      threads = λ a. elim a [ inl g ↦ cc (f, g) | inr g ↦ cc (f, g) ];
    }

    completed-AtRound :
        (r : StageResult) (out : StageData)
        → invoke c l.stage e.current_output ≡ ok (r, out)
        → AtRound
            (loop_completed l.stage r out (record_result l.stage r out e))
            l.id
            (suc l.index)
            l.rest
    unfolding loop_completed record_result
    completed-AtRound r out h =
        let (fits, _) = v.threads in
        let (same, same_id, same_index, active) = fits in
        record {
          split = split_next e.run.completed_stages l.stage l.rest (rw same v.split);
          output =
              apply_stages-concat c e.run.completed_stages l.stage e.initial_input
              ∙ ap (λ d. output_of (invoke c l.stage d)) v.output
              ∙ ap output_of h;
          same_id = same_id;
          same_index =
              omega (arith, same_index, length-append e.run.completed_stages (l.stage ∷ []));
          active = active;
        }

    pub settled-Inv :
        (o : Outcome)
        → (o ≡ invoke c l.stage e.current_output) ⊎ ((m : String) × (o ≡ throw m))
        → SystemInv c (suspend [] (loop_settled l o now e)).0
    unfolding loop_settled loop_threw loop_failed record_result
    settled-Inv (throw m) h = stopped-Inv _ refl refl refl refl
    settled-Inv (ok (r, out)) (inr (m, h)) = cc
    settled-Inv (ok (r, out)) (inl h) = elim (Bool-cases (r.status == failed)) [
      | inl f ↦ rw f (
          stopped-Inv (loop_failed l.stage l.index now (record_result l.stage r out e)) refl refl
            refl refl)
      | inr f ↦ rw f (advance-Inv l.id (suc l.index) l.rest now _ (completed-AtRound r out (sym h)))
    ]

  module _ (now : String) (e : Engine) (stage : Stage) (rest : List Stage) (i : ℕ)
      (split : e.run.completed_stages ++ stage ∷ rest ≡ stages_order)
      (output : apply_stages c e.run.completed_stages e.initial_input ≡ e.current_output)
      (r : StageResult) (out : StageData) (h : invoke c stage e.current_output ≡ ok (r, out)) where
    abbrev pub stepped : Engine
    stepped = next_settled stage i r out now e

    stepped-all :
        (ys : List Stage)
        → (e.run.completed_stages ++ stage ∷ []) ++ ys ≡ stages_order
        → stepped.run.status ≡ completed
        → e.run.completed_stages ++ stage ∷ [] ≡ stages_order
    unfolding next_settled
    stepped-all [] s f = sym (append-nil _) ∙ s
    stepped-all (y ∷ ys) s f =
        let total = length-append (e.run.completed_stages ++ stage ∷ []) (y ∷ ys) in
        let five : length ((e.run.completed_stages ++ stage ∷ []) ++ y ∷ ys) ≡ 5 = ap length s in
        absurd (ground arith)

    stepped-idle : ¬ IsActive stepped.run.status
    unfolding next_settled
    stepped-idle a = ground arith

    pub stepped-Inv : Inv c stepped []
    unfolding next_settled record_result
    stepped-Inv = record {
      rest = rest;
      split = split_next e.run.completed_stages stage rest split;
      output =
          apply_stages-concat c e.run.completed_stages stage e.initial_input
          ∙ ap (λ d. output_of (invoke c stage d)) output
          ∙ ap output_of h;
      finished = stepped-all rest (split_next e.run.completed_stages stage rest split);
      threads = λ a. absurd (stepped-idle a);
    }
