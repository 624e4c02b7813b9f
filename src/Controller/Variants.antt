-- ===== src/Controller/Variants.antt =====
-- The agent that a goroutine builds (internal/controller/diagnosistask_controller.go): what is
-- injected and restored changes nothing but its memory.
use kubeminds.Prelude.{◌≡◌, refl, ap, inl, inr, List, [], ◌∷◌, some, Option-cases, Bool-cases}
use kubeminds.Prelude.Bytes.{Str, is_empty}
use kubeminds.Prelude.Errors.{Fallible, ok, err}
use kubeminds.Crd.{DiagnosisTask, Finding}
use kubeminds.Agent.Types.{AlertEvent, KnowledgeFinding, Tool}
use kubeminds.Agent.Memory.{L1Memory}
use kubeminds.Agent.Protocol.{Owes, empty, add_user_message-Owes}
use kubeminds.Agent.Skill.{Skill}
use kubeminds.Agent.SkillManager.{SkillManager, match_skill}
use kubeminds.Agent.Engine.{StepCallback, BaseAgent, new_agent, inject_context, restore}
use kubeminds.Controller.Reconcile.{Api}
use kubeminds.Controller.Job.{
  Knowledge, Deps, on_step_complete, inject, inject_events, add_events, inject_findings,
  search_findings, add_findings, make_agent,
}

module _ {W E : Type 0} (api : Api W) (deps : Deps W E) (key : Str) (sm : SkillManager)
    (t : DiagnosisTask) where
  -- The agent of the goroutine, up to its memory, in which no tool call is left without its output.
  abbrev pub Variant : List (Tool W) → BaseAgent W → Type 0
  Variant tools a =
      (m : L1Memory) × Owes m []
      × (a
          ≡ record (new_agent deps.llm tools t.spec.policy.max_steps
              (some (on_step_complete api key)) (match_skill t sm)) { memory = m })

  inject_context-Variant :
      (tools : List (Tool W)) (text : Str) (a : BaseAgent W)
      → Variant tools a
      → Variant tools (inject_context text a)
  unfolding inject_context new_agent
  inject_context-Variant tools text a (m, h, e) =
      (_, add_user_message-Owes text m h, ap (inject_context text) e)

  inject-Variant :
      (tools : List (Tool W)) (text : Str) (a : BaseAgent W)
      → Variant tools a
      → Variant tools (inject deps text a)
  unfolding inject
  inject-Variant tools [] a v = v
  inject-Variant tools (b ∷ bs) a v = inject_context-Variant tools (b ∷ bs) a v

  pub add_events-Variant :
      (tools : List (Tool W)) (a : BaseAgent W) (w : W)
      → Variant tools a
      → Variant tools (add_events deps t.spec.target a w).0
  unfolding add_events inject_events
  add_events-Variant tools a w v = elim (Option-cases deps.l2_store) [
    | inl e ↦ rw e v
    | inr (recent, e) ↦ rw e (go (recent t.spec.target.namespace t.spec.target.name 10 w).0)
  ]
    where
      go : (reply : Fallible (List AlertEvent)) → Variant tools (inject_events deps reply a)
      go (err x) = v
      go (ok es) = inject-Variant tools _ a v

  search_findings-Variant :
      (tools : List (Tool W)) (base : Knowledge W E) (m : Fallible E × W) (a : BaseAgent W)
      → Variant tools a
      → Variant tools (search_findings deps base m a).0
  unfolding search_findings inject_findings
  search_findings-Variant tools base (err x, w) a v = v
  search_findings-Variant tools base (ok e, w) a v = go (base.search_similar e 3 w).0
    where
      go : (reply : Fallible (List KnowledgeFinding)) → Variant tools (inject_findings deps reply a)
      go (err x) = v
      go (ok fs) = inject-Variant tools _ a v

  pub add_findings-Variant :
      (tools : List (Tool W)) (a : BaseAgent W) (w : W)
      → Variant tools a
      → Variant tools (add_findings deps t a w).0
  unfolding add_findings
  add_findings-Variant tools a w v = elim (Option-cases deps.knowledge) [
    | inl e ↦ rw e v
    | inr (base, e) ↦ rw e (search_findings-Variant tools base _ a v)
  ]

  restore-Variant :
      (tools : List (Tool W)) (fs : List Finding) (a : BaseAgent W)
      → Variant tools a
      → Variant tools (restore fs a)
  unfolding restore new_agent
  restore-Variant tools [] a v = v
  restore-Variant tools (f ∷ fs) a (m, h, e) =
      (_, add_user_message-Owes _ m h, ap (restore (f ∷ fs)) e)

  new_agent-Owes :
      (tools : List (Tool W)) (callback : StepCallback W) (skill : Skill)
      → Owes (new_agent deps.llm tools t.spec.policy.max_steps (some callback) skill).memory []
  unfolding new_agent
  new_agent-Owes tools callback skill = elim (Bool-cases (is_empty skill.system_prompt)) [
    | inl y ↦ rw y empty
    | inr n ↦ rw n (add_user_message-Owes _ [] empty)
  ]

  pub make_agent-Variant :
      (tools : List (Tool W))
      → Variant tools (make_agent deps (on_step_complete api key) tools (match_skill t sm) t)
  unfolding make_agent
  make_agent-Variant tools =
      restore-Variant tools t.status.checkpoint _
        (_, new_agent-Owes tools (on_step_complete api key) (match_skill t sm), refl)
