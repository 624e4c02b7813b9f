-- ===== src/Controller/Job.antt =====
-- internal/controller/diagnosistask_controller.go, the goroutine that `Reconcile` starts: it builds
-- an agent, runs it and writes its result. `E` is the type of embedding vectors.
use kubeminds.Prelude.{ℕ, List, [], ◌∷◌, ◌++◌, Option, none, some}
use kubeminds.Prelude.Tests.{if◌then◌else◌}
use kubeminds.Prelude.Int.{ℤ, int_text}
use kubeminds.Prelude.Bytes.{Str, lit, is_empty, concat}
use kubeminds.Prelude.Errors.{Fallible, ok, err}
use kubeminds.Crd.{
  DiagnosisTask, DiagnosisTaskStatus, DiagnosisTarget, AlertContext, Finding, waiting_approval,
  completed, failed,
}
use kubeminds.Agent.Types.{
  AlertEvent, KnowledgeFinding, zero_time, LlmProvider, Tool, AgentError, cancelled, chat_failed,
  waiting_for_approval, loop_detected, exceeded_steps,
}
use kubeminds.Agent.Skill.{Skill}
use kubeminds.Agent.SkillManager.{SkillManager, match_skill}
use kubeminds.Agent.Context.{format_alert_events, format_historical_findings}
use kubeminds.Agent.Engine.{
  StepCallback, Runtime, BaseAgent, Outcome, concluded, aborted, new_agent, inject_context, restore,
}
use kubeminds.Agent.Loop.{run}
use kubeminds.Controller.Reconcile.{Api, GetReply, found, not_found, get_failed}

-- The L2 store, and the L3 base with its embedder.
pub record Knowledge (W E : Type 0) : Type 0 where
  pub embed : Str → W → Fallible E × W
  pub search_similar : E → ℕ → W → Fallible (List KnowledgeFinding) × W

-- What the job uses beside the cluster; `quote` is `%q`.
pub record Deps (W E : Type 0) : Type 0 where
  pub list_tools : W → Fallible (List (Tool W)) × W
  pub llm : LlmProvider W
  pub runtime : Runtime W
  pub l2_store : Option (Str → Str → ℕ → W → Fallible (List AlertEvent) × W)
  pub knowledge : Option (Knowledge W E)
  pub rfc3339 : ℤ → Str
  pub quote : Str → Str

-- `err.Error()` of the errors of a run
unfoldable pub error_text : (Str → Str) → AgentError → Str
unfolding lit int_text
error_text quote (cancelled e) = e
error_text quote (chat_failed e) = lit "failed to chat with LLM: " ++ e
error_text quote (waiting_for_approval name) = lit "tool " ++ (name ++ lit " requires approval")
error_text quote (loop_detected name) =
    lit "agent loop detected: tool "
    ++ (quote name
        ++ lit
            " called with identical arguments 3 consecutive times, aborting to prevent infinite token consumption")
error_text quote (exceeded_steps n) =
    lit "agent exceeded maximum steps (" ++ (int_text n ++ lit ")")

unfoldable pub with_status : DiagnosisTaskStatus → DiagnosisTask → DiagnosisTask
with_status s t = record {
  name = t.name;
  namespace = t.namespace;
  is_deleting = t.is_deleting;
  spec = t.spec;
  status = s;
}

abbrev opt_append : List Finding → Option Finding → List Finding
opt_append fs none = fs
opt_append fs (some f) = fs ++ f ∷ []

-- The status after a step of the agent.
unfoldable pub checkpoint_status : Option Finding → Str → DiagnosisTaskStatus → DiagnosisTaskStatus
checkpoint_status finding entry s = record s {
  checkpoint = opt_append s.checkpoint finding;
  history = if is_empty entry then s.history else s.history ++ entry ∷ [];
}

-- The status after a run.
unfoldable pub result_status : (Str → Str) → Outcome → DiagnosisTaskStatus → DiagnosisTaskStatus
unfolding error_text lit
result_status quote (concluded r) s = record s {
  phase = completed;
  report = some (record { root_cause = r.root_cause; suggestion = r.suggestion });
}
result_status quote (aborted (waiting_for_approval name)) s = record s {
  phase = waiting_approval;
  message = lit "Tool " ++ (name ++ lit " requires approval.");
}
result_status quote (aborted e) s = record s {
  phase = failed;
  report =
      some (record { root_cause = lit "Agent execution failed"; suggestion = error_text quote e });
}

abbrev alert_name_of : Option AlertContext → Str
alert_name_of none = []
alert_name_of (some c) = c.name

-- "Diagnose the issue with %s %s in namespace %s."
unfoldable pub goal_of : DiagnosisTarget → Str
unfolding lit concat
goal_of t = concat (
    lit "Diagnose the issue with "
    ∷ t.kind
    ∷ lit " "
    ∷ t.name
    ∷ lit " in namespace "
    ∷ t.namespace
    ∷ lit "."
    ∷ [])

-- The finding that goes to the knowledge base after a conclusion.
unfoldable pub saved_finding : Outcome → DiagnosisTask → Option KnowledgeFinding
saved_finding (concluded r) t = some (record {
  id = [];
  alert_name = alert_name_of t.spec.alert_context;
  namespace = t.spec.target.namespace;
  root_cause = r.root_cause;
  suggestion = r.suggestion;
  created_at = zero_time;
})
saved_finding (aborted e) t = none

module _ {W : Type 0} (api : Api W) where
  -- Read the task, change its status and write it; on a failed read nothing is written.
  unfoldable pub write_back : (DiagnosisTaskStatus → DiagnosisTaskStatus) → GetReply × W → W
  unfolding with_status
  write_back f (found t, w) = (api.update_status (with_status (f t.status) t) w).1
  write_back f (not_found, w) = w
  write_back f (get_failed e, w) = w

  unfoldable pub on_step_complete : Str → StepCallback W
  unfolding write_back checkpoint_status
  on_step_complete key finding entry w =
      write_back (checkpoint_status finding entry) (api.get key w)

  unfoldable pub record_skill : Str → Skill → W → W
  unfolding write_back
  record_skill key skill w =
      write_back (λ s. record s { matched_skill = skill.name }) (api.get key w)

module _ {W E : Type 0} (deps : Deps W E) where
  -- `if formatted := …; formatted != "" { ag.InjectContext(formatted) }`
  unfoldable pub inject : Str → BaseAgent W → BaseAgent W
  unfolding inject_context
  inject [] a = a
  inject (b ∷ bs) a = inject_context (b ∷ bs) a

  unfoldable pub inject_events : Fallible (List AlertEvent) → BaseAgent W → BaseAgent W
  unfolding inject format_alert_events
  inject_events (err e) a = a
  inject_events (ok events) a = inject (format_alert_events deps.rfc3339 events) a

  unfoldable pub add_events : DiagnosisTarget → BaseAgent W → W → BaseAgent W × W
  unfolding inject_events
  add_events t a w = elim deps.l2_store [
    | none ↦ (a, w)
    | some recent ↦ let (reply, w') = recent t.namespace t.name 10 w in (inject_events reply a, w')
  ]

  unfoldable pub inject_findings : Fallible (List KnowledgeFinding) → BaseAgent W → BaseAgent W
  unfolding inject format_historical_findings
  inject_findings (err e) a = a
  inject_findings (ok fs) a = inject (format_historical_findings deps.rfc3339 fs) a

  unfoldable pub search_findings : Knowledge W E → Fallible E × W → BaseAgent W → BaseAgent W × W
  unfolding inject_findings
  search_findings k (err e, w) a = (a, w)
  search_findings k (ok v, w) a =
      let (reply, w') = k.search_similar v 3 w in (inject_findings reply a, w')

  unfoldable pub add_findings : DiagnosisTask → BaseAgent W → W → BaseAgent W × W
  unfolding search_findings lit
  add_findings t a w = elim deps.knowledge [
    | none ↦ (a, w)
    | some k ↦
        search_findings k
          (k.embed (alert_name_of t.spec.alert_context ++ (lit " " ++ t.spec.target.namespace)) w) a
  ]

  unfoldable pub make_agent : StepCallback W → List (Tool W) → Skill → DiagnosisTask → BaseAgent W
  unfolding new_agent restore
  make_agent callback tools skill t =
      restore t.status.checkpoint
        (new_agent deps.llm tools t.spec.policy.max_steps (some callback) skill)

-- How the goroutine ends: with an error that is logged, or with the result written, and the finding
-- that a further goroutine saves, if there is a knowledge base.
pub data JobEnd : Type 0 where
  job_failed : Str → JobEnd
  finished : Outcome → Option KnowledgeFinding → JobEnd

module _ {W E : Type 0} (api : Api W) (deps : Deps W E) where
  abbrev pub if_knowledge :
      Option (Knowledge W E) → Option KnowledgeFinding → Option KnowledgeFinding
  if_knowledge none f = none
  if_knowledge (some k) f = f

  unfoldable pub write_result : Outcome → GetReply × W → JobEnd × W
  unfolding result_status saved_finding with_status lit
  write_result o (found t, w) = (
    finished o (if_knowledge deps.knowledge (saved_finding o t)),
    (api.update_status (with_status (result_status deps.quote o t.status) t) w).1,
  )
  write_result o (not_found, w) =
      (job_failed (lit "failed to get latest task for status update: not found"), w)
  write_result o (get_failed e, w) =
      (job_failed (lit "failed to get latest task for status update: " ++ e), w)

  unfoldable pub diagnose : Str → SkillManager → DiagnosisTask → List (Tool W) → W → JobEnd × W
  unfolding match_skill record_skill make_agent add_events add_findings goal_of run write_result
      on_step_complete
  diagnose key sm t tools w =
      let skill = match_skill t sm in
      let w₁ = record_skill api key skill w in
      let a = make_agent deps (on_step_complete api key) tools skill t in
      let (a₁, w₂) = add_events deps t.spec.target a w₁ in
      let (a₂, w₃) = add_findings deps t a₁ w₂ in
      let (o, s) = run deps.runtime a₂ t.spec.approved (goal_of t.spec.target) w₃ in
      write_result o (api.get key s.world)

  unfoldable pub with_tools :
      Str → SkillManager → DiagnosisTask → Fallible (List (Tool W)) × W → JobEnd × W
  unfolding diagnose lit
  with_tools key sm t (err e, w) = (job_failed (lit "failed to list tools: " ++ e), w)
  with_tools key sm t (ok tools, w) = diagnose key sm t tools w

  -- The whole goroutine, but for the deletion of its key at the end.
  unfoldable pub job : Str → SkillManager → DiagnosisTask → W → JobEnd × W
  unfolding with_tools
  job key sm t w = with_tools key sm t (deps.list_tools w)
