-- ===== src/Controller/Jobs.antt =====
-- What the goroutine of a task (internal/controller/diagnosistask_controller.go) may do to the
-- world outside.
use mathlib.Core.Path.{subst}
use kubeminds.Prelude.{ℕ, ◌≡◌, refl, sym, inl, inr, List, [], some, Option-cases}
use kubeminds.Prelude.Bytes.{Str}
use kubeminds.Prelude.Errors.{Fallible, ok, err}
use kubeminds.Crd.{DiagnosisTask, DiagnosisTaskStatus}
use kubeminds.Agent.Types.{AlertEvent, Message, Tool}
use kubeminds.Agent.Memory.{L1Memory}
use kubeminds.Agent.SkillManager.{SkillManager, match_skill}
use kubeminds.Agent.Engine.{BaseAgent, Outcome, available_tools, new_agent}
use kubeminds.Agent.Loop.{run, notify}
use kubeminds.Agent.Safety.{May}
use kubeminds.Agent.Protocol.{Owes, Asks, run-Asks}
use kubeminds.Controller.Reconcile.{Api, GetReply, found, not_found, get_failed}
use kubeminds.Controller.Variants.{
  Variant, make_agent-Variant, add_events-Variant, add_findings-Variant,
}
use kubeminds.Controller.Writes.{Writes, checkpoint_status-Writes, result_status-Writes}
use kubeminds.Controller.Job.{
  Knowledge, Deps, with_status, checkpoint_status, result_status, goal_of, write_back,
  on_step_complete, record_skill, add_events, search_findings, add_findings, make_agent,
  write_result, diagnose, with_tools, job,
}

module _ {W E : Type 0} (api : Api W) (deps : Deps W E) (key : Str) (sm : SkillManager)
    (t : DiagnosisTask) (P : W → Type 0) where
  -- `P` is kept by what the goroutine does outside of its task: list the tools, ask the stores, the
  -- context and the clock, ask the model with a conversation in which each tool call has its output,
  -- and execute the listed tools that the skill and the approval of the task allow.
  pub record KeepsOutside : Type 0 where
    pub keeps_list : (w : W) → P w → P (deps.list_tools w).1
    pub keeps_recent :
        (recent : Str → Str → ℕ → W → Fallible (List AlertEvent) × W)
        → deps.l2_store ≡ some recent
        → (namespace pod : Str) (w : W) → P w
        → P (recent namespace pod 10 w).1
    pub keeps_embed :
        (k : Knowledge W E)
        → deps.knowledge ≡ some k
        → (text : Str) (w : W) → P w
        → P (k.embed text w).1
    pub keeps_search :
        (k : Knowledge W E)
        → deps.knowledge ≡ some k
        → (v : E) (w : W) → P w
        → P (k.search_similar v 3 w).1
    pub keeps_done : (w : W) → P w → P (deps.runtime.done w).1
    pub keeps_now : (w : W) → P w → P (deps.runtime.now w).1
    pub keeps_chat :
        (ms : List Message) (tools : List (Tool W)) (w : W)
        → Owes ms []
        → P w
        → P (deps.llm ms tools w).1
    pub keeps_execute :
        (start : W) (tools : List (Tool W))
        → (deps.list_tools start).0 ≡ ok tools
        → (tool : Tool W) (args : Str) (w : W)
        → May (available_tools (match_skill t sm).allowed_tools tools) t.spec.approved tool
        → P w
        → P (tool.execute args w).1

  -- And by what it does to its task: read it, and write it right after reading it with one of the
  -- changes above.
  pub record Keeps : Type 0 where
    pub outside : KeepsOutside
    pub keeps_get : (w : W) → P w → P (api.get key w).1
    pub keeps_update :
        (w : W) (u : DiagnosisTask) (s : DiagnosisTaskStatus)
        → P w
        → (api.get key w).0 ≡ found u
        → Writes deps.quote u.status s
        → P (api.update_status (with_status s u) (api.get key w).1).1

  module _ (k : Keeps) where
    write_back-keeps :
        (f : DiagnosisTaskStatus → DiagnosisTaskStatus)
        → ((s : DiagnosisTaskStatus) → Writes deps.quote s (f s))
        → (w : W) → P w
        → P (write_back api f (api.get key w))
    unfolding write_back
    write_back-keeps f h w p = go (api.get key w).0 refl
      where
        go :
            (reply : GetReply)
            → (api.get key w).0 ≡ reply
            → P (write_back api f (reply, (api.get key w).1))
        go (found u) e = k.keeps_update w u (f u.status) p e (h u.status)
        go not_found e = k.keeps_get w p
        go (get_failed x) e = k.keeps_get w p

    write_result-keeps : (o : Outcome) (w : W) → P w → P (write_result api deps o (api.get key w)).1
    unfolding write_result
    write_result-keeps o w p = go (api.get key w).0 refl
      where
        go :
            (reply : GetReply)
            → (api.get key w).0 ≡ reply
            → P (write_result api deps o (reply, (api.get key w).1)).1
        go (found u) e =
            k.keeps_update w u (result_status deps.quote o u.status) p e
              (result_status-Writes deps.quote o u.status)
        go not_found e = k.keeps_get w p
        go (get_failed x) e = k.keeps_get w p

    add_events-keeps : (a : BaseAgent W) (w : W) → P w → P (add_events deps t.spec.target a w).1
    unfolding add_events
    add_events-keeps a w p = elim (Option-cases deps.l2_store) [
      | inl e ↦ rw e p
      | inr (recent, e) ↦
          rw e (k.outside.keeps_recent recent e t.spec.target.namespace t.spec.target.name w p)
    ]

    search_findings-keeps :
        (base : Knowledge W E) (a : BaseAgent W) (m : Fallible E × W)
        → deps.knowledge ≡ some base
        → P m.1
        → P (search_findings deps base m a).1
    unfolding search_findings
    search_findings-keeps base a (err x, w) e p = p
    search_findings-keeps base a (ok v, w) e p = k.outside.keeps_search base e v w p

    add_findings-keeps : (a : BaseAgent W) (w : W) → P w → P (add_findings deps t a w).1
    unfolding add_findings
    add_findings-keeps a w p = elim (Option-cases deps.knowledge) [
      | inl e ↦ rw e p
      | inr (base, e) ↦ rw e (search_findings-keeps base a _ e (k.outside.keeps_embed base e _ w p))
    ]

    module _ (start : W) (tools : List (Tool W))
        (listed : (deps.list_tools start).0 ≡ ok tools) where
      agent-Asks :
          (m : L1Memory)
          → Asks deps.runtime
              (record (new_agent deps.llm tools t.spec.policy.max_steps
                (some (on_step_complete api key))
                (match_skill t sm)) { memory = m })
              t.spec.approved
              P
      unfolding new_agent notify on_step_complete
      agent-Asks m = record {
        acts = record {
          keeps_done = k.outside.keeps_done;
          keeps_now = k.outside.keeps_now;
          keeps_notify = λ f entry w p.
              write_back-keeps (checkpoint_status f entry)
                (checkpoint_status-Writes deps.quote f entry) w p;
          keeps_execute =
              λ tool args w may p. k.outside.keeps_execute start tools listed tool args w may p;
        };
        keeps_chat = λ ms w h p. k.outside.keeps_chat ms _ w h p;
      }

      run-Variant :
          (a : BaseAgent W) (goal : Str) (w : W)
          → Variant api deps key sm t tools a
          → P w
          → P (run deps.runtime a t.spec.approved goal w).1.world
      run-Variant a goal w (m, h, e) p =
          subst (λ b. P (run deps.runtime b t.spec.approved goal w).1.world) (sym e)
            (run-Asks deps.runtime _ t.spec.approved P (agent-Asks m) h goal w p).0

      -- What is written is the outcome of a run of the agent, in the world that the run leaves.
      pub diagnose-Ran :
          (w : W)
          → P w
          → (a : BaseAgent W) × (start : W) × Variant api deps key sm t tools a
            × P (run deps.runtime a t.spec.approved (goal_of t.spec.target) start).1.world
            × (let (o, s) = run deps.runtime a t.spec.approved (goal_of t.spec.target) start in
                diagnose api deps key sm t tools w ≡ write_result api deps o (api.get key s.world))
      unfolding diagnose record_skill
      diagnose-Ran w p =
          let a = make_agent deps (on_step_complete api key) tools (match_skill t sm) t in
          let v = make_agent-Variant api deps key sm t tools in
          let p₁ =
            write_back-keeps (λ s. record s { matched_skill = (match_skill t sm).name })
              (λ s. Writes.names_skill (match_skill t sm).name) w p in
          let w₁ = record_skill api key (match_skill t sm) w in
          let b = add_events deps t.spec.target a w₁ in
          let c = add_findings deps t b.0 b.1 in
          let v' =
            add_findings-Variant api deps key sm t tools b.0 b.1
              (add_events-Variant api deps key sm t tools a w₁ v) in
          (
            c.0,
            c.1,
            v',
            run-Variant c.0 (goal_of t.spec.target) c.1 v'
                (add_findings-keeps b.0 b.1 (add_events-keeps a w₁ p₁)),
            refl,
          )

      diagnose-keeps : (w : W) → P w → P (diagnose api deps key sm t tools w).1
      diagnose-keeps w p =
          let (a, start, v, p', e) = diagnose-Ran w p in
          let (o, s) = run deps.runtime a t.spec.approved (goal_of t.spec.target) start in
          rw e (write_result-keeps o s.world p')

-- The goroutine of a task touches the world only so: it lists the tools, reads its task, asks the
-- stores, the context and the clock, asks the model with conversations in which every tool call has
-- its output, executes tools that are listed, that the skill
-- allows, that are not forbidden, and that are not high-risk unless the task is approved, and writes
-- its task right after reading it with one change of status: at most one more checkpoint and one
-- more line of history, the name of the skill, or the end, which is Completed with the result,
-- WaitingApproval with the name of a tool, or Failed with an error. What all these keep, the
-- goroutine keeps.
pub job-keeps :
    {W E : Type 0} (api : Api W) (deps : Deps W E) (key : Str) (sm : SkillManager)
    (t : DiagnosisTask) (P : W → Type 0)
    → Keeps api deps key sm t P
    → (w : W) → P w
    → P (job api deps key sm t w).1
unfolding job with_tools
job-keeps {W = W} api deps key sm t P k w p = go (deps.list_tools w).0 refl
  where
    go :
        (reply : Fallible (List (Tool W)))
        → (deps.list_tools w).0 ≡ reply
        → P (with_tools api deps key sm t (reply, (deps.list_tools w).1)).1
    go (err e) h = k.outside.keeps_list w p
    go (ok tools) h = diagnose-keeps api deps key sm t P k w tools h _ (k.outside.keeps_list w p)
