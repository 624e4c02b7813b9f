-- ===== src/Controller/Reconcile.antt =====
-- internal/controller/diagnosistask_controller.go, `Reconcile`, up to the start of the agent's
-- goroutine. The cluster is outside: reads and writes go through an `Api` over the state `W`.
use kubeminds.Prelude.{Bool, true, false, ◌||◌, List, ◌∷◌, ◌++◌, Option, none, some, not}
use kubeminds.Prelude.Tests.{if◌then◌else◌}
use kubeminds.Prelude.Lists.{any, keep}
use kubeminds.Prelude.Bytes.{Str, lit, str_eq}
use kubeminds.Prelude.Errors.{Fallible, ok, err}
use kubeminds.Crd.{
  DiagnosisTask, DiagnosisPhase, unset, pending, running, waiting_approval, completed, failed,
}
use kubeminds.Agent.SkillManager.{SkillManager}

-- The answer to a `Get` call.
pub data GetReply : Type 0 where
  found : DiagnosisTask → GetReply
  not_found : GetReply
  get_failed : Str → GetReply

-- `Get`, `Status().Update` with its error, and the loading of the skills.
pub record Api (W : Type 0) : Type 0 where
  pub get : Str → W → GetReply × W
  pub update_status : DiagnosisTask → W → Option Str × W
  pub load_skill_manager : W → Fallible SkillManager × W

-- What the reconciler keeps: the skills, once loaded, and the keys of `ActiveAgents`.
pub record Reconciler : Type 0 where
  pub skill_manager : Option SkillManager
  pub active_agents : List Str

-- What `Reconcile` returns: nothing, `Requeue`, an error, or an error with `RequeueAfter`.
pub data Reply : Type 0 where
  done : Reply
  requeue : Reply
  fails : Str → Reply
  retries : Str → Reply

-- What it does to the agents: it cancels the one of the task, or starts one, on the task as read.
pub data Effect : Type 0 where
  no_effect : Effect
  cancels : Effect
  starts : DiagnosisTask → Effect

pub record Reconciled (W : Type 0) : Type 0 where
  pub reply : Reply
  pub effect : Effect
  pub reconciler : Reconciler
  pub world : W

unfoldable pub is_active : Str → Reconciler → Bool
is_active key r = any (λ k. str_eq k key) r.active_agents

-- `ActiveAgents.Store` and `ActiveAgents.Delete`
unfoldable pub store_agent : Str → Reconciler → Reconciler
unfolding is_active
store_agent key r =
    if is_active key r then r else record r { active_agents = key ∷ r.active_agents }

unfoldable pub delete_agent : Str → Reconciler → Reconciler
unfolding keep
delete_agent key r = record r { active_agents = keep (λ k. not (str_eq k key)) r.active_agents }

unfoldable pub with_phase : DiagnosisPhase → DiagnosisTask → DiagnosisTask
with_phase p t = record {
  name = t.name;
  namespace = t.namespace;
  is_deleting = t.is_deleting;
  spec = t.spec;
  status = record {
    phase = p;
    report = t.status.report;
    history = t.status.history;
    checkpoint = t.status.checkpoint;
    matched_skill = t.status.matched_skill;
    message = t.status.message;
  };
}

abbrev is_final : DiagnosisPhase → Bool
is_final completed = true
is_final failed = true
is_final _ = false

-- `!DeletionTimestamp.IsZero() || Phase == Completed || Phase == Failed`
unfoldable pub is_over : DiagnosisTask → Bool
is_over t = t.is_deleting || is_final t.status.phase

module _ {W : Type 0} where
  abbrev pub ends : Reply → Effect → Reconciler → W → Reconciled W
  ends reply effect r w = record { reply = reply; effect = effect; reconciler = r; world = w }

  -- Cleanup: a running agent is cancelled, and its key is deleted.
  unfoldable pub clean_up : Str → Reconciler → W → Reconciled W
  unfolding is_active delete_agent
  clean_up key r w =
      if is_active key r then ends done cancels (delete_agent key r) w else ends done no_effect r w

  -- The return after a status update.
  unfoldable pub requeue_unless : (Str → Str) → Reconciler → Option Str × W → Reconciled W
  requeue_unless wrap r (none, w) = ends requeue no_effect r w
  requeue_unless wrap r (some e, w) = ends (fails (wrap e)) no_effect r w

  -- The start of a pending task, after the update to `Running`.
  unfoldable pub start_unless : Str → DiagnosisTask → Reconciler → Option Str × W → Reconciled W
  unfolding delete_agent store_agent
  start_unless key t r (none, w) = ends done (starts t) (store_agent key r) w
  start_unless key t r (some e, w) =
      ends (fails e) no_effect (delete_agent key (store_agent key r)) w

module _ {W : Type 0} (api : Api W) where
  -- The task awaits an approval; the first argument is `task.Spec.Approved`.
  unfoldable pub await : Bool → DiagnosisTask → Reconciler → W → Reconciled W
  unfolding requeue_unless with_phase lit
  await true t r w =
      requeue_unless (λ e. lit "failed to update phase to Running after approval: " ++ e) r
        (api.update_status (with_phase running t) w)
  await false t r w = ends done no_effect r w

  -- No agent runs here for the task.
  unfoldable pub on_idle : DiagnosisPhase → Str → DiagnosisTask → Reconciler → W → Reconciled W
  unfolding await start_unless store_agent with_phase
  on_idle waiting_approval key t r w = await t.spec.approved t r w
  on_idle pending key t r w =
      start_unless key (with_phase running t) r (api.update_status (with_phase running t) w)
  on_idle running key t r w = ends done (starts t) (store_agent key r) w
  on_idle _ key t r w = ends done no_effect r w

  unfoldable pub on_phase : DiagnosisPhase → Str → DiagnosisTask → Reconciler → W → Reconciled W
  unfolding on_idle is_active requeue_unless with_phase
  on_phase unset key t r w = requeue_unless (λ e. e) r (api.update_status (with_phase pending t) w)
  on_phase p key t r w = if is_active key r then ends done no_effect r w else on_idle p key t r w

  -- The first argument is the test for cleanup.
  unfoldable pub on_found : Bool → Str → DiagnosisTask → Reconciler → W → Reconciled W
  unfolding clean_up on_phase
  on_found true key t r w = clean_up key r w
  on_found false key t r w = on_phase t.status.phase key t r w

  unfoldable pub reconcile_task : Str → GetReply → Reconciler → W → Reconciled W
  unfolding on_found is_over
  reconcile_task key not_found r w = ends done no_effect r w
  reconcile_task key (get_failed e) r w = ends (fails e) no_effect r w
  reconcile_task key (found t) r w = on_found (is_over t) key t r w

  unfoldable pub with_skills : Str → Reconciler → Fallible SkillManager × W → Reconciled W
  unfolding reconcile_task
  with_skills key r (err e, w) = ends (retries e) no_effect r w
  with_skills key r (ok sm, w) =
      let (reply, w') = api.get key w in
      reconcile_task key reply (record r { skill_manager = some sm }) w'

  abbrev pub loaded_skills : Option SkillManager → W → Fallible SkillManager × W
  loaded_skills none w = api.load_skill_manager w
  loaded_skills (some sm) w = (ok sm, w)

  unfoldable pub reconcile : Str → Reconciler → W → Reconciled W
  unfolding with_skills
  reconcile key r w = with_skills key r (loaded_skills r.skill_manager w)
