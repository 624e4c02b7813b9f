-- ===== src/Server/Deletions.antt =====
-- internal/api/server.go with internal/controller/diagnosistask_controller.go: the deletion of a task
-- whose agent runs.
use kubeminds.Prelude.{◌≡◌, refl, ap, Option, none, some}
use kubeminds.Prelude.Bytes.{Str}
use kubeminds.Prelude.Errors.{Fallible, ok, err}
use kubeminds.Crd.{DiagnosisTask}
use kubeminds.Agent.SkillManager.{SkillManager}
use kubeminds.Llm.Router.{Builders}
use kubeminds.Controller.Reconcile.{
  Api, not_found, Reconciler, no_effect, loaded_skills, reconcile_task, with_skills, reconcile,
}
use kubeminds.Controller.InFlight.{System, spawned, noted, after_reconcile}
use kubeminds.Server.Handlers.{Client, found, Server, no_content, delete_task, delete_named, serve}

-- A cluster that deletes at once, as it does an object without finalizers, which the program sets
-- none: after the deletion the task is not there, and a read says so.
pub record Drops {W : Type 0} (api : Api W) (client : Client W) (namespace name key : Str)
    (there : W → Option DiagnosisTask) : Type 0 where
  pub deletes :
      (w : W) (t : DiagnosisTask)
      → there w ≡ some t
      → (w' : W) × (client.delete namespace name w ≡ (found tt, w')) × (there w' ≡ none)
  pub loads : (w : W) → there w ≡ none → there (api.load_skill_manager w).1 ≡ none
  pub misses : (w : W) → there w ≡ none → (api.get key w).0 ≡ not_found

module _ {W : Type 0} (api : Api W) (key : Str) where
  with_skills-missing :
      (r : Reconciler) (m : Fallible SkillManager × W)
      → (api.get key m.1).0 ≡ not_found
      → let x = with_skills api key r m in
        (x.effect ≡ no_effect) × (x.reconciler.active_agents ≡ r.active_agents)
  unfolding with_skills reconcile_task
  with_skills-missing r (err e, w) h = (refl, refl)
  with_skills-missing r (ok sm, w) h = rw h (refl, refl)

module _ {W O S : Type 0} (api : Api W) (b : Builders W) (s : Server W O S)
    (namespace name key : Str) (there : W → Option DiagnosisTask)
    (d : Drops api s.client namespace name key there) where
  loaded_skills-gone :
      (o : Option SkillManager) (w : W) → there w ≡ none → there (loaded_skills api o w).1 ≡ none
  loaded_skills-gone none w e = d.loads w e
  loaded_skills-gone (some sm) w e = e

  -- A call of the reconciler once the task is gone.
  reconcile-gone :
      (r : Reconciler) (w : W)
      → there w ≡ none
      → let m = reconcile api key r w in
        (m.effect ≡ no_effect) × (m.reconciler.active_agents ≡ r.active_agents)
  unfolding reconcile
  reconcile-gone r w e =
      with_skills-missing api key r (loaded_skills api r.skill_manager w)
        (d.misses _ (loaded_skills-gone r.skill_manager w e))

  serve-gone :
      (w : W) (t : DiagnosisTask)
      → there w ≡ some t
      → let (response, w') = serve b s (delete_named namespace name) w in
        (response.status ≡ no_content) × (there w' ≡ none)
  unfolding serve delete_task
  serve-gone w t e = let (w', x, gone) = d.deletes w t e in rw x (refl, gone)

-- The deletion of a task does not stop its agent: the request is answered with "no content", and the
-- call of the reconciler that follows cancels nothing and takes no entry off, so the goroutines in
-- flight stay. It holds in a cluster that deletes the task at once.
pub delete_task-leaves :
    {W O S : Type 0} (api : Api W) (b : Builders W) (s : Server W O S) (namespace name key : Str)
    (there : W → Option DiagnosisTask)
    → Drops api s.client namespace name key there
    → (x : System W) (t : DiagnosisTask) → there x.world ≡ some t
    → let (response, w) = serve b s (delete_named namespace name) x.world in
      let y = after_reconcile key (reconcile api key x.reconciler w) x in
      (response.status ≡ no_content)
      × (y.in_flight ≡ x.in_flight)
      × (y.cancelled ≡ x.cancelled)
      × (y.reconciler.active_agents ≡ x.reconciler.active_agents)
unfolding after_reconcile
delete_task-leaves api b s namespace name key there d x t e =
    let (answered, gone) = serve-gone api b s namespace name key there d x.world t e in
    let (nothing, same) = reconcile-gone api b s namespace name key there d x.reconciler _ gone in
    (
      answered,
      ap (λ i. spawned i key x.in_flight) nothing,
      ap (λ i. noted i key x.cancelled) nothing,
      same,
    )
