-- ===== src/Controller/Phases.antt =====
-- The phases that `Reconcile` (internal/controller/diagnosistask_controller.go) writes, and when it
-- starts or cancels an agent.
use kubeminds.Prelude.{◌≡◌, refl, Bool, true, false, Option, none, some}
use kubeminds.Prelude.Tests.{if◌then◌else◌}
use kubeminds.Prelude.Bytes.{Str}
use kubeminds.Prelude.Errors.{Fallible, ok, err}
use kubeminds.Crd.{
  DiagnosisTask, DiagnosisPhase, unset, pending, running, waiting_approval, completed, failed,
}
use kubeminds.Agent.SkillManager.{SkillManager}
use kubeminds.Controller.Reconcile.{
  Api, GetReply, found, not_found, get_failed, Reconciler, Reconciled, no_effect, cancels,
  is_active, delete_agent, with_phase, is_over, clean_up, requeue_unless, start_unless, await,
  on_idle, on_phase, on_found, ends, done, loaded_skills, reconcile_task, with_skills, reconcile,
}

-- The changes of phase that the reconciler makes.
pub data Edge (t : DiagnosisTask) : DiagnosisPhase → Type 0 where
  first_seen : t.status.phase ≡ unset → Edge t pending
  begins : t.status.phase ≡ pending → Edge t running
  resumes : t.status.phase ≡ waiting_approval → t.spec.approved ≡ true → Edge t running

module _ {W : Type 0} (api : Api W) (key : Str) (P : W → Type 0) where
  -- `P` is kept by the loading of the skills, by reads, and by the writing of a task that was just
  -- read, is not over, and changes in its phase alone, along an edge.
  pub record Keeps : Type 0 where
    pub keeps_load : (w : W) → P w → P (api.load_skill_manager w).1
    pub keeps_get : (w : W) → P w → P (api.get key w).1
    pub keeps_update :
        (w : W) (t : DiagnosisTask) (p : DiagnosisPhase)
        → P w
        → (api.get key w).0 ≡ found t
        → is_over t ≡ false
        → Edge t p
        → P (api.update_status (with_phase p t) (api.get key w).1).1

  module _ (k : Keeps) where
    if-keeps :
        (b : Bool) (m n : Reconciled W) → P m.world → P n.world → P (if b then m else n).world
    if-keeps true m n p q = p
    if-keeps false m n p q = q

    requeue_unless-keeps :
        (wrap : Str → Str) (r : Reconciler) (m : Option Str × W)
        → P m.1
        → P (requeue_unless wrap r m).world
    unfolding requeue_unless
    requeue_unless-keeps wrap r (none, w) p = p
    requeue_unless-keeps wrap r (some e, w) p = p

    start_unless-keeps :
        (t : DiagnosisTask) (r : Reconciler) (m : Option Str × W)
        → P m.1
        → P (start_unless key t r m).world
    unfolding start_unless
    start_unless-keeps t r (none, w) p = p
    start_unless-keeps t r (some e, w) p = p

    module _ (w : W) (t : DiagnosisTask) (r : Reconciler) (p : P w)
        (read : (api.get key w).0 ≡ found t) (alive : is_over t ≡ false) where
      await-keeps :
          (b : Bool)
          → t.spec.approved ≡ b
          → t.status.phase ≡ waiting_approval
          → P (await api b t r (api.get key w).1).world
      unfolding await
      await-keeps true y e =
          requeue_unless-keeps _ r (api.update_status (with_phase running t) (api.get key w).1)
            (k.keeps_update w t running p read alive (resumes e y))
      await-keeps false n e = k.keeps_get w p

      on_idle-keeps :
          (ph : DiagnosisPhase)
          → t.status.phase ≡ ph
          → P (on_idle api ph key t r (api.get key w).1).world
      unfolding on_idle
      on_idle-keeps waiting_approval e = await-keeps t.spec.approved refl e
      on_idle-keeps pending e =
          start_unless-keeps _ r (api.update_status (with_phase running t) (api.get key w).1)
            (k.keeps_update w t running p read alive (begins e))
      on_idle-keeps running e = k.keeps_get w p
      on_idle-keeps unset e = k.keeps_get w p
      on_idle-keeps completed e = k.keeps_get w p
      on_idle-keeps failed e = k.keeps_get w p

      on_phase-keeps :
          (ph : DiagnosisPhase)
          → t.status.phase ≡ ph
          → P (on_phase api ph key t r (api.get key w).1).world
      unfolding on_phase
      on_phase-keeps unset e =
          requeue_unless-keeps _ r (api.update_status (with_phase pending t) (api.get key w).1)
            (k.keeps_update w t pending p read alive (first_seen e))
      on_phase-keeps ph e =
          if-keeps (is_active key r) (ends done no_effect r (api.get key w).1) _ (k.keeps_get w p)
            (on_idle-keeps ph e)

    clean_up-keeps : (r : Reconciler) (w : W) → P w → P (clean_up key r w).world
    unfolding clean_up
    clean_up-keeps r w p =
        if-keeps (is_active key r) (ends done cancels (delete_agent key r) w) _ p p

    on_found-keeps :
        (w : W) (t : DiagnosisTask) (r : Reconciler) (b : Bool)
        → P w
        → (api.get key w).0 ≡ found t
        → is_over t ≡ b
        → P (on_found api b key t r (api.get key w).1).world
    unfolding on_found
    on_found-keeps w t r true p read e = clean_up-keeps r _ (k.keeps_get w p)
    on_found-keeps w t r false p read e = on_phase-keeps w t r p read e t.status.phase refl

    reconcile_task-keeps :
        (w : W) (r : Reconciler) (reply : GetReply)
        → P w
        → (api.get key w).0 ≡ reply
        → P (reconcile_task api key reply r (api.get key w).1).world
    unfolding reconcile_task
    reconcile_task-keeps w r (found t) p read = on_found-keeps w t r (is_over t) p read refl
    reconcile_task-keeps w r not_found p read = k.keeps_get w p
    reconcile_task-keeps w r (get_failed e) p read = k.keeps_get w p

    with_skills-keeps :
        (r : Reconciler) (m : Fallible SkillManager × W) → P m.1 → P (with_skills api key r m).world
    unfolding with_skills
    with_skills-keeps r (err e, w) p = p
    with_skills-keeps r (ok sm, w) p = reconcile_task-keeps w _ (api.get key w).0 p refl

    loaded_skills-keeps : (o : Option SkillManager) (w : W) → P w → P (loaded_skills api o w).1
    loaded_skills-keeps none w p = k.keeps_load w p
    loaded_skills-keeps (some sm) w p = p

-- The reconciler writes a task only right after it read it, only while the task is neither final
-- nor being deleted, and only to move its phase along an edge: a new task to Pending, a pending one
-- to Running, and one that waits to Running if it is approved. So what such writes and the reads
-- keep, a call of `Reconcile` keeps.
pub reconcile-keeps :
    {W : Type 0} (api : Api W) (key : Str) (P : W → Type 0)
    → Keeps api key P
    → (r : Reconciler) (w : W) → P w
    → P (reconcile api key r w).world
unfolding reconcile
reconcile-keeps api key P k r w p =
    with_skills-keeps api key P k r _ (loaded_skills-keeps api key P k r.skill_manager w p)
