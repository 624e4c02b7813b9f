-- ===== src/Controller/Answering.antt =====
-- internal/controller/diagnosistask_controller.go: calls of `Reconcile` about one task, in a cluster that
-- answers each.
use kubeminds.Prelude.{◌≡◌, refl, ap, ◌∙◌, true, false, Option, none, some}
use kubeminds.Prelude.Bytes.{Str}
use kubeminds.Prelude.Errors.{ok}
use kubeminds.Crd.{DiagnosisTask, unset, pending, running, waiting_approval}
use kubeminds.Agent.SkillManager.{SkillManager}
use kubeminds.Controller.Reconcile.{
  Api, Reconciler, requeue, done, starts, is_active, with_phase, is_over, await, requeue_unless,
  start_unless, no_effect, ends, on_idle, on_phase, on_found, reconcile_task, loaded_skills,
  with_skills, reconcile, found,
}

-- A cluster that answers the controller about the task of one key: the skills load, a read gives the
-- task that is there, and a status update of that task changes its status alone.
pub record Answers {W : Type 0} (api : Api W) (key : Str) (there : W → Option DiagnosisTask)
    : Type 0 where
  pub loads :
      (w : W) (t : DiagnosisTask)
      → there w ≡ some t
      → (sm : SkillManager) × (w' : W) × (api.load_skill_manager w ≡ (ok sm, w'))
        × (there w' ≡ some t)
  pub reads :
      (w : W) (t : DiagnosisTask)
      → there w ≡ some t
      → (w' : W) × (api.get key w ≡ (found t, w')) × (there w' ≡ some t)
  pub writes_status :
      (w : W) (t u : DiagnosisTask)
      → there w ≡ some t
      → u.name ≡ t.name
      → u.namespace ≡ t.namespace
      → (w' : W) × (api.update_status u w ≡ (none, w'))
        × (there w' ≡ some (record t { status = u.status }))

module _ {W : Type 0} (api : Api W) (key : Str) (there : W → Option DiagnosisTask)
    (a : Answers api key there) where
  -- The skills are there, and so is the task.
  loaded_skills-there :
      (o : Option SkillManager) (w : W) (t : DiagnosisTask)
      → there w ≡ some t
      → (sm : SkillManager) × (w' : W) × (loaded_skills api o w ≡ (ok sm, w')) × (there w' ≡ some t)
  loaded_skills-there none w t e = a.loads w t e
  loaded_skills-there (some sm) w t e = (sm, w, refl, e)

  -- A call of the reconciler reaches the phase of the task.
  pub reconcile-there :
      (r : Reconciler) (w : W) (t : DiagnosisTask)
      → there w ≡ some t
      → is_over t ≡ false
      → (sm : SkillManager) × (w' : W) × (there w' ≡ some t)
        × (reconcile api key r w
            ≡ on_phase api t.status.phase key t (record r { skill_manager = some sm }) w')
  unfolding reconcile with_skills reconcile_task on_found
  reconcile-there r w t e alive =
      let (sm, w₁, l, e₁) = loaded_skills-there r.skill_manager w t e in
      let (w₂, g, e₂) = a.reads w₁ t e₁ in (sm, w₂, e₂, rw (l, g, alive) refl)

  -- A task that waits is moved to Running once it is approved.
  on_phase-waiting :
      (r : Reconciler) (w w' : W) (t : DiagnosisTask)
      → is_active key r ≡ false
      → t.spec.approved ≡ true
      → api.update_status (with_phase running t) w ≡ (none, w')
      → on_phase api waiting_approval key t r w ≡ ends requeue no_effect r w'
  unfolding on_phase on_idle await requeue_unless
  on_phase-waiting r w w' t idle approved u =
      rw (idle, on_phase, on_idle)
        (ap (λ y. await api y t r w) approved ∙ ap (requeue_unless _ r) u)

  on_phase-running :
      (r : Reconciler) (w : W) (t : DiagnosisTask)
      → is_active key r ≡ false
      → (on_phase api running key t r w).effect ≡ starts t
  unfolding on_phase on_idle
  on_phase-running r w t idle = rw idle refl

  pub reconcile-resumes :
      (r : Reconciler) (w : W) (t : DiagnosisTask)
      → there w ≡ some t
      → is_over t ≡ false
      → t.status.phase ≡ waiting_approval
      → t.spec.approved ≡ true
      → is_active key r ≡ false
      → (r' : Reconciler) × (w' : W) × (reconcile api key r w ≡ ends requeue no_effect r' w')
        × (there w' ≡ some (with_phase running t))
        × (is_active key r' ≡ false)
  unfolding with_phase is_active
  reconcile-resumes r w t e alive waits approved idle =
      let (sm, w₁, e₁, m) = reconcile-there r w t e alive in
      let (w₂, u, e₂) = a.writes_status w₁ t (with_phase running t) e₁ refl refl in
      let r' = record r { skill_manager = some sm } in
      (
        r',
        w₂,
        m
            ∙ (ap (λ p. on_phase api p key t r' w₁) waits
                ∙ on_phase-waiting r' w₁ w₂ t idle approved u),
        e₂,
        idle,
      )

  pub reconcile-starts :
      (r : Reconciler) (w : W) (t : DiagnosisTask)
      → there w ≡ some t
      → is_over t ≡ false
      → t.status.phase ≡ running
      → is_active key r ≡ false
      → (reconcile api key r w).effect ≡ starts t
  unfolding is_active
  reconcile-starts r w t e alive runs idle =
      let (sm, w₁, e₁, m) = reconcile-there r w t e alive in
      let r' = record r { skill_manager = some sm } in
      ap (λ x. x.effect) (m ∙ ap (λ p. on_phase api p key t r' w₁) runs)
      ∙ on_phase-running r' w₁ t idle

  -- A task that was just created becomes pending.
  reconcile-accepts :
      (r : Reconciler) (w : W) (t : DiagnosisTask)
      → there w ≡ some t
      → is_over t ≡ false
      → t.status.phase ≡ unset
      → is_active key r ≡ false
      → (r' : Reconciler) × (w' : W) × (reconcile api key r w ≡ ends requeue no_effect r' w')
        × (there w' ≡ some (with_phase pending t))
        × (is_active key r' ≡ false)
  unfolding with_phase is_active on_phase requeue_unless
  reconcile-accepts r w t e alive new idle =
      let (sm, w₁, e₁, m) = reconcile-there r w t e alive in
      let (w₂, u, e₂) = a.writes_status w₁ t (with_phase pending t) e₁ refl refl in
      let r' = record r { skill_manager = some sm } in
      (
        r',
        w₂,
        m ∙ (ap (λ p. on_phase api p key t r' w₁) new ∙ ap (requeue_unless (λ x. x) r') u),
        e₂,
        idle,
      )

  on_phase-pending :
      (r : Reconciler) (w w' : W) (t : DiagnosisTask)
      → is_active key r ≡ false
      → api.update_status (with_phase running t) w ≡ (none, w')
      → let m = on_phase api pending key t r w in
        (m.effect ≡ starts (with_phase running t)) × (m.world ≡ w')
  unfolding on_phase on_idle start_unless
  on_phase-pending r w w' t idle u =
      let launched = ap (start_unless key (with_phase running t) r) u in
      (rw idle (ap (λ m. m.effect) launched), rw idle (ap (λ m. m.world) launched))

  -- A pending task is moved to Running, and its agent starts.
  reconcile-launches :
      (r : Reconciler) (w : W) (t : DiagnosisTask)
      → there w ≡ some t
      → is_over t ≡ false
      → t.status.phase ≡ pending
      → is_active key r ≡ false
      → let m = reconcile api key r w in
        (m.effect ≡ starts (with_phase running t)) × (there m.world ≡ some (with_phase running t))
  unfolding is_active with_phase
  reconcile-launches r w t e alive waits idle =
      let (sm, w₁, e₁, m) = reconcile-there r w t e alive in
      let (w₂, u, e₂) = a.writes_status w₁ t (with_phase running t) e₁ refl refl in
      let r' = record r { skill_manager = some sm } in
      let same = m ∙ ap (λ p. on_phase api p key t r' w₁) waits in
      let (started, left) = on_phase-pending r' w₁ w₂ t idle u in
      (ap (λ x. x.effect) same ∙ started, ap (λ x. there x.world) same ∙ (ap there left ∙ e₂))

  -- Two calls take a new task to its agent.
  pub new_task-starts :
      (r : Reconciler) (w : W) (t : DiagnosisTask)
      → there w ≡ some t
      → t.is_deleting ≡ false
      → t.status.phase ≡ unset
      → is_active key r ≡ false
      → let m = reconcile api key r w in
        let m' = reconcile api key m.reconciler m.world in
        (m.reply ≡ requeue)
        × (m'.effect ≡ starts (with_phase running t))
        × (there m'.world ≡ some (with_phase running t))
  unfolding is_over with_phase
  new_task-starts r w t e alive new idle =
      let (r', w', m, e', idle') = reconcile-accepts r w t e (rw (alive, new) refl) new idle in
      let (started, left) =
        reconcile-launches r' w' (with_phase pending t) e' (rw alive refl) refl idle' in
      (
        ap (λ x. x.reply) m,
        ap (λ x. (reconcile api key x.reconciler x.world).effect) m ∙ started,
        ap (λ x. there (reconcile api key x.reconciler x.world).world) m ∙ left,
      )

  on_phase-busy :
      (r : Reconciler) (w : W) (t : DiagnosisTask)
      → is_active key r ≡ true
      → on_phase api waiting_approval key t r w ≡ ends done no_effect r w
  unfolding on_phase
  on_phase-busy r w t busy = rw busy refl

  -- Where an agent is registered, a call changes nothing.
  pub reconcile-busy :
      (r : Reconciler) (w : W) (t : DiagnosisTask)
      → there w ≡ some t
      → t.is_deleting ≡ false
      → t.status.phase ≡ waiting_approval
      → is_active key r ≡ true
      → let m = reconcile api key r w in
        (m.reply ≡ done)
        × (m.effect ≡ no_effect)
        × (there m.world ≡ some t)
        × (m.reconciler.active_agents ≡ r.active_agents)
  unfolding is_over is_active on_phase
  reconcile-busy r w t e alive waits busy =
      let (sm, w₁, e₁, m) = reconcile-there r w t e (rw (alive, waits) refl) in
      let r' = record r { skill_manager = some sm } in
      let n = m ∙ (ap (λ p. on_phase api p key t r' w₁) waits ∙ on_phase-busy r' w₁ t busy) in
      (
        ap (λ x. x.reply) n,
        ap (λ x. x.effect) n,
        ap (λ x. there x.world) n ∙ e₁,
        ap (λ x. x.reconciler.active_agents) n,
      )
