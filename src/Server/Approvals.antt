-- ===== src/Server/Approvals.antt =====
-- internal/api/server.go with internal/controller/diagnosistask_controller.go: an approval resumes
-- the task that waits for it.
use kubeminds.Prelude.{◌≡◌, refl, ap, ◌∙◌, true, false, Option, some}
use kubeminds.Prelude.Bytes.{Str, str_eq_refl}
use kubeminds.Prelude.Errors.{ok}
use kubeminds.Crd.{DiagnosisTask, DiagnosisPhase, running, waiting_approval}
use kubeminds.Llm.Router.{Builders}
use kubeminds.Controller.Reconcile.{
  Api, Reconciler, requeue, starts, done, no_effect, delete_agent, is_active, with_phase, is_over,
  reconcile,
}
use kubeminds.Controller.Answering
use kubeminds.Controller.Answering.{reconcile-resumes, reconcile-starts, reconcile-busy}
use kubeminds.Controller.Agents.{is_active-delete_agent}
use kubeminds.Server.Handlers.{Client, found, Server, approve, approve_task, post_approve, serve}

-- A cluster that answers every call about the task of one key, as the server and the controller see
-- it: an update by the server leaves the status as it is, as for a resource with a status subresource.
pub record Answers {W : Type 0} (api : Api W) (client : Client W) (namespace name key : Str)
    (there : W → Option DiagnosisTask) : Type 0 where
  pub controller : Answering.Answers api key there
  pub serves :
      (w : W) (t : DiagnosisTask)
      → there w ≡ some t
      → (w' : W) × (client.get namespace name w ≡ (found t, w')) × (there w' ≡ some t)
  pub updates :
      (w : W) (t u : DiagnosisTask)
      → there w ≡ some t
      → u.name ≡ t.name
      → u.namespace ≡ t.namespace
      → (v : DiagnosisTask) × (w' : W) × (client.update u w ≡ (ok v, w'))
        × (there w' ≡ some (record u { status = t.status }))

approve-phase :
    (t : DiagnosisTask)
    → t.status.phase ≡ waiting_approval
    → (approve t).status.phase ≡ waiting_approval
unfolding approve
approve-phase t e = e

approve-approved : (t : DiagnosisTask) → (approve t).spec.approved ≡ true
unfolding approve
approve-approved t = refl

with_phase-phase : (p : DiagnosisPhase) (t : DiagnosisTask) → (with_phase p t).status.phase ≡ p
unfolding with_phase
with_phase-phase p t = refl

over_while :
    (t : DiagnosisTask)
    → t.is_deleting ≡ false
    → t.status.phase ≡ waiting_approval
    → (is_over (approve t) ≡ false) × (is_over (with_phase running (approve t)) ≡ false)
unfolding is_over approve with_phase
over_while t d p = (rw (d, p) refl, rw d refl)

module _ {W O S : Type 0} (api : Api W) (b : Builders W) (s : Server W O S)
    (namespace name key : Str) (there : W → Option DiagnosisTask)
    (a : Answers api s.client namespace name key there) where
  approve_task-there :
      (w : W) (t : DiagnosisTask)
      → there w ≡ some t
      → there (serve b s (post_approve namespace name) w).1 ≡ some (approve t)
  unfolding serve approve_task approve
  approve_task-there w t e =
      let (w₁, g, e₁) = a.serves w t e in
      let (v, w₂, u, e₂) = a.updates w₁ t (approve t) e₁ refl refl in rw (g, u) e₂

-- A diagnosis that waits for an approval goes on once it is approved: after the request to approve
-- it, one call of the reconciler asks to be called again, and the second starts an agent on the
-- task, now approved and Running. It holds for a task that is not being deleted and has no agent
-- here, and where the cluster answers every call about it, with a status subresource.
pub approve_task-starts :
    {W O S : Type 0} (api : Api W) (b : Builders W) (s : Server W O S) (namespace name key : Str)
    (there : W → Option DiagnosisTask)
    → Answers api s.client namespace name key there
    → (r : Reconciler) (w : W) (t : DiagnosisTask) → there w ≡ some t
    → t.is_deleting ≡ false
    → t.status.phase ≡ waiting_approval
    → is_active key r ≡ false
    → let m = reconcile api key r (serve b s (post_approve namespace name) w).1 in
      (m.reply ≡ requeue)
      × ((reconcile api key m.reconciler m.world).effect ≡ starts (with_phase running (approve t)))
approve_task-starts api b s namespace name key there a r w t e alive waits idle =
    let approved = approve_task-there api b s namespace name key there a w t e in
    let (o, o') = over_while t alive waits in
    let (r', w', m, e', idle') =
      reconcile-resumes api key there a.controller r _ (approve t) approved o
        (approve-phase t waits) (approve-approved t) idle in
    (
      ap (λ x. x.reply) m,
      ap (λ x. (reconcile api key x.reconciler x.world).effect) m
          ∙ reconcile-starts api key there a.controller r' w' (with_phase running (approve t)) e' o'
              (with_phase-phase running (approve t)) idle',
    )

-- An approval can be lost: where the agent that asked for it is still registered when the reconciler is
-- called after the approval, the call does nothing and asks for no other. The task is then there,
-- approved and waiting, and once the goroutine of the agent has taken off its entry no agent is
-- registered for it.
pub approve_task-lost :
    {W O S : Type 0} (api : Api W) (b : Builders W) (s : Server W O S) (namespace name key : Str)
    (there : W → Option DiagnosisTask)
    → Answers api s.client namespace name key there
    → (r : Reconciler) (w : W) (t : DiagnosisTask) → there w ≡ some t
    → t.is_deleting ≡ false
    → t.status.phase ≡ waiting_approval
    → is_active key r ≡ true
    → let m = reconcile api key r (serve b s (post_approve namespace name) w).1 in
      (m.reply ≡ done)
      × (m.effect ≡ no_effect)
      × (there m.world ≡ some (approve t))
      × (is_active key (delete_agent key m.reconciler) ≡ false)
unfolding approve
approve_task-lost api b s namespace name key there a r w t e alive waits busy =
    let approved = approve_task-there api b s namespace name key there a w t e in
    let (done', nothing, left, _) =
      reconcile-busy api key there a.controller r _ (approve t) approved alive waits busy in
    (
      done',
      nothing,
      left,
      is_active-delete_agent key key (reconcile api key r _).reconciler ∙ rw (str_eq_refl key) refl,
    )
