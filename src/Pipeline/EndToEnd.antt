-- ===== src/Pipeline/EndToEnd.antt =====
-- An alert on its way from the webhook to the end of the goroutine that diagnoses it: internal/alert,
-- and internal/controller with the agent.
use kubeminds.Prelude.{◌≡◌, Option}
use kubeminds.Prelude.Bytes.{Str}
use kubeminds.Crd.{DiagnosisTask, running}
use kubeminds.Agent.SkillManager.{SkillManager}
use kubeminds.Alert.Aggregator.{Aggregator}
use kubeminds.Controller.Reconcile.{Api, Reconciler, requeue, starts, with_phase, reconcile}
use kubeminds.Controller.Job.{Deps, job}
use kubeminds.Controller.Settled.{Settles}

-- The task that an alert has become: two calls of the reconciler start its goroutine, which ends as
-- `Settles` says, if nothing else comes between.
abbrev pub IsDiagnosed :
    {W E : Type 0}
    → Api W
    → Deps W E
    → SkillManager
    → (Str → W → Option DiagnosisTask)
    → Reconciler
    → Str
    → DiagnosisTask
    → W
    → Type 0
IsDiagnosed api deps sm there r k t w =
    let m = reconcile api k r w in
    let m' = reconcile api k m.reconciler m.world in
    let u = with_phase running t in
    (m.reply ≡ requeue)
    × (m'.effect ≡ starts u)
    × Settles api deps k sm u (there k) m'.world (job api deps k sm u m'.world)
