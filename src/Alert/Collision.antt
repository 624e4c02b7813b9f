-- ===== src/Alert/Collision.antt =====
-- Two groups in one millisecond (internal/alert/creator.go): their tasks have one name if their
-- alerts have.
use mathlib.Core.Path.{ap₂, subst}
use kubeminds.Prelude.{◌≡◌, sym, ap, none}
use kubeminds.Prelude.Bytes.{Str}
use kubeminds.Crd.{DiagnosisTask}
use kubeminds.Alert.Types.{AlertGroup}
use kubeminds.Alert.Names.{build_task_name}
use kubeminds.Alert.Creator.{
  created, already_exists, Cluster, build_task, create_error, create_task,
}

-- What the documentation of the cluster says of `Create`: while an object of the same name and
-- namespace is there, the call answers that it exists and changes nothing. `Holds w ns name` says
-- that it is there.
pub record RefusesDuplicates {W : Type 0} (c : Cluster W) (Holds : W → Str → Str → Type 0)
    : Type 0 where
  pub is_there :
      (t : DiagnosisTask) (w : W)
      → (c.create t w).0 ≡ created
      → Holds (c.create t w).1 t.namespace t.name
  pub stays_there : (ns name : Str) (w : W) → Holds w ns name → Holds (c.unix_milli w).1 ns name
  pub no_change :
      (t : DiagnosisTask) (w : W) → Holds w t.namespace t.name → c.create t w ≡ (already_exists, w)

-- In a cluster that answers for a name that is there that it exists, and changes nothing: when the
-- task of one group was just created, and the clock still shows the millisecond of its name, the
-- creation of the task of any other group with the same alert name reports success and creates
-- nothing, whatever the namespace, the pod and the labels of that group.
pub second_task_lost :
    {W : Type 0} (c : Cluster W) (Holds : W → Str → Str → Type 0)
    → RefusesDuplicates c Holds
    → (ns : Str) (g h : AlertGroup) (w : W) → g.alert_name ≡ h.alert_name
    → let millis = (c.unix_milli w).0 in
      let (reply, w') =
        c.create
          (build_task (build_task_name c.fold g.alert_name millis) ns g)
          (c.unix_milli w).1 in
      reply ≡ created
      → (c.unix_milli w').0 ≡ millis
      → create_task c ns h w' ≡ (none, (c.unix_milli w').1)
unfolding create_task create_error build_task
second_task_lost c Holds r ns g h w same made slow =
    let name = build_task_name c.fold g.alert_name (c.unix_milli w).0 in
    let first = c.create (build_task name ns g) (c.unix_milli w).1 in
    let there = r.stays_there ns name first.1 (r.is_there (build_task name ns g) _ made) in
    let again = ap₂ (build_task_name c.fold) same (sym slow) in
    ap (λ p. (create_error h.key p.0, p.1))
      (r.no_change (build_task (build_task_name c.fold h.alert_name (c.unix_milli first.1).0) ns h)
        (c.unix_milli first.1).1 (subst (λ n. Holds (c.unix_milli first.1).1 ns n) again there))
