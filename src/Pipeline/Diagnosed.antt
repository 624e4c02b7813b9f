-- ===== src/Pipeline/Diagnosed.antt =====
-- internal/alert with internal/controller: from the webhook to the agent.
use kubeminds.Prelude.{
  inl, inr, Bool-cases, ◌≢◌, ℕ, ◌-◌, ◌<◌, ◌≡◌, refl, true, false, List, [], ◌∷◌, Option, none, some,
}
use kubeminds.Prelude.Bytes.{Str, str_eq_refl}
use kubeminds.Prelude.Maps.{IsMap, lookup}
use kubeminds.Prelude.Errors.{ok}
use kubeminds.Crd.{DiagnosisTask, AlertContext, running}
use kubeminds.Alert.Types.{AlertItem, AlertGroup, build_group_key}
use kubeminds.Alert.Names.{build_task_name}
use kubeminds.Alert.Creator.{Cluster, build_task}
use kubeminds.Alert.Aggregator.{Aggregator, ingest, collect, sweep}
use kubeminds.Alert.Handler.{accepted, is_firing, ingest_all, serve_webhook}
use kubeminds.Alert.Windows.{ingest_entries}
use kubeminds.Controller.Reconcile.{
  Api, Reconciler, requeue, starts, is_active, with_phase, reconcile,
}
use kubeminds.Controller.Answering.{Answers, new_task-starts}
use kubeminds.Pipeline.Hosting.{Hosts, AllFree, Made, flush_all-Made, lookup-collect-mem}

-- The aggregator after a webhook with one alert, and the groups that a sweep takes.
abbrev pub told : ℕ → AlertItem → Aggregator → Aggregator
told seen item a = (serve_webhook (ok ((seen, item) ∷ [])) a).1

abbrev pub due : ℕ → Aggregator → List AlertGroup
due now a = (collect a.window_size now a.groups).0

-- A task, not approved, whose alert context has the labels of an alert.
pub record Describes (item : AlertItem) (t : DiagnosisTask) : Type 0 where
  pub context : AlertContext
  pub has_context : t.spec.alert_context ≡ some context
  pub labels : (k v : Str) → lookup k item.labels ≡ some v → lookup k context.labels ≡ some v
  pub unapproved : t.spec.approved ≡ false

-- The group of an alert, right after the alert.
pub record Grouped (seen : ℕ) (item : AlertItem) (a : Aggregator) : Type 0 where
  pub group : AlertGroup
  pub under_key : lookup (build_group_key item.labels) a.groups ≡ some group
  pub last_seen : group.last_seen ≡ seen
  pub labels : (k v : Str) → lookup k item.labels ≡ some v → lookup k group.merged_labels ≡ some v

-- A webhook with one firing alert.
webhook-Grouped :
    (seen : ℕ) (item : AlertItem) (a : Aggregator)
    → IsMap item.labels
    → is_firing item ≡ true
    → let (status, a') = serve_webhook (ok ((seen, item) ∷ [])) a in
      (status ≡ accepted) × Grouped seen item a' × (a'.window_size ≡ a.window_size)
unfolding serve_webhook ingest_all ingest
webhook-Grouped seen item a h fires =
    let k = build_group_key item.labels in
    let (g, e, _, s, _, labels) = ingest_entries seen item a.groups k h in
    rw fires (
      refl,
      record {
        group = g;
        under_key = rw (str_eq_refl k) at e;
        last_seen = s;
        labels = λ j v q. rw q at (labels j);
      },
      refl,
    )

module _ {W : Type 0} (c : Cluster W) (api : Api W) (key : Str → Str → Str)
    (there : Str → W → Option DiagnosisTask) (h : Hosts c key there) where
  -- What a sweep leaves in the cluster of an alert whose window has passed.
  sweep-Made :
      (seen now : ℕ) (item : AlertItem) (a : Aggregator) (w : W)
      → (g : Grouped seen item a) → a.window_size < now - seen
      → AllFree c key there a (due now a) w
      → Made c key there a.namespace g.group w (sweep c now a w).2
  unfolding sweep
  sweep-Made seen now item a w g late f = flush_all-Made c key there h a (due now a) w g.group f (
      lookup-collect-mem a.window_size now (build_group_key item.labels) g.group a.groups
        g.under_key (rw g.last_seen late))

  build_task-Describes :
      (item : AlertItem) (g : AlertGroup) (name namespace : Str)
      → ((k v : Str) → lookup k item.labels ≡ some v → lookup k g.merged_labels ≡ some v)
      → Describes item (build_task name namespace g)
  unfolding build_task
  build_task-Describes item g name namespace labels = record {
    context = record { name = g.alert_name; labels = g.merged_labels };
    has_context = refl;
    labels = labels;
    unapproved = refl;
  }

-- A firing alert reaches its agent: the webhook accepts it, and a sweep after its window leaves a task in
-- the cluster that was not there before the sweep and carries the labels of the alert, not approved,
-- on which two calls of the reconciler start an agent and leave it Running; the first asks for the
-- second. It holds for
-- any groups that the aggregator had, for an alert in whose labels no name stands twice, in a cluster
-- that keeps its tasks, takes new ones and answers the controller, where no name that the sweep makes
-- is taken at that time, and where agents run for tasks that are there only.
pub webhook-starts :
    {W : Type 0} (c : Cluster W) (api : Api W) (key : Str → Str → Str)
    (there : Str → W → Option DiagnosisTask)
    → Hosts c key there
    → ((k : Str) → Answers api k (there k))
    → (seen now : ℕ) (item : AlertItem) (a : Aggregator) (w : W) (r : Reconciler)
    → IsMap item.labels
    → is_firing item ≡ true
    → a.window_size < now - seen
    → AllFree c key there (told seen item a) (due now (told seen item a)) w
    → ((k : Str) → is_active k r ≡ true → there k w ≢ none)
    → let w' = (sweep c now (told seen item a) w).2 in
      ((serve_webhook (ok ((seen, item) ∷ [])) a).0 ≡ accepted)
      × ((t : DiagnosisTask) × (k : Str) × (k ≡ key t.namespace t.name)
          × (there k w ≡ none)
          × (there k w' ≡ some t)
          × Describes item t
          × (let m = reconcile api k r w' in
              let m' = reconcile api k m.reconciler m.world in
              (m.reply ≡ requeue)
              × (m'.effect ≡ starts (with_phase running t))
              × (there k m'.world ≡ some (with_phase running t))))
unfolding build_task
webhook-starts c api key there h answers seen now item a w r labels fires late f agents =
    let (accepts, g, window) = webhook-Grouped seen item a labels fires in
    let a' = told seen item a in
    let made = sweep-Made c api key there h seen now item a' w g (rw window late) f in
    let name = build_task_name c.fold g.group.alert_name made.millis in
    let k = key a'.namespace name in
    let two =
      new_task-starts api k (there k) (answers k) r (sweep c now a' w).2
        (build_task name a'.namespace g.group) made.exists refl refl (idle k made.new) in
    (
      accepts,
      (
        build_task name a'.namespace g.group,
        k,
        refl,
        made.new,
        made.exists,
        build_task-Describes c api key there h item g.group name a'.namespace g.labels,
        two,
      ),
    )
  where
    idle : (k : Str) → there k w ≡ none → is_active k r ≡ false
    idle k e = elim (Bool-cases (is_active k r)) [ inl y ↦ absurd (agents k y e) | inr n ↦ n ]
