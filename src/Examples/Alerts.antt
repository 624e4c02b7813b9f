-- ===== src/Examples/Alerts.antt =====
-- Alerts of a crashing pod through the webhook, the groups and a sweep (internal/alert).
use kubeminds.Prelude.{ℕ, ◌≡◌, ◌↔◌, refl, Bool, true, false, ◌&&◌, List, [], ◌∷◌, none, arith}
use kubeminds.Prelude.Lists.{any}
use kubeminds.Prelude.Bytes.{Str, lit, str_eq, str_eq_refl}
use kubeminds.Prelude.Maps.{label}
use kubeminds.Crd.{DiagnosisTask}
use kubeminds.Alert.Types.{AlertItem, AlertGroup, build_group_key}
use kubeminds.Alert.Names.{build_task_name}
use kubeminds.Alert.Creator.{CreateReply, created, already_exists, Cluster, build_task, create_task}
use kubeminds.Alert.Aggregator.{Aggregator, new_aggregator, ingest, collect, sweep}
use kubeminds.Alert.Handler.{serve_webhook}
use kubeminds.Alert.Keys.{IsPlain, name_part, namespace_part, pod_part, build_group_key_iff}
use kubeminds.Alert.ValidNames.{IsDnsLabel, build_task_name-IsDnsLabel}
use kubeminds.Alert.Windows.{IsValid, Swept, ingest-IsValid, collect-Swept}
use kubeminds.Alert.Conservation.{Past, webhook, sweeps, history}
use kubeminds.Alert.Collision.{RefusesDuplicates, second_task_lost}

abbrev item : Str → Str → AlertItem
item status pod = record {
  status = status;
  labels =
      (lit "alertname", lit "KubePodCrashLooping")
      ∷ (lit "namespace", lit "prod")
      ∷ (lit "pod", pod)
      ∷ [];
  annotations = [];
  starts_at = 0;
  ends_at = 0;
  generator_url = [];
  fingerprint = [];
}

abbrev pub web : AlertItem
web = item (lit "firing") (lit "web")

abbrev db : AlertItem
db = item (lit "firing") (lit "db")

abbrev body : List (ℕ × AlertItem)
body = (10, web) ∷ (11, db) ∷ (12, web) ∷ (13, item (lit "resolved") (lit "web")) ∷ []

abbrev pub start : Aggregator
start = new_aggregator (lit "ops") 100 false

item-IsPlain : IsPlain web.labels × IsPlain db.labels
unfolding label lit str_eq
item-IsPlain = ((omega arith, omega arith), (omega arith, omega arith))

build_group_key_iff_example : (build_group_key web.labels ≡ build_group_key db.labels) ↔ (
    (name_part web.labels ≡ name_part db.labels)
    × (namespace_part web.labels ≡ namespace_part db.labels)
    × (pod_part web.labels ≡ pod_part db.labels))
build_group_key_iff_example = build_group_key_iff web.labels db.labels item-IsPlain.0 item-IsPlain.1

build_task_name-IsDnsLabel_example :
    IsDnsLabel (build_task_name (λ r. r) (lit "KubePodCrashLooping") 1700000000000)
build_task_name-IsDnsLabel_example =
    build_task_name-IsDnsLabel (λ r. r) (lit "KubePodCrashLooping") 1700000000000 (omega arith)

start-IsValid : IsValid 5 start.groups
unfolding new_aggregator
start-IsValid = record { is_map = tt; all = tt }

collect-Swept_example : Swept 100 200 (ingest 10 web start).1.groups
collect-Swept_example =
    collect-Swept 100 10 200 (ingest 10 web start).1.groups (omega arith)
      (ingest-IsValid 5 10 web start (omega arith) start-IsValid)

-- A cluster of the names of its tasks, whose clock stands still.
abbrev Names : Type 0
Names = List (Str × Str)

abbrev is_there : Names → Str → Str → Bool
is_there w ns name = any (λ e. str_eq e.0 ns && str_eq e.1 name) w

abbrev create_if : Bool → DiagnosisTask → Names → CreateReply × Names
create_if true t w = (already_exists, w)
create_if false t w = (created, (t.namespace, t.name) ∷ w)

abbrev cluster : Cluster Names
cluster = record {
  create = λ t w. create_if (is_there w t.namespace t.name) t w;
  unix_milli = λ w. (1700000000000, w);
  fold = λ r. r;
}

abbrev Holds : Names → Str → Str → Type 0
Holds w ns name = is_there w ns name ≡ true

created_there :
    (b : Bool) (t : DiagnosisTask) (w : Names)
    → (create_if b t w).0 ≡ created
    → Holds (create_if b t w).1 t.namespace t.name
created_there true t w e = cc
created_there false t w e = ground (arith, str_eq_refl t.namespace, str_eq_refl t.name)

cluster-RefusesDuplicates : RefusesDuplicates cluster Holds
cluster-RefusesDuplicates = record {
  is_there = λ t w e. created_there (is_there w t.namespace t.name) t w e;
  stays_there = λ ns name w h. h;
  no_change = λ t w h. rw h;
}

-- The aggregator of the tests, with an event store, and nothing handed over.
abbrev at_start : Past Names
at_start = record {
  aggregator = record start { has_l2_store = true };
  handed = 0;
  failed = 0;
  world = [];
}

-- All three firing alerts are handed over.
handed_three : (history cluster (webhook body ∷ sweeps 500 ∷ []) at_start).handed ≡ 3
unfolding history serve_webhook collect new_aggregator str_eq sweep
handed_three = refl

abbrev group : Str → AlertGroup
group pod = record {
  key = lit "k";
  merged_labels = [];
  alert_name = lit "KubePodCrashLooping";
  namespace = lit "prod";
  pod = pod;
  first_seen = 0;
  last_seen = 0;
  count = 1;
}

abbrev first_name : Str
first_name = build_task_name cluster.fold (lit "KubePodCrashLooping") 1700000000000

second_task_lost_example :
    let w' = (cluster.create (build_task first_name (lit "ops") (group (lit "web"))) []).1 in
    create_task cluster (lit "ops") (group (lit "db")) w' ≡ (none, w')
second_task_lost_example =
    second_task_lost cluster Holds cluster-RefusesDuplicates (lit "ops") (group (lit "web"))
      (group (lit "db")) [] refl refl refl
