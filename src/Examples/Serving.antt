-- ===== src/Examples/Serving.antt =====
-- The REST server over a cluster with one task (internal/api/server.go), and the reconciler on the
-- task after an approval.
use kubeminds.Prelude.{
  ◌≡◌, refl, sym, ◌∙◌, ap, none_ne_some, false, true, [], ◌∷◌, Option, none, some, Bool,
}
use kubeminds.Prelude.Bytes.{Str, lit, str_eq}
use kubeminds.Prelude.Int.{pos}
use kubeminds.Prelude.Errors.{ok, err}
use kubeminds.Crd.{DiagnosisTask, running, waiting_approval}
use kubeminds.Llm.Router.{Builders}
use kubeminds.Tools.Client.{Kube}
use kubeminds.Controller.Reconcile.{
  is_active, Api, Reconciler, requeue, done, no_effect, delete_agent, starts, with_phase, reconcile,
  GetReply, not_found,
}
use kubeminds.Server.Handlers.{
  Client, Found, found, missing, Server, no_content, approve, post_approve, delete_named, serve,
}
use kubeminds.Server.Writes.{Keeps, serve-keeps}
use kubeminds.Server.Approvals.{Answers, approve_task-starts, approve_task-lost}
use kubeminds.Server.Deletions.{Drops, delete_task-leaves}
use kubeminds.Controller.InFlight.{System, after_reconcile}
use kubeminds.Examples.Reconciling.{task, idle}

abbrev Store : Type 0
Store = Option DiagnosisTask

abbrev no_kube : Kube Store Str Str
no_kube = record {
  get = λ kind namespace name w. (err name, w);
  list_events = λ namespace selector w. (ok [], w);
  open_logs = λ namespace name tail w. (err name, w);
  read_stream = λ s w. (ok s, w);
  delete_pod = λ namespace name w. (none, w);
  patch_deployment = λ namespace name patch w. (none, w);
  update_scale = λ namespace name n w. (none, w);
  pod_args = λ s. err s;
  node_args = λ s. err s;
  service_args = λ s. err s;
  pvc_args = λ s. err s;
  pv_args = λ s. err s;
  delete_pod_args = λ s. err s;
  patch_deployment_args = λ s. err s;
  scale_stateful_set_args = λ s. err s;
  marshal_clean = λ o. ok o;
}

abbrev got : Store → Found DiagnosisTask
got none = missing (lit "not found")
got (some t) = found t

abbrev read : Store → GetReply
read none = not_found
read (some t) = kubeminds.Controller.Reconcile.found t

-- An update leaves the status, and a status update the rest.
abbrev updated : DiagnosisTask → Store → Store
updated u none = none
updated u (some t) = some (record u { status = t.status })

abbrev status_updated : DiagnosisTask → Store → Store
status_updated u none = none
status_updated u (some t) = some (record t { status = u.status })

abbrev client : Client Store
client = record {
  list = λ namespace w. (ok [], w);
  create = λ t w. (ok t, some t);
  get = λ namespace name w. (got w, w);
  update = λ u w. (ok u, updated u w);
  delete = λ namespace name w. (found tt, none);
  marshal = λ p. ok [];
  decode = λ s. err s;
  unix = λ w. (pos 0, w);
  monotonic = λ w. (0, w);
}

abbrev server : Server Store Str Str
server = record {
  client = client;
  kube = no_kube;
  skill_manager = none;
  tool_router = none;
  llm_router = none;
}

abbrev api : Api Store
api = record {
  get = λ key w. (read w, w);
  update_status = λ u w. (none, status_updated u w);
  load_skill_manager = λ w. (ok (record { skills = [] }), w);
}

abbrev no_providers : Builders Store
no_providers = record {
  openai = λ cfg ms ts w. (err [], w);
  gemini = λ cfg ms ts w. (err [], w);
  anthropic = λ cfg ms ts w. (err [], w);
  quote = λ s. s;
}

store-Answers : Answers api client (lit "default") (lit "t") (lit "default/t") (λ w. w)
store-Answers = record {
  controller = record {
    loads = λ w t e. (record { skills = [] }, w, refl, e);
    reads = λ w t e. (w, rw e refl, e);
    writes_status = λ w t u e n m. (status_updated u w, refl, ap (status_updated u) e);
  };
  serves = λ w t e. (w, rw e refl, e);
  updates = λ w t u e n m. (u, updated u w, refl, ap (updated u) e);
}

approve_task-starts_example :
    let after =
      (serve no_providers server
        (post_approve (lit "default") (lit "t"))
        (some (task waiting_approval))).1 in
    let m = reconcile api (lit "default/t") idle after in
    (m.reply ≡ requeue)
    × ((reconcile api (lit "default/t") m.reconciler m.world).effect
        ≡ starts (with_phase running (approve (task waiting_approval))))
unfolding is_active
approve_task-starts_example =
    approve_task-starts api no_providers server (lit "default") (lit "t") (lit "default/t") (λ w. w)
      store-Answers idle (some (task waiting_approval)) (task waiting_approval) refl refl refl refl

-- The agent of the task is still registered.
abbrev busy : Reconciler
busy = record { skill_manager = none; active_agents = lit "default/t" ∷ [] }

approve_task-lost_example :
    let after =
      (serve no_providers server
        (post_approve (lit "default") (lit "t"))
        (some (task waiting_approval))).1 in
    let m = reconcile api (lit "default/t") busy after in
    (m.reply ≡ done)
    × (m.effect ≡ no_effect)
    × (m.world ≡ some (approve (task waiting_approval)))
    × (is_active (lit "default/t") (delete_agent (lit "default/t") m.reconciler) ≡ false)
unfolding is_active str_eq lit
approve_task-lost_example =
    approve_task-lost api no_providers server (lit "default") (lit "t") (lit "default/t") (λ w. w)
      store-Answers busy (some (task waiting_approval)) (task waiting_approval) refl refl refl refl

abbrev at_work : System Store
at_work = record {
  reconciler = busy;
  in_flight = lit "default/t" ∷ [];
  cancelled = [];
  world = some (task running);
}

store-Drops : Drops api client (lit "default") (lit "t") (lit "default/t") (λ w. w)
store-Drops = record {
  deletes = λ w t e. (none, refl, refl);
  loads = λ w e. e;
  misses = λ w e. rw e refl;
}

delete_task-leaves_example :
    let (response, w) =
      serve no_providers server (delete_named (lit "default") (lit "t")) at_work.world in
    let y =
      after_reconcile
        (lit "default/t")
        (reconcile api (lit "default/t") at_work.reconciler w)
        at_work in
    (response.status ≡ no_content)
    × (y.in_flight ≡ at_work.in_flight)
    × (y.cancelled ≡ at_work.cancelled)
    × (y.reconciler.active_agents ≡ at_work.reconciler.active_agents)
delete_task-leaves_example =
    delete_task-leaves api no_providers server (lit "default") (lit "t") (lit "default/t") (λ w. w)
      store-Drops at_work (task running) refl

-- There is a task, and it is not being deleted.
abbrev Alive : Store → Type 0
Alive none = ⊥
Alive (some t) = t.is_deleting ≡ false

abbrev deleting : Found DiagnosisTask → Bool
deleting (found t) = t.is_deleting
deleting _ = true

updated-Alive :
    (t : DiagnosisTask) (w : Store) → got w ≡ found t → Alive w → Alive (updated (approve t) w)
unfolding approve
updated-Alive t none e p = p
updated-Alive t (some u) e p = sym (ap deleting e) ∙ p

server-Keeps : Keeps no_providers server Alive (post_approve (lit "default") (lit "t"))
server-Keeps = record {
  keeps_list = λ namespace w p. p;
  keeps_get = λ namespace name w p. p;
  keeps_unix = λ w p. p;
  keeps_clock = λ w p. p;
  keeps_tools = λ ps w e p. absurd (none_ne_some e);
  keeps_chat = λ r w e p. absurd (none_ne_some e);
  keeps_create = λ body t now w e d p. cc;
  keeps_update = λ namespace name t w e g p. updated-Alive t w g p;
  keeps_delete = λ namespace name w e p. cc;
}

serve-keeps_example :
    Alive
      (serve no_providers server
        (post_approve (lit "default") (lit "t"))
        (some (task waiting_approval))).1
serve-keeps_example =
    serve-keeps no_providers server Alive (post_approve (lit "default") (lit "t")) server-Keeps
      (some (task waiting_approval)) refl
