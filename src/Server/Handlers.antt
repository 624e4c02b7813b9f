-- ===== src/Server/Handlers.antt =====
-- internal/api/server.go: the handlers. The client of the cluster, the JSON library and the clock are
-- outside. A request stands after its route was found; the webhook has a module of its own.
use kubeminds.Prelude.{
  ℕ, ◌-◌, ◌/◌, true, List, [], ◌∷◌, ◌++◌, Option, none, some, map, if◌then◌else◌,
}
use kubeminds.Prelude.Int.{ℤ, pos, int_text}
use kubeminds.Prelude.Lists.{length}
use kubeminds.Prelude.Bytes.{Str, lit, is_empty}
use kubeminds.Prelude.Maps.{Labels}
use kubeminds.Prelude.Errors.{Fallible, ok, err}
use kubeminds.Crd.{DiagnosisTask, pending}
use kubeminds.Agent.Types.{user, Message, Tool}
use kubeminds.Agent.Skill.{Skill}
use kubeminds.Agent.SkillManager.{SkillManager, list_skills}
use kubeminds.Tools.Client.{Kube}
use kubeminds.Tools.Router.{ToolProvider, list_tools, route_tools}
use kubeminds.Llm.Router.{Builders, LlmRouter, router_chat}
use kubeminds.Controller.Reconcile.{with_phase}

-- The status codes that the handlers write: 200, 201, 204, 400, 404, 500 and 503.
pub data StatusCode : Type 0 where
  status_ok created no_content bad_request not_found : StatusCode
  internal_server_error service_unavailable : StatusCode

-- What is marshalled to JSON. A map of strings is an association list.
pub data Payload : Type 0 where
  task_list : List DiagnosisTask → ℕ → Payload
  one_task : DiagnosisTask → Payload
  skill_list : List Skill → Payload
  tool_config : List Labels → List Labels → Labels → Payload
  ping_response : Str → Str → ℕ → Str → Payload

pub record Response : Type 0 where
  pub status : StatusCode
  pub body : Str

-- The reply to `Get` and `Delete`; an error has its text, and is or is not of the kind NotFound.
pub data Found (A : Type 0) : Type 0 where
  found : A → Found A
  missing : Str → Found A
  get_failed : Str → Found A

-- `List` ("" for all namespaces), `Create` and `Update` with the object that the cluster returns,
-- `Get` and `Delete` by namespace and name, JSON, the clock in seconds, and the monotonic clock of
-- the process in nanoseconds.
pub record Client (W : Type 0) : Type 0 where
  pub list : Str → W → Fallible (List DiagnosisTask) × W
  pub create : DiagnosisTask → W → Fallible DiagnosisTask × W
  pub get : Str → Str → W → Found DiagnosisTask × W
  pub update : DiagnosisTask → W → Fallible DiagnosisTask × W
  pub delete : Str → Str → W → Found (Unit {0}) × W
  pub marshal : Payload → Fallible Str
  pub decode : Str → Fallible DiagnosisTask
  pub unix : W → ℤ × W
  pub monotonic : W → ℕ × W

pub record Server (W O S : Type 0) : Type 0 where
  pub client : Client W
  pub kube : Kube W O S
  pub skill_manager : Option SkillManager
  pub tool_router : Option (List (ToolProvider W))
  pub llm_router : Option (LlmRouter W)

-- `http.Error`
abbrev pub http_error : Str → StatusCode → Response
http_error text status = record { status = status; body = text ++ lit "\n" }

unfoldable pub approve : DiagnosisTask → DiagnosisTask
approve t = record {
  name = t.name;
  namespace = t.namespace;
  is_deleting = t.is_deleting;
  spec = record {
    target = t.spec.target;
    policy = t.spec.policy;
    alert_context = t.spec.alert_context;
    approved = true;
  };
  status = t.status;
}

-- The defaults of a posted task.
unfoldable pub with_defaults : ℤ → DiagnosisTask → DiagnosisTask
with_defaults now t =
    let named = record t {
      namespace = if is_empty t.namespace then lit "default" else t.namespace;
      name = if is_empty t.name then lit "manual-" ++ int_text now else t.name;
    } in
    with_phase pending named

abbrev pub tool_entry : {W : Type 0} → Tool W → Labels
tool_entry t = (lit "name", t.name) ∷ (lit "description", t.description) ∷ []

abbrev pub policies : Labels
policies =
    (lit "delete_pod", lit "Forbidden")
    ∷ (lit "restart_deployment", lit "HighRisk")
    ∷ (lit "get_pod_logs", lit "ReadOnly")
    ∷ []

abbrev pub config_of : {W : Type 0} → List (Tool W) → Payload
config_of tools =
    tool_config (map tool_entry tools)
      (((lit "name", lit "slack") ∷ (lit "status", lit "connected") ∷ []) ∷ []) policies

abbrev pub ping : List Message
ping =
    record {
      type = user;
      content = lit "Reply with 'pong' only.";
      tool_calls = [];
      tool_call_id = [];
    }
    ∷ []

module _ {W O S : Type 0} (b : Builders W) (s : Server W O S) where
  abbrev marshalled : StatusCode → Fallible Str → Response
  marshalled code (err e) = record { status = internal_server_error; body = e }
  marshalled code (ok text) = record { status = code; body = text }

  -- `respondJSON`
  unfoldable pub respond_json : StatusCode → Payload → Response
  respond_json code payload = marshalled code (s.client.marshal payload)

  abbrev pub answer_one : StatusCode → Fallible DiagnosisTask → Response
  answer_one code (ok t) = respond_json code (one_task t)
  answer_one code (err e) = http_error e internal_server_error

  abbrev pub answer_list : Fallible (List DiagnosisTask) → Response
  answer_list (ok ts) = respond_json status_ok (task_list ts (length ts))
  answer_list (err e) = http_error e internal_server_error

  -- `listTasks`, with the namespace of the query
  unfoldable pub list_tasks : Str → W → Response × W
  list_tasks namespace w = let (reply, w') = s.client.list namespace w in (answer_list reply, w')

  abbrev pub create_named : DiagnosisTask → ℤ × W → Response × W
  create_named t (now, w) =
      let (reply, w') = s.client.create (with_defaults now t) w in (answer_one created reply, w')

  -- The clock is read for a task without a name only.
  abbrev pub time_for : Str → W → ℤ × W
  time_for [] w = s.client.unix w
  time_for (c ∷ cs) w = (pos 0, w)

  abbrev pub create_decoded : Fallible DiagnosisTask → W → Response × W
  create_decoded (err e) w = (http_error (lit "invalid request body") bad_request, w)
  create_decoded (ok t) w = create_named t (time_for t.name w)

  -- `createTask`
  unfoldable pub create_task : Str → W → Response × W
  create_task body w = create_decoded (s.client.decode body) w

  abbrev pub answer_found : Found DiagnosisTask → Response
  answer_found (found t) = respond_json status_ok (one_task t)
  answer_found (missing e) = http_error (lit "task not found") not_found
  answer_found (get_failed e) = http_error e internal_server_error

  -- `getTask`
  unfoldable pub get_task : Str → Str → W → Response × W
  get_task namespace name w =
      let (reply, w') = s.client.get namespace name w in (answer_found reply, w')

  abbrev pub approve_found : Found DiagnosisTask × W → Response × W
  approve_found (found t, w) =
      let (reply, w') = s.client.update (approve t) w in (answer_one status_ok reply, w')
  approve_found (missing e, w) = (http_error e internal_server_error, w)
  approve_found (get_failed e, w) = (http_error e internal_server_error, w)

  -- `approveTask`
  unfoldable pub approve_task : Str → Str → W → Response × W
  approve_task namespace name w = approve_found (s.client.get namespace name w)

  abbrev pub answer_deleted : Found (Unit {0}) → Response
  answer_deleted (found _) = record { status = no_content; body = [] }
  answer_deleted (missing e) = http_error (lit "task not found") not_found
  answer_deleted (get_failed e) = http_error e internal_server_error

  -- `deleteTask`
  unfoldable pub delete_task : Str → Str → W → Response × W
  delete_task namespace name w =
      let (reply, w') = s.client.delete namespace name w in (answer_deleted reply, w')

  abbrev skills_of : Option SkillManager → List Skill
  skills_of none = []
  skills_of (some sm) = list_skills sm

  -- `listSkills`
  unfoldable pub answer_skills : W → Response × W
  answer_skills w = (respond_json status_ok (skill_list (skills_of s.skill_manager)), w)

  abbrev pub offered : Option (List (ToolProvider W)) → W → Fallible (List (Tool W)) × W
  offered none w = (ok (list_tools s.kube), w)
  offered (some providers) w = route_tools providers w

  abbrev answer_tools : Fallible (List (Tool W)) → Response
  answer_tools (err e) = http_error (lit "failed to list tools") internal_server_error
  answer_tools (ok ts) = respond_json status_ok (config_of ts)

  -- `getToolConfig`
  unfoldable pub get_tool_config : W → Response × W
  get_tool_config w = let (reply, w') = offered s.tool_router w in (answer_tools reply, w')

  abbrev answer_ping : Str → ℕ → Fallible Message → Response
  answer_ping provider latency (err e) =
      respond_json status_ok (ping_response provider (lit "error") latency e)
  answer_ping provider latency (ok m) =
      respond_json status_ok (ping_response provider (lit "ok") latency [])

  abbrev pub ping_router : Option (LlmRouter W) → W → Response × W
  ping_router none w = (http_error (lit "LLM provider not configured") service_unavailable, w)
  ping_router (some r) w =
      let (before, w₁) = s.client.monotonic w in
      let (reply, w₂) = router_chat b r ping [] w₁ in
      let (after, w₃) = s.client.monotonic w₂ in
      (answer_ping r.default_provider ((after - before) / 1000000) reply, w₃)

  -- `pingLLM`
  unfoldable pub ping_llm : W → Response × W
  ping_llm w = ping_router s.llm_router w

-- The routes of `Start`, but for the webhook.
pub data Request : Type 0 where
  get_tasks : Str → Request
  post_tasks : Str → Request
  get_named : Str → Str → Request
  delete_named : Str → Str → Request
  post_approve : Str → Str → Request
  get_skills get_config_tools post_ping get_healthz : Request

unfoldable pub serve : {W O S : Type 0} → Builders W → Server W O S → Request → W → Response × W
serve b s (get_tasks namespace) w = list_tasks b s namespace w
serve b s (post_tasks body) w = create_task b s body w
serve b s (get_named namespace name) w = get_task b s namespace name w
serve b s (delete_named namespace name) w = delete_task b s namespace name w
serve b s (post_approve namespace name) w = approve_task b s namespace name w
serve b s get_skills w = answer_skills b s w
serve b s get_config_tools w = get_tool_config b s w
serve b s post_ping w = ping_llm b s w
serve b s get_healthz w = (record { status = status_ok; body = lit "ok" }, w)
