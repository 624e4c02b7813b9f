-- ===== src/Server/Writes.antt =====
-- internal/api/server.go: which requests change the cluster, and how.
use kubeminds.Prelude.{◌≡◌, refl, List, [], ◌∷◌, Option, none, some}
use kubeminds.Prelude.Int.{ℤ}
use kubeminds.Prelude.Bytes.{Str}
use kubeminds.Prelude.Errors.{Fallible, ok, err}
use kubeminds.Crd.{DiagnosisTask}
use kubeminds.Tools.Router.{ToolProvider, route_tools}
use kubeminds.Llm.Router.{Builders, LlmRouter, router_chat}
use kubeminds.Server.Handlers.{
  Found, found, missing, get_failed, Server, approve, with_defaults, ping, list_tasks, time_for,
  create_decoded, create_task, get_task, approve_found, approve_task, delete_task, answer_skills,
  offered, get_tool_config, ping_router, ping_llm, Request, get_tasks, post_tasks, get_named,
  delete_named, post_approve, get_skills, get_config_tools, post_ping, get_healthz, serve,
}

module _ {W O S : Type 0} (b : Builders W) (s : Server W O S) (P : W → Type 0) where
  -- `P` is kept by the reads, by the listing of tools and the question to the model, and by the one
  -- write that the request stands for: the creation of the posted task with its defaults, the
  -- approval of the named task as it was just read, or the deletion of the named task.
  pub record Keeps (q : Request) : Type 0 where
    pub keeps_list : (namespace : Str) (w : W) → P w → P (s.client.list namespace w).1
    pub keeps_get : (namespace name : Str) (w : W) → P w → P (s.client.get namespace name w).1
    pub keeps_unix : (w : W) → P w → P (s.client.unix w).1
    pub keeps_clock : (w : W) → P w → P (s.client.monotonic w).1
    pub keeps_tools :
        (ps : List (ToolProvider W)) (w : W)
        → s.tool_router ≡ some ps
        → P w
        → P (route_tools ps w).1
    pub keeps_chat :
        (r : LlmRouter W) (w : W) → s.llm_router ≡ some r → P w → P (router_chat b r ping [] w).1
    pub keeps_create :
        (body : Str) (t : DiagnosisTask) (now : ℤ) (w : W)
        → q ≡ post_tasks body
        → s.client.decode body ≡ ok t
        → P w
        → P (s.client.create (with_defaults now t) w).1
    pub keeps_update :
        (namespace name : Str) (t : DiagnosisTask) (w : W)
        → q ≡ post_approve namespace name
        → (s.client.get namespace name w).0 ≡ found t
        → P w
        → P (s.client.update (approve t) (s.client.get namespace name w).1).1
    pub keeps_delete :
        (namespace name : Str) (w : W)
        → q ≡ delete_named namespace name
        → P w
        → P (s.client.delete namespace name w).1

  time_for-keeps : (name : Str) (w : W) {q : Request} → Keeps q → P w → P (time_for b s name w).1
  time_for-keeps [] w k p = k.keeps_unix w p
  time_for-keeps (c ∷ cs) w k p = p

  create_decoded-keeps :
      (body : Str) (reply : Fallible DiagnosisTask) (w : W)
      → Keeps (post_tasks body)
      → s.client.decode body ≡ reply
      → P w
      → P (create_decoded b s reply w).1
  create_decoded-keeps body (err e) w k d p = p
  create_decoded-keeps body (ok t) w k d p =
      k.keeps_create body t _ _ refl d (time_for-keeps t.name w k p)

  approve_found-keeps :
      (namespace name : Str) (reply : Found DiagnosisTask) (w : W)
      → Keeps (post_approve namespace name)
      → (s.client.get namespace name w).0 ≡ reply
      → P w
      → P (approve_found b s (reply, (s.client.get namespace name w).1)).1
  approve_found-keeps namespace name (found t) w k g p = k.keeps_update namespace name t w refl g p
  approve_found-keeps namespace name (missing e) w k g p = k.keeps_get namespace name w p
  approve_found-keeps namespace name (get_failed e) w k g p = k.keeps_get namespace name w p

  offered-keeps :
      (q : Request) (router : Option (List (ToolProvider W))) (w : W)
      → Keeps q
      → s.tool_router ≡ router
      → P w
      → P (offered b s router w).1
  offered-keeps q none w k e p = p
  offered-keeps q (some ps) w k e p = k.keeps_tools ps w e p

  ping_router-keeps :
      (q : Request) (router : Option (LlmRouter W)) (w : W)
      → Keeps q
      → s.llm_router ≡ router
      → P w
      → P (ping_router b s router w).1
  ping_router-keeps q none w k e p = p
  ping_router-keeps q (some r) w k e p = k.keeps_clock _ (k.keeps_chat r _ e (k.keeps_clock w p))

-- The server writes to the cluster in three ways only: a post creates the task that its body
-- decodes to, with defaults for its name and namespace and the phase Pending; an approval updates
-- the task of the named key, as it was just read, in `spec.approved` alone; a deletion deletes the
-- named task. All other requests only read, list tools and ask the model. So what these keep, a
-- request keeps.
pub serve-keeps :
    {W O S : Type 0} (b : Builders W) (s : Server W O S) (P : W → Type 0) (q : Request)
    → Keeps b s P q
    → (w : W) → P w
    → P (serve b s q w).1
unfolding serve list_tasks create_task get_task approve_task delete_task answer_skills
    get_tool_config ping_llm
serve-keeps b s P (get_tasks namespace) k w p = k.keeps_list namespace w p
serve-keeps b s P (post_tasks body) k w p =
    create_decoded-keeps b s P body (s.client.decode body) w k refl p
serve-keeps b s P (get_named namespace name) k w p = k.keeps_get namespace name w p
serve-keeps b s P (delete_named namespace name) k w p = k.keeps_delete namespace name w refl p
serve-keeps b s P (post_approve namespace name) k w p =
    approve_found-keeps b s P namespace name (s.client.get namespace name w).0 w k refl p
serve-keeps b s P get_skills k w p = p
serve-keeps b s P get_config_tools k w p =
    offered-keeps b s P get_config_tools s.tool_router w k refl p
serve-keeps b s P post_ping k w p = ping_router-keeps b s P post_ping s.llm_router w k refl p
serve-keeps b s P get_healthz k w p = p
