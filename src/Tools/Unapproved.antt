-- ===== src/Tools/Unapproved.antt =====
-- The shipped tools (internal/tools) in a run without an approval (internal/agent/engine.go).
use mathlib.Core.List.{Memᴰ}
use kubeminds.Prelude.{ℕ, ◌≡◌, refl, sym, ◌⊎◌, inl, inr, false, List, [], Option}
use mathlib.Core.Bool.{true≢false}
use kubeminds.Prelude.Lists.{All, All-mem}
use kubeminds.Prelude.Bytes.{Str, lit}
use kubeminds.Prelude.Errors.{Fallible, ok, err}
use kubeminds.Crd.{Finding}
use kubeminds.Agent.Types.{Message, Tool, high_risk}
use kubeminds.Agent.Engine.{Runtime, BaseAgent}
use kubeminds.Agent.Loop.{notify, run}
use kubeminds.Agent.Safety.{May, run-keeps}
use kubeminds.Tools.Client.{Kind, pod, node, service, endpoints, pvc, pv, ObjectArgs, Kube}
use kubeminds.Tools.Reading.{
  read_object, pod_events, node_events, copy_logs, read_logs, get_pod_logs, get_pod_events,
  get_pod_spec, get_node_status, get_node_events, get_service_spec, get_endpoints, get_pvc_status,
  get_pv_status,
}
use kubeminds.Tools.Writing.{delete_pod, patch_deployment, scale_statefulset}
use kubeminds.Tools.Router.{list_tools}

module _ {W O S : Type 0} (k : Kube W O S) (P : W → Type 0) where
  -- `P` is kept by the calls of the cluster that read.
  pub record ReadsKeep : Type 0 where
    pub keeps_get :
        (kind : Kind) (namespace name : Str) (w : W) → P w → P (k.get kind namespace name w).1
    pub keeps_list_events :
        (namespace selector : Str) (w : W) → P w → P (k.list_events namespace selector w).1
    pub keeps_open_logs :
        (namespace name : Str) (tail : ℕ) (w : W) → P w → P (k.open_logs namespace name tail w).1
    pub keeps_read_stream : (s : S) (w : W) → P w → P (k.read_stream s w).1

  module _ (r : ReadsKeep) where
    read_object-keeps :
        (kind : Kind) (word : Str) (a : Fallible ObjectArgs) (w : W)
        → P w
        → P (read_object k kind word a w).1
    unfolding read_object
    read_object-keeps kind word (err e) w p = p
    read_object-keeps kind word (ok a) w p = r.keeps_get kind a.namespace a.name w p

    pod_events-keeps : (a : Fallible ObjectArgs) (w : W) → P w → P (pod_events k a w).1
    unfolding pod_events
    pod_events-keeps (err e) w p = p
    pod_events-keeps (ok a) w p = r.keeps_list_events a.namespace _ w p

    node_events-keeps : (a : Fallible ObjectArgs) (w : W) → P w → P (node_events k a w).1
    unfolding node_events
    node_events-keeps (err e) w p = p
    node_events-keeps (ok a) w p = r.keeps_list_events [] _ w p

    copy_logs-keeps : (m : Fallible S × W) → P m.1 → P (copy_logs k m).1
    unfolding copy_logs
    copy_logs-keeps (err e, w) p = p
    copy_logs-keeps (ok s, w) p = r.keeps_read_stream s w p

    read_logs-keeps : (a : Fallible ObjectArgs) (w : W) → P w → P (read_logs k a w).1
    unfolding read_logs
    read_logs-keeps (err e) w p = p
    read_logs-keeps (ok a) w p = copy_logs-keeps _ (r.keeps_open_logs a.namespace a.name 100 w p)

    -- A tool that keeps `P`, or is high-risk.
    abbrev pub IsGuarded : Tool W → Type 0
    IsGuarded t =
        ((args : Str) (w : W) → P w → P (t.execute args w).1) ⊎ (t.safety_level ≡ high_risk)

    list_tools-IsGuarded : All IsGuarded (list_tools k)
    unfolding list_tools get_pod_logs get_pod_events get_pod_spec get_node_status get_node_events
        get_service_spec get_endpoints get_pvc_status get_pv_status delete_pod patch_deployment
        scale_statefulset
    list_tools-IsGuarded = (
      inl (λ args. read_logs-keeps (k.pod_args args)),
      (
        inl (λ args. pod_events-keeps (k.pod_args args)),
        (
          inl (λ args. read_object-keeps pod (lit "pod") (k.pod_args args)),
          (
            inl (λ args. read_object-keeps node (lit "node") (k.node_args args)),
            (
              inl (λ args. node_events-keeps (k.node_args args)),
              (
                inl (λ args. read_object-keeps service (lit "service") (k.service_args args)),
                (
                  inl (λ args. read_object-keeps endpoints (lit "endpoints") (k.service_args args)),
                  (
                    inl (λ args. read_object-keeps pvc (lit "PVC") (k.pvc_args args)),
                    (
                      inl (λ args. read_object-keeps pv (lit "PV") (k.pv_args args)),
                      (inr refl, (inr refl, (inr refl, tt))),
                    ),
                  ),
                ),
              ),
            ),
          ),
        ),
      ),
    )

-- `P` is kept by what a run does beside executing tools.
pub record Surroundings {W : Type 0} (rt : Runtime W) (a : BaseAgent W) (P : W → Type 0)
    : Type 0 where
  pub keeps_done : (w : W) → P w → P (rt.done w).1
  pub keeps_now : (w : W) → P w → P (rt.now w).1
  pub keeps_chat : (ms : List Message) (w : W) → P w → P (a.llm ms a.tools w).1
  pub keeps_notify : (f : Option Finding) (entry : Str) (w : W) → P w → P (notify a f entry w)

-- A run without an approval, of an agent whose tools are among the shipped ones, changes the
-- cluster by none of them: what the reading calls of the cluster keep, and the context, the clock,
-- the model and the callback keep, the run keeps, though the shipped tools can delete pods, patch
-- deployments and scale stateful sets, which need not keep it.
pub unapproved-keeps :
    {W O S : Type 0} (k : Kube W O S) (rt : Runtime W) (a : BaseAgent W) (P : W → Type 0)
    → ((t : Tool W) → Memᴰ t a.tools → Memᴰ t (list_tools k))
    → ReadsKeep k P
    → Surroundings rt a P
    → (goal : Str) (w : W) → P w
    → P (run rt a false goal w).1.world
unapproved-keeps {W = W} k rt a P shipped r s = run-keeps rt a false P (record {
  keeps_done = s.keeps_done;
  keeps_now = s.keeps_now;
  keeps_chat = s.keeps_chat;
  keeps_notify = s.keeps_notify;
  keeps_execute = guarded;
})
  where
    guarded : (t : Tool W) (args : Str) (w : W) → May a.tools false t → P w → P (t.execute args w).1
    guarded t args w may p =
        elim (All-mem (IsGuarded k P r) (list_tools k) (list_tools-IsGuarded k P r)
          (shipped t may.offered)) [
            | inl h ↦ h args w p
            | inr risky ↦ absurd (true≢false (sym (may.cleared risky)))
          ]
