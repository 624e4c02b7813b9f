-- ===== src/Tools/Router.antt =====
-- internal/tools/registry.go, router.go and the providers: the tools that an agent is offered.
use kubeminds.Prelude.{List, [], ◌∷◌, ◌++◌}
use kubeminds.Prelude.Errors.{Fallible, ok, err}
use kubeminds.Agent.Types.{Tool}
use kubeminds.Tools.Client.{Kube}
use kubeminds.Tools.Reading.{
  get_pod_logs, get_pod_events, get_pod_spec, get_node_status, get_node_events, get_service_spec,
  get_endpoints, get_pvc_status, get_pv_status,
}
use kubeminds.Tools.Writing.{delete_pod, patch_deployment, scale_statefulset}

-- `ListTools` of the registry
unfoldable pub list_tools : {W O S : Type 0} → Kube W O S → List (Tool W)
list_tools k =
    get_pod_logs k
    ∷ get_pod_events k
    ∷ get_pod_spec k
    ∷ get_node_status k
    ∷ get_node_events k
    ∷ get_service_spec k
    ∷ get_endpoints k
    ∷ get_pvc_status k
    ∷ get_pv_status k
    ∷ delete_pod k
    ∷ patch_deployment k
    ∷ scale_statefulset k
    ∷ []

-- `agent.ToolProvider`, of the one method `ListTools`
abbrev pub ToolProvider : Type 0 → Type 0
ToolProvider W = W → Fallible (List (Tool W)) × W

-- The providers: in the process, and of MCP and gRPC, which have no tools yet.
unfoldable pub internal_provider : {W O S : Type 0} → Kube W O S → ToolProvider W
unfolding list_tools
internal_provider k w = (ok (list_tools k), w)

unfoldable pub empty_provider : {W : Type 0} → ToolProvider W
empty_provider w = (ok [], w)

module _ {W : Type 0} where
  -- A provider that fails is skipped.
  abbrev pub listed : Fallible (List (Tool W)) → List (Tool W)
  listed (ok ts) = ts
  listed (err e) = []

  -- `AddProvider` and `ListTools` of the router
  unfoldable pub add_provider : ToolProvider W → List (ToolProvider W) → List (ToolProvider W)
  add_provider p ps = ps ++ p ∷ []

  unfoldable pub collect_tools : List (ToolProvider W) → W → List (Tool W) × W
  collect_tools [] w = ([], w)
  collect_tools (p ∷ ps) w =
      let (reply, w') = p w in let (rest, w'') = collect_tools ps w' in (listed reply ++ rest, w'')

  unfoldable pub route_tools : List (ToolProvider W) → W → Fallible (List (Tool W)) × W
  unfolding collect_tools
  route_tools ps w = let (ts, w') = collect_tools ps w in (ok ts, w')
