-- ===== src/Tools/Reading.antt =====
-- internal/tools/pod.go, node.go, service.go and volume.go: the tools that read.
use kubeminds.Prelude.{List, [], ◌∷◌, ◌++◌}
use kubeminds.Prelude.Bytes.{Str, lit, concat}
use kubeminds.Prelude.Int.{int_text}
use kubeminds.Prelude.Errors.{Fallible, ok, err}
use kubeminds.Agent.Types.{Tool, read_only}
use kubeminds.Tools.Client.{
  Kind, pod, node, service, endpoints, pvc, pv, ObjectArgs, KubeEvent, Kube,
}

-- `fmt.Errorf("…: %w", err)`
abbrev pub wrapped : Str → Str → Fallible Str
wrapped text e = err (text ++ (lit ": " ++ e))

unfoldable pub pod_event_line : KubeEvent → Str
unfolding concat lit
pod_event_line e =
    concat (lit "[" ∷ e.type ∷ lit "] " ∷ e.reason ∷ lit ": " ∷ e.message ∷ lit "\n" ∷ [])

unfoldable pub node_event_line : KubeEvent → Str
unfolding concat lit int_text
node_event_line e = concat (
    lit "["
    ∷ e.type
    ∷ lit "] "
    ∷ e.reason
    ∷ lit ": "
    ∷ e.message
    ∷ lit " (count: "
    ∷ int_text e.count
    ∷ lit ")\n"
    ∷ [])

abbrev lines_of : (KubeEvent → Str) → List KubeEvent → Str
lines_of line [] = []
lines_of line (e ∷ es) = line e ++ lines_of line es

-- The text for a list of events; `nothing` is that for none.
unfoldable pub show_events : Str → (KubeEvent → Str) → Fallible (List KubeEvent) → Fallible Str
unfolding lit
show_events nothing line (err e) = wrapped (lit "failed to list events") e
show_events nothing line (ok []) = ok nothing
show_events nothing line (ok (e ∷ es)) = ok (lines_of line (e ∷ es))

module _ {W O S : Type 0} (k : Kube W O S) where
  -- `kind` is the word for the object in an error.
  unfoldable pub show_object : Str → Fallible O → Fallible Str
  unfolding lit
  show_object kind (err e) = wrapped (lit "failed to get " ++ kind) e
  show_object kind (ok o) = elim (k.marshal_clean o) [
    | ok text ↦ ok text
    | err e ↦ wrapped (lit "failed to marshal " ++ kind) e
  ]

  unfoldable pub read_object : Kind → Str → Fallible ObjectArgs → W → Fallible Str × W
  unfolding show_object lit
  read_object kind word (err e) w = (wrapped (lit "invalid arguments") e, w)
  read_object kind word (ok a) w =
      let (reply, w') = k.get kind a.namespace a.name w in (show_object word reply, w')

  unfoldable pub pod_events : Fallible ObjectArgs → W → Fallible Str × W
  unfolding show_events pod_event_line lit
  pod_events (err e) w = (wrapped (lit "invalid arguments") e, w)
  pod_events (ok a) w =
      let (reply, w') =
        k.list_events a.namespace
          (lit "involvedObject.name=" ++ (a.name ++ lit ",involvedObject.kind=Pod")) w in
      (show_events (lit "No events found for this pod.") pod_event_line reply, w')

  unfoldable pub node_events : Fallible ObjectArgs → W → Fallible Str × W
  unfolding show_events node_event_line lit
  node_events (err e) w = (wrapped (lit "invalid arguments") e, w)
  node_events (ok a) w =
      let (reply, w') =
        k.list_events [] (lit "involvedObject.name=" ++ (a.name ++ lit ",involvedObject.kind=Node"))
          w in
      (show_events (lit "No events found for this node.") node_event_line reply, w')

  abbrev read_or_fail : Fallible Str → Fallible Str
  read_or_fail (ok text) = ok text
  read_or_fail (err e) = wrapped (lit "error in reading stream") e

  unfoldable pub copy_logs : Fallible S × W → Fallible Str × W
  unfolding lit
  copy_logs (err e, w) = (wrapped (lit "error in opening stream") e, w)
  copy_logs (ok s, w) = let (text, w') = k.read_stream s w in (read_or_fail text, w')

  unfoldable pub read_logs : Fallible ObjectArgs → W → Fallible Str × W
  unfolding copy_logs lit
  read_logs (err e) w = (wrapped (lit "invalid arguments") e, w)
  read_logs (ok a) w = copy_logs (k.open_logs a.namespace a.name 100 w)

  -- `GetPodLogsTool`
  unfoldable pub get_pod_logs : Tool W
  unfolding read_logs
  get_pod_logs = record {
    name = lit "get_pod_logs";
    description =
        lit
          "Get logs from a specific pod in a namespace. Use this to analyze application errors and stack traces.";
    schema =
        lit
          "{\n\t\t\"type\": \"object\",\n\t\t\"properties\": {\n\t\t\t\"namespace\": {\n\t\t\t\t\"type\": \"string\",\n\t\t\t\t\"description\": \"The namespace of the pod\"\n\t\t\t},\n\t\t\t\"pod_name\": {\n\t\t\t\t\"type\": \"string\",\n\t\t\t\t\"description\": \"The name of the pod\"\n\t\t\t}\n\t\t},\n\t\t\"required\": [\"namespace\", \"pod_name\"]\n\t}";
    safety_level = read_only;
    execute = λ args w. read_logs (k.pod_args args) w;
  }

  -- `GetPodEventsTool`
  unfoldable pub get_pod_events : Tool W
  unfolding pod_events
  get_pod_events = record {
    name = lit "get_pod_events";
    description =
        lit
          "Get events related to a specific pod. Use this to identify scheduling issues, image pull errors, or restart reasons.";
    schema =
        lit
          "{\n\t\t\"type\": \"object\",\n\t\t\"properties\": {\n\t\t\t\"namespace\": {\n\t\t\t\t\"type\": \"string\",\n\t\t\t\t\"description\": \"The namespace of the pod\"\n\t\t\t},\n\t\t\t\"pod_name\": {\n\t\t\t\t\"type\": \"string\",\n\t\t\t\t\"description\": \"The name of the pod\"\n\t\t\t}\n\t\t},\n\t\t\"required\": [\"namespace\", \"pod_name\"]\n\t}";
    safety_level = read_only;
    execute = λ args w. pod_events (k.pod_args args) w;
  }

  -- `GetPodSpecTool`
  unfoldable pub get_pod_spec : Tool W
  unfolding read_object
  get_pod_spec = record {
    name = lit "get_pod_spec";
    description =
        lit
          "Get the full specification and status of a pod in YAML format. Use this to check configuration, resource limits, and status conditions.";
    schema =
        lit
          "{\n\t\t\"type\": \"object\",\n\t\t\"properties\": {\n\t\t\t\"namespace\": {\n\t\t\t\t\"type\": \"string\",\n\t\t\t\t\"description\": \"The namespace of the pod\"\n\t\t\t},\n\t\t\t\"pod_name\": {\n\t\t\t\t\"type\": \"string\",\n\t\t\t\t\"description\": \"The name of the pod\"\n\t\t\t}\n\t\t},\n\t\t\"required\": [\"namespace\", \"pod_name\"]\n\t}";
    safety_level = read_only;
    execute = λ args w. read_object pod (lit "pod") (k.pod_args args) w;
  }

  -- `GetNodeStatusTool`
  unfoldable pub get_node_status : Tool W
  unfolding read_object
  get_node_status = record {
    name = lit "get_node_status";
    description =
        lit
          "Get the status and conditions of a specific Kubernetes node. Use this to diagnose node-level issues like NotReady, DiskPressure, or MemoryPressure.";
    schema =
        lit
          "{\n\t\t\"type\": \"object\",\n\t\t\"properties\": {\n\t\t\t\"node_name\": {\n\t\t\t\t\"type\": \"string\",\n\t\t\t\t\"description\": \"The name of the node\"\n\t\t\t}\n\t\t},\n\t\t\"required\": [\"node_name\"]\n\t}";
    safety_level = read_only;
    execute = λ args w. read_object node (lit "node") (k.node_args args) w;
  }

  -- `GetNodeEventsTool`
  unfoldable pub get_node_events : Tool W
  unfolding node_events
  get_node_events = record {
    name = lit "get_node_events";
    description =
        lit
          "Get events related to a specific node. Use this to identify node heartbeat failures, status changes, or resource issues.";
    schema =
        lit
          "{\n\t\t\"type\": \"object\",\n\t\t\"properties\": {\n\t\t\t\"node_name\": {\n\t\t\t\t\"type\": \"string\",\n\t\t\t\t\"description\": \"The name of the node\"\n\t\t\t}\n\t\t},\n\t\t\"required\": [\"node_name\"]\n\t}";
    safety_level = read_only;
    execute = λ args w. node_events (k.node_args args) w;
  }

  -- `GetServiceSpecTool`
  unfoldable pub get_service_spec : Tool W
  unfolding read_object
  get_service_spec = record {
    name = lit "get_service_spec";
    description =
        lit
          "Get the specification and status of a Kubernetes service. Use this to check service configuration, endpoints, and ClusterIP details.";
    schema =
        lit
          "{\n\t\t\"type\": \"object\",\n\t\t\"properties\": {\n\t\t\t\"namespace\": {\n\t\t\t\t\"type\": \"string\",\n\t\t\t\t\"description\": \"The namespace of the service\"\n\t\t\t},\n\t\t\t\"service_name\": {\n\t\t\t\t\"type\": \"string\",\n\t\t\t\t\"description\": \"The name of the service\"\n\t\t\t}\n\t\t},\n\t\t\"required\": [\"namespace\", \"service_name\"]\n\t}";
    safety_level = read_only;
    execute = λ args w. read_object service (lit "service") (k.service_args args) w;
  }

  -- `GetEndpointsTool`
  unfoldable pub get_endpoints : Tool W
  unfolding read_object
  get_endpoints = record {
    name = lit "get_endpoints";
    description =
        lit
          "Get the endpoints for a Kubernetes service. Use this to verify which pods are currently backing the service and check their availability.";
    schema =
        lit
          "{\n\t\t\"type\": \"object\",\n\t\t\"properties\": {\n\t\t\t\"namespace\": {\n\t\t\t\t\"type\": \"string\",\n\t\t\t\t\"description\": \"The namespace of the endpoints\"\n\t\t\t},\n\t\t\t\"service_name\": {\n\t\t\t\t\"type\": \"string\",\n\t\t\t\t\"description\": \"The name of the service (endpoints use the same name as the service)\"\n\t\t\t}\n\t\t},\n\t\t\"required\": [\"namespace\", \"service_name\"]\n\t}";
    safety_level = read_only;
    execute = λ args w. read_object endpoints (lit "endpoints") (k.service_args args) w;
  }

  -- `GetPVCStatusTool`
  unfoldable pub get_pvc_status : Tool W
  unfolding read_object
  get_pvc_status = record {
    name = lit "get_pvc_status";
    description =
        lit
          "Get the status of a PersistentVolumeClaim (PVC). Use this to check PVC binding status, capacity, and access modes.";
    schema =
        lit
          "{\n\t\t\"type\": \"object\",\n\t\t\"properties\": {\n\t\t\t\"namespace\": {\n\t\t\t\t\"type\": \"string\",\n\t\t\t\t\"description\": \"The namespace of the PVC\"\n\t\t\t},\n\t\t\t\"pvc_name\": {\n\t\t\t\t\"type\": \"string\",\n\t\t\t\t\"description\": \"The name of the PVC\"\n\t\t\t}\n\t\t},\n\t\t\"required\": [\"namespace\", \"pvc_name\"]\n\t}";
    safety_level = read_only;
    execute = λ args w. read_object pvc (lit "PVC") (k.pvc_args args) w;
  }

  -- `GetPVStatusTool`
  unfoldable pub get_pv_status : Tool W
  unfolding read_object
  get_pv_status = record {
    name = lit "get_pv_status";
    description =
        lit
          "Get the status of a PersistentVolume (PV). Use this to check PV binding, reclaim policy, and storage backend health.";
    schema =
        lit
          "{\n\t\t\"type\": \"object\",\n\t\t\"properties\": {\n\t\t\t\"pv_name\": {\n\t\t\t\t\"type\": \"string\",\n\t\t\t\t\"description\": \"The name of the PV (PVs are cluster-scoped, not namespaced)\"\n\t\t\t}\n\t\t},\n\t\t\"required\": [\"pv_name\"]\n\t}";
    safety_level = read_only;
    execute = λ args w. read_object pv (lit "PV") (k.pv_args args) w;
  }
