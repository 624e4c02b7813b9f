-- ===== src/Tools/Writing.antt =====
-- internal/tools/write.go: the tools that change the cluster.
use kubeminds.Prelude.{[], ◌∷◌, Option, none, some}
use kubeminds.Prelude.Bytes.{Str, lit, concat}
use kubeminds.Prelude.Int.{int_text}
use kubeminds.Prelude.Errors.{Fallible, ok, err}
use kubeminds.Agent.Types.{Tool, high_risk}
use kubeminds.Tools.Client.{ObjectArgs, PatchDeploymentArgs, ScaleStatefulSetArgs, Kube}
use kubeminds.Tools.Reading.{wrapped}

-- The result of a change: the text for success, or the wrapped error.
abbrev changed : Str → Str → Option Str → Fallible Str
changed failure success none = ok success
changed failure success (some e) = wrapped failure e

module _ {W O S : Type 0} (k : Kube W O S) where
  unfoldable pub delete : Fallible ObjectArgs → W → Fallible Str × W
  unfolding concat lit
  delete (err e) w = (wrapped (lit "invalid arguments") e, w)
  delete (ok a) w =
      let (error, w') = k.delete_pod a.namespace a.name w in
      (
        changed (lit "failed to delete pod")
            (concat (
              lit "Successfully deleted pod '"
              ∷ a.name
              ∷ lit "' in namespace '"
              ∷ a.namespace
              ∷ lit "'"
              ∷ []))
            error,
        w',
      )

  unfoldable pub patch : Fallible PatchDeploymentArgs → W → Fallible Str × W
  unfolding concat lit
  patch (err e) w = (wrapped (lit "invalid arguments") e, w)
  patch (ok a) w =
      let (error, w') = k.patch_deployment a.namespace a.deployment_name a.patch_json w in
      (
        changed (lit "failed to patch deployment")
            (concat (
              lit "Successfully patched deployment '"
              ∷ a.deployment_name
              ∷ lit "' in namespace '"
              ∷ a.namespace
              ∷ lit "'"
              ∷ []))
            error,
        w',
      )

  unfoldable pub scale : Fallible ScaleStatefulSetArgs → W → Fallible Str × W
  unfolding concat lit int_text
  scale (err e) w = (wrapped (lit "invalid arguments") e, w)
  scale (ok a) w =
      let (error, w') = k.update_scale a.namespace a.stateful_set_name a.replicas w in
      (
        changed (lit "failed to scale statefulset")
            (concat (
              lit "Successfully scaled StatefulSet '"
              ∷ a.stateful_set_name
              ∷ lit "' in namespace '"
              ∷ a.namespace
              ∷ lit "' to "
              ∷ int_text a.replicas
              ∷ lit " replicas"
              ∷ []))
            error,
        w',
      )

  -- `DeletePodTool`
  unfoldable pub delete_pod : Tool W
  unfolding delete
  delete_pod = record {
    name = lit "delete_pod";
    description =
        lit
          "Delete a pod in a namespace. This is a high-risk operation and requires explicit approval. Use this to terminate stuck pods or force recovery.";
    schema =
        lit
          "{\n\t\t\"type\": \"object\",\n\t\t\"properties\": {\n\t\t\t\"namespace\": {\n\t\t\t\t\"type\": \"string\",\n\t\t\t\t\"description\": \"The namespace of the pod\"\n\t\t\t},\n\t\t\t\"pod_name\": {\n\t\t\t\t\"type\": \"string\",\n\t\t\t\t\"description\": \"The name of the pod to delete\"\n\t\t\t}\n\t\t},\n\t\t\"required\": [\"namespace\", \"pod_name\"]\n\t}";
    safety_level = high_risk;
    execute = λ args w. delete (k.delete_pod_args args) w;
  }

  -- `PatchDeploymentTool`
  unfoldable pub patch_deployment : Tool W
  unfolding patch
  patch_deployment = record {
    name = lit "patch_deployment";
    description =
        lit
          "Apply a JSON merge patch to a deployment. This is a high-risk operation and requires explicit approval. Use this to update deployment specs like image, replicas, or environment variables.";
    schema =
        lit
          "{\n\t\t\"type\": \"object\",\n\t\t\"properties\": {\n\t\t\t\"namespace\": {\n\t\t\t\t\"type\": \"string\",\n\t\t\t\t\"description\": \"The namespace of the deployment\"\n\t\t\t},\n\t\t\t\"deployment_name\": {\n\t\t\t\t\"type\": \"string\",\n\t\t\t\t\"description\": \"The name of the deployment to patch\"\n\t\t\t},\n\t\t\t\"patch_json\": {\n\t\t\t\t\"type\": \"string\",\n\t\t\t\t\"description\": \"The JSON merge patch to apply (raw JSON string)\"\n\t\t\t}\n\t\t},\n\t\t\"required\": [\"namespace\", \"deployment_name\", \"patch_json\"]\n\t}";
    safety_level = high_risk;
    execute = λ args w. patch (k.patch_deployment_args args) w;
  }

  -- `ScaleStatefulSetTool`
  unfoldable pub scale_statefulset : Tool W
  unfolding scale
  scale_statefulset = record {
    name = lit "scale_statefulset";
    description =
        lit
          "Scale a StatefulSet to a specified number of replicas. This is a high-risk operation and requires explicit approval. Use this to resize the StatefulSet for recovery or capacity adjustment.";
    schema =
        lit
          "{\n\t\t\"type\": \"object\",\n\t\t\"properties\": {\n\t\t\t\"namespace\": {\n\t\t\t\t\"type\": \"string\",\n\t\t\t\t\"description\": \"The namespace of the StatefulSet\"\n\t\t\t},\n\t\t\t\"statefulset_name\": {\n\t\t\t\t\"type\": \"string\",\n\t\t\t\t\"description\": \"The name of the StatefulSet to scale\"\n\t\t\t},\n\t\t\t\"replicas\": {\n\t\t\t\t\"type\": \"integer\",\n\t\t\t\t\"description\": \"The desired number of replicas\"\n\t\t\t}\n\t\t},\n\t\t\"required\": [\"namespace\", \"statefulset_name\", \"replicas\"]\n\t}";
    safety_level = high_risk;
    execute = λ args w. scale (k.scale_stateful_set_args args) w;
  }
