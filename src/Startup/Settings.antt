-- ===== src/Startup/Settings.antt =====
-- cmd/apiserver/main.go: the settings of the cluster, from the file, the flags and the environment.
use kubeminds.Prelude.{Bool, true, Option, none, some, not, ◌&&◌, if◌then◌else◌}
use kubeminds.Prelude.Bytes.{Str, lit, str_eq, is_empty}
use kubeminds.Config.Types.{K8sConfig, Config}

-- The flags. Those of the cluster are there only if they were set, which `flag.Visit` goes by.
pub record Flags : Type 0 where
  pub metrics_addr : Str
  pub probe_addr : Str
  pub config_path : Str
  pub k8s_provider : Option Str
  pub kubeconfig_path : Option Str
  pub k8s_context : Option Str
  pub insecure_skip_verify : Option Bool

abbrev pub or_else {ℓ} : {A : Type ℓ} → Option A → A → A
or_else none a = a
or_else (some b) a = b

-- The cases of `flag.Visit`, which set different fields.
unfoldable pub override_with_flags : Flags → K8sConfig → K8sConfig
override_with_flags flags k8s = record {
  provider = or_else flags.k8s_provider k8s.provider;
  kubeconfig_path = or_else flags.kubeconfig_path k8s.kubeconfig_path;
  insecure_skip_verify = or_else flags.insecure_skip_verify k8s.insecure_skip_verify;
  context = or_else flags.k8s_context k8s.context;
}

-- What the environment sets where nothing else did.
unfoldable pub env_fallbacks : (Str → Str) → K8sConfig → K8sConfig
env_fallbacks getenv k8s = record {
  provider =
      if is_empty k8s.provider && not (is_empty (getenv (lit "K8S_PROVIDER")))
      then getenv (lit "K8S_PROVIDER")
      else k8s.provider;
  kubeconfig_path =
      if is_empty k8s.kubeconfig_path then getenv (lit "KUBECONFIG_PATH") else k8s.kubeconfig_path;
  insecure_skip_verify =
      if not k8s.insecure_skip_verify
        && str_eq (getenv (lit "INSECURE_SKIP_TLS_VERIFY")) (lit "true")
      then true
      else k8s.insecure_skip_verify;
  context = k8s.context;
}

unfoldable pub with_settings : Flags → (Str → Str) → Config → Config
with_settings flags getenv cfg = record cfg {
  k8s = env_fallbacks getenv (override_with_flags flags cfg.k8s);
}
