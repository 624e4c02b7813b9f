-- ===== src/Config/Cluster.antt =====
-- internal/config/k8s.go: the connection to the cluster. client-go and controller-runtime, which
-- read a kubeconfig, and the home directory are outside.
use kubeminds.Prelude.{Bool, true, false, [], ◌∷◌, ◌++◌, ◌==◌, if◌then◌else◌}
use kubeminds.Prelude.Bytes.{Str, lit, str_eq, is_empty}
use kubeminds.Prelude.Errors.{Fallible, ok, err, ◌>>=◌, wrap}
use kubeminds.Config.Types.{Config}

-- `rest.TLSClientConfig`
pub record TlsClientConfig : Type 0 where
  pub insecure : Bool
  pub server_name : Str
  pub cert_file : Str
  pub key_file : Str
  pub ca_file : Str
  pub cert_data : Str
  pub key_data : Str
  pub ca_data : Str

-- `rest.Config`: its TLS part, and the rest.
pub record RestConfig (Rest : Type 0) : Type 0 where
  pub tls_client_config : TlsClientConfig
  pub rest : Rest

-- `ClientConfig` of the deferred loading rules for an explicit path and a current context ("" for
-- none), `ctrl.GetConfigOrDie` (an error ends the process), and `os.UserHomeDir`.
pub record Kubeconfig (Rest : Type 0) : Type 0 where
  pub client_config : Str → Str → Fallible (RestConfig Rest)
  pub get_config_or_die : Fallible (RestConfig Rest)
  pub user_home_dir : Fallible Str
  pub quote : Str → Str

abbrev insecure_tls : TlsClientConfig
insecure_tls = record {
  insecure = true;
  server_name = [];
  cert_file = [];
  key_file = [];
  ca_file = [];
  cert_data = [];
  key_data = [];
  ca_data = [];
}

module _ {Rest : Type 0} (k : Kubeconfig Rest) where
  -- `expandHome`
  unfoldable pub expand_home : Str → Fallible Str
  expand_home [] = ok []
  expand_home (c ∷ path) =
      if c == b'~'
      then (do
        home ← wrap (lit "failed to resolve home directory: ") k.user_home_dir
        ok (home ++ path))
      else ok (c ∷ path)

  unfoldable pub resolve_path : Str → Fallible Str
  resolve_path path =
      if is_empty path
      then ok path
      else wrap (lit "failed to resolve kubeconfig path " ++ (k.quote path ++ lit ": "))
          (expand_home path)

  abbrev pub skip_verification : Bool → RestConfig Rest → RestConfig Rest
  skip_verification true cfg = record cfg { tls_client_config = insecure_tls }
  skip_verification false cfg = cfg

  -- `buildFromKubeconfig`
  unfoldable pub build_from_kubeconfig : Str → Str → Bool → Fallible (RestConfig Rest)
  build_from_kubeconfig path context_name insecure_skip_verify = do
    resolved ← resolve_path path
    cfg ←
        wrap (lit "failed to build rest.Config from kubeconfig " ++ (k.quote resolved ++ lit ": "))
          (k.client_config resolved context_name)
    ok (skip_verification insecure_skip_verify cfg)

  -- `NewK8sRestConfig`
  unfoldable pub new_k8s_rest_config : Config → Fallible (RestConfig Rest)
  new_k8s_rest_config cfg =
      if str_eq cfg.k8s.provider (lit "local")
      then build_from_kubeconfig cfg.k8s.kubeconfig_path cfg.k8s.context false
      else if str_eq cfg.k8s.provider (lit "gcloud")
      then build_from_kubeconfig cfg.k8s.kubeconfig_path cfg.k8s.context
          cfg.k8s.insecure_skip_verify
      else if str_eq cfg.k8s.provider (lit "aws")
      then err (lit "k8s provider " ++ (k.quote (lit "aws") ++ lit " is not yet implemented"))
      else k.get_config_or_die
