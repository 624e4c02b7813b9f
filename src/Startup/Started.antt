-- ===== src/Startup/Started.antt =====
-- cmd/apiserver/main.go with internal/config and internal/llm: what reaches the running program.
use mathlib.Core.Path.{subst}
use kubeminds.Prelude.{◌≡◌, sym, ap, ◌∙◌, ◌⊎◌, inl, inr, some}
use kubeminds.Prelude.Bytes.{Str, lit}
use kubeminds.Prelude.Maps.{lookup}
use kubeminds.Prelude.Errors.{ok, after_ok, wrap, wrap-eq-ok, ok-injective}
use kubeminds.Llm.Router.{Builders, LlmRouter, ProviderConfig}
use kubeminds.Crypto.Aes.{Outside}
use kubeminds.Config.Types.{Config}
use kubeminds.Config.Load.{Files, parse_alert_aggregator_config, load_config}
use kubeminds.Config.Cluster.{RestConfig, Kubeconfig, new_k8s_rest_config}
use kubeminds.Startup.Settings.{Flags, with_settings, env_fallbacks, override_with_flags}
use kubeminds.Startup.Wiring.{
  Libraries, Started, start_llm_router, start_l2, start_l3, skills_or_error, skill_dir, start_with,
  start,
}
use kubeminds.Agent.SkillManager.{new_skill_manager}
use kubeminds.Config.Loading.{Loaded}
use kubeminds.Config.Keys.{Decrypted}
use kubeminds.Llm.Serving.{IsDefault}
use kubeminds.Startup.Verified.{
  Origin, discovered, as_read, unverified, new_k8s_rest_config-Origin, Asked, env_fallbacks-Asked,
  Asked-env_fallbacks, env_fallbacks-texts, provider_of, path_of, context_of, Resolves,
  IsUnverified, IsOther,
}

module _ {Rest Block V C P W O S : Type 0} (files : Files) (x : Outside Block W)
    (k : Kubeconfig Rest) (b : Builders W) (libraries : Libraries Rest V C P W O S) where
  -- What a start has made of its configuration.
  record Parts (cfg : Config) (s : Started Rest P W) : Type 0 where
    connects : new_k8s_rest_config k cfg ≡ ok s.rest_config
    routes : s.llm_router ≡ start_llm_router b cfg.llm

  start_with-Parts :
      (flags : Flags) (cfg : Config) (w : W) (s : Started Rest P W)
      → start_with files x k b libraries flags cfg w ≡ ok s
      → Parts cfg s
  unfolding start_with
  start_with-Parts flags cfg w s e =
      let (rest_config, r, e₁) = after_ok (wrap _ (new_k8s_rest_config k cfg)) e in
      let (_, _, e₂) =
        after_ok (wrap _ (libraries.new_manager rest_config flags.metrics_addr flags.probe_addr))
          e₁ in
      let (_, _, e₃) = after_ok (wrap _ (libraries.new_clientset rest_config)) e₂ in
      let (_, _, e₄) =
        after_ok
          (wrap _ (
            skills_or_error files x k b libraries
              (new_skill_manager (libraries.visits (skill_dir (x.getenv (lit "SKILL_DIR")))))))
          e₃ in
      let (_, _, e₅) =
        after_ok (wrap _ (parse_alert_aggregator_config files cfg.alert_aggregator)) e₄ in
      let (_, _, e₆) = after_ok (start_l2 files cfg.redis) e₅ in
      let (_, _, e₇) =
        after_ok (start_l3 files x k b libraries cfg.postgres cfg.llm.providers w) e₆ in
      let (_, _, e₈) = after_ok (wrap _ libraries.setup_with_manager) e₇ in
      record {
        connects =
            wrap-eq-ok _ (new_k8s_rest_config k cfg) r
            ∙ ap (λ t. ok t.rest_config) (ok-injective e₈);
        routes = sym (ap (λ t. t.llm_router) (ok-injective e₈));
      }

  start-Parts :
      (flags : Flags) (w : W) (s : Started Rest P W)
      → start files x k b libraries flags w ≡ ok s
      → (cfg : Config) × (load_config files x flags.config_path ≡ ok cfg)
        × Parts (with_settings flags x.getenv cfg) s
  unfolding start
  start-Parts flags w s e =
      let (cfg, l, e₁) = after_ok (wrap _ (load_config files x flags.config_path)) e in
      (cfg, wrap-eq-ok _ (load_config files x flags.config_path) l, start_with-Parts flags _ w s e₁)

  -- Where the connection of a started program comes from.
  pub data Connection (flags : Flags) (cfg : Config) (r : RestConfig Rest) : Type 0 where
    made :
        IsOther (provider_of flags x.getenv cfg.k8s)
        → k.get_config_or_die ≡ ok r
        → Connection flags cfg r
    read :
        (path : Str)
        → Resolves k (path_of flags x.getenv cfg.k8s) path
        → k.client_config path (context_of flags cfg.k8s) ≡ ok r
        → (provider_of flags x.getenv cfg.k8s ≡ lit "local")
          ⊎ ((provider_of flags x.getenv cfg.k8s ≡ lit "gcloud")
              × (Asked flags x.getenv cfg.k8s → ⊥))
        → Connection flags cfg r
    insecure :
        (path : Str) (before : RestConfig Rest)
        → Resolves k (path_of flags x.getenv cfg.k8s) path
        → k.client_config path (context_of flags cfg.k8s) ≡ ok before
        → IsUnverified before r
        → provider_of flags x.getenv cfg.k8s ≡ lit "gcloud"
        → Asked flags x.getenv cfg.k8s
        → Connection flags cfg r

  Origin-Connection :
      (flags : Flags) (cfg : Config) (r : RestConfig Rest)
      → Origin k (with_settings flags x.getenv cfg).k8s r
      → Connection flags cfg r
  unfolding with_settings env_fallbacks override_with_flags
  Origin-Connection flags cfg r o =
      let (p, v) = env_fallbacks-texts flags x.getenv cfg.k8s in
      elim o [
        | discovered n e ↦ made (subst IsOther p n) e
        | as_read path t e (inl l) ↦
            read path (subst (λ s. Resolves k s path) v t) e (inl (sym p ∙ l))
        | as_read path t e (inr (g, off)) ↦
            read path (subst (λ s. Resolves k s path) v t) e
              (inr (sym p ∙ g, Asked-env_fallbacks flags x.getenv cfg.k8s off))
        | unverified path before t e u g on ↦
            insecure path before (subst (λ s. Resolves k s path) v t) e u (sym p ∙ g)
              (env_fallbacks-Asked flags x.getenv cfg.k8s on)
      ]

  -- The router of a started program, and the provider that it asks, from the file on.
  pub record Serving (flags : Flags) (r : LlmRouter W) : Type 0 where
    pub config : Config
    pub loaded : Loaded x files flags.config_path config
    pub served : IsDefault b config.llm r
    pub entry : ProviderConfig
    pub in_file : lookup config.llm.default_provider loaded.parsed.llm.providers ≡ some entry
    pub decrypts : Decrypted x entry served.config

-- A program that has started connects to the cluster by the provider, the path and the context that
-- flags, file and environment settle on. With "local", and with "gcloud" where neither the flag, nor
-- the file without a flag, nor the value "true" in the environment asks to skip the verification, it
-- takes the kubeconfig at the path, with the home directory for a tilde, as client-go reads it; with
-- "gcloud" where one of these asks, that with its TLS part replaced by one without verification; with
-- any other provider but "aws", with which it does not start, what controller-runtime finds by itself.
pub start-Connection :
    {Rest Block V C P W O S : Type 0} (files : Files) (x : Outside Block W) (k : Kubeconfig Rest)
    (b : Builders W) (libraries : Libraries Rest V C P W O S) (flags : Flags) (w : W)
    (s : Started Rest P W)
    → start files x k b libraries flags w ≡ ok s
    → (cfg : Config) × (load_config files x flags.config_path ≡ ok cfg)
      × Connection files x k b libraries flags cfg s.rest_config
start-Connection files x k b libraries flags w s e =
    let (cfg, l, parts) = start-Parts files x k b libraries flags w s e in
    (
      cfg,
      l,
      Origin-Connection files x k b libraries flags cfg s.rest_config
          (new_k8s_rest_config-Origin k _ s.rest_config parts.connects),
    )
