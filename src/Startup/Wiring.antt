-- ===== src/Startup/Wiring.antt =====
-- cmd/apiserver/main.go, up to the start of the servers: each part that is made, or the message and
-- the error with which the process exits. The libraries that make the parts are outside.
use kubeminds.Prelude.{
  ℕ, suc, zero, ◌-◌, ◌*◌, ◌%◌, ◌^◌, Bool, true, false, List, [], ◌∷◌, Option, none, some, ◌||◌, ltb,
  if◌then◌else◌,
}
use kubeminds.Prelude.Int.{ℤ, pos, negsuc}
use kubeminds.Prelude.Bytes.{Str, lit, is_empty}
use kubeminds.Prelude.Maps.{Map, lookup}
use kubeminds.Prelude.Errors.{Fallible, ok, err, ◌>>=◌, wrap}
use kubeminds.Agent.SkillLoader.{LoadError, Visit, Loaded, loaded, failed}
use kubeminds.Agent.SkillManager.{SkillManager, new_skill_manager}
use kubeminds.Agent.KnowledgeBase.{
  Pool, PgKnowledgeBase, new_pg_knowledge_base_from_dsn, init_schema,
}
use kubeminds.Llm.Router.{ProviderConfig, LlmConfig, Builders, LlmRouter, new_router_from_config}
use kubeminds.Tools.Router.{ToolProvider, add_provider, internal_provider, empty_provider}
use kubeminds.Tools.Client.{Kube}
use kubeminds.Crypto.Aes.{Outside}
use kubeminds.Config.Types.{RedisConfig, PostgreSqlConfig, Config}
use kubeminds.Config.Load.{Files, parse_alert_aggregator_config, parse_redis_event_ttl, load_config}
use kubeminds.Config.Cluster.{RestConfig, Kubeconfig, new_k8s_rest_config}
use kubeminds.Startup.Settings.{Flags, with_settings}

-- `ctrl.NewManager` for the addresses of metrics and probes, `kubernetes.NewForConfig`, what the
-- walk over a directory of skills visits and the text of an error of their loading, the pools of
-- connections to PostgreSQL, and the registration of the controller.
pub record Libraries (Rest V C P W O S : Type 0) : Type 0 where
  pub new_manager : RestConfig Rest → Str → Str → Fallible (Unit {0})
  pub new_clientset : RestConfig Rest → Fallible (Kube W O S)
  pub visits : Str → Option (List (Fallible Visit))
  pub error_text : LoadError → Str
  pub postgres : Pool V C P W
  pub setup_with_manager : Fallible (Unit {0})

-- A signed 64-bit product with a minute in nanoseconds: `time.Duration(n) * time.Minute`.
abbrev signed : ℕ → ℤ
signed r = if ltb r (2 ^ 63) then pos r else negsuc (2 ^ 64 - 1 - r)

unfoldable pub minutes : ℤ → ℤ
minutes (pos n) = signed (n * 60000000000 % 2 ^ 64)
minutes (negsuc n) = signed ((2 ^ 64 - suc n * 60000000000 % 2 ^ 64) % 2 ^ 64)

-- The parts of the running program.
pub record Started (Rest P W : Type 0) : Type 0 where
  pub rest_config : RestConfig Rest
  pub skill_manager : SkillManager
  pub target_namespace : Str
  pub window_size : ℤ
  pub sweep_interval : ℤ
  pub tool_providers : List (ToolProvider W)
  pub llm_router : Option (LlmRouter W)
  pub event_ttl : Option ℤ
  pub knowledge_base : Option (PgKnowledgeBase P)
  pub embedder : Option (Str × Str)
  pub agent_timeout : ℤ

abbrev pub skill_dir : Str → Str
skill_dir env = if is_empty env then lit "skills" else env

-- A failed router is only logged.
abbrev pub router_or_nil : {W : Type 0} → Fallible (LlmRouter W) → Option (LlmRouter W)
router_or_nil (ok r) = some r
router_or_nil (err e) = none

abbrev pub no_entries : Map ProviderConfig → Bool
no_entries [] = true
no_entries (p ∷ ps) = false

-- The router, if the configuration names a provider and has one.
unfoldable pub start_llm_router : {W : Type 0} → Builders W → LlmConfig → Option (LlmRouter W)
start_llm_router b cfg =
    if is_empty cfg.default_provider || no_entries cfg.providers
    then none
    else router_or_nil (new_router_from_config b cfg)

-- The retention of the L2 store, if it is enabled.
unfoldable pub start_l2 : Files → RedisConfig → Fallible (Option ℤ)
start_l2 files cfg = if is_empty cfg.addr then ok none else (do
  ttl ← wrap (lit "invalid redis.eventTTL configuration: ") (parse_redis_event_ttl files cfg)
  ok (some ttl))

abbrev dimension : ℤ → ℤ
dimension (pos zero) = pos 1536
dimension n = n

-- The key and the URL of the embedder: those of the provider "openai", empty if it is missing.
abbrev embedder_of : Option ProviderConfig → Str × Str
embedder_of none = ([], [])
embedder_of (some p) = (p.api_key, p.base_url)

module _ {Rest Block V C P W O S : Type 0} (files : Files) (x : Outside Block W)
    (k : Kubeconfig Rest) (b : Builders W) (libraries : Libraries Rest V C P W O S) where
  abbrev pub skills_or_error : Loaded SkillManager → Fallible SkillManager
  skills_or_error (loaded sm) = ok sm
  skills_or_error (failed e) = err (libraries.error_text e)

  abbrev pub none_or_error : Option Str → Fallible (Unit {0})
  none_or_error none = ok tt
  none_or_error (some e) = err e

  -- The L3 knowledge base and its embedder, if it is enabled; `w` is the state in which its schema
  -- is made.
  unfoldable pub start_l3 :
      PostgreSqlConfig
      → Map ProviderConfig
      → W
      → Fallible (Option (PgKnowledgeBase P) × Option (Str × Str))
  start_l3 cfg providers w = if is_empty cfg.dsn then ok (none, none) else (do
    kb ←
        wrap (lit "failed to connect to PostgreSQL for L3 knowledge base: ")
          (new_pg_knowledge_base_from_dsn libraries.postgres cfg.dsn (dimension cfg.embed_dim))
    ready ←
        wrap (lit "failed to initialize L3 schema: ")
          (none_or_error (init_schema libraries.postgres kb w).0)
    ok (some kb, some (embedder_of (lookup (lit "openai") providers))))

  -- `main` with its configuration complete.
  unfoldable pub start_with : Flags → Config → W → Fallible (Started Rest P W)
  start_with flags cfg w = do
    rest_config ← wrap (lit "unable to build K8s rest config: ") (new_k8s_rest_config k cfg)
    manager ←
        wrap (lit "unable to start manager: ")
          (libraries.new_manager rest_config flags.metrics_addr flags.probe_addr)
    clientset ←
        wrap (lit "unable to build kubernetes clientset: ") (libraries.new_clientset rest_config)
    skill_manager ← wrap (lit "unable to initialize skill manager: ") (
        skills_or_error
          (new_skill_manager (libraries.visits (skill_dir (x.getenv (lit "SKILL_DIR"))))))
    windows ←
        wrap (lit "invalid alert aggregator configuration: ")
          (parse_alert_aggregator_config files cfg.alert_aggregator)
    event_ttl ← start_l2 files cfg.redis
    l3 ← start_l3 cfg.postgres cfg.llm.providers w
    registered ←
        wrap (lit "unable to create DiagnosisTask controller: ") libraries.setup_with_manager
    ok (record {
      rest_config = rest_config;
      skill_manager = skill_manager;
      target_namespace = cfg.alert_aggregator.target_namespace;
      window_size = windows.0;
      sweep_interval = windows.1;
      tool_providers =
          add_provider empty_provider
            (add_provider empty_provider (add_provider (internal_provider clientset) []));
      llm_router = start_llm_router b cfg.llm;
      event_ttl = event_ttl;
      knowledge_base = l3.0;
      embedder = l3.1;
      agent_timeout = minutes cfg.agent_timeout_minutes;
    })

  -- `main`, up to the start of the API server and the manager.
  unfoldable pub start : Flags → W → Fallible (Started Rest P W)
  start flags w = do
    cfg ← wrap (lit "unable to load configuration: ") (load_config files x flags.config_path)
    start_with flags (with_settings flags x.getenv cfg) w
