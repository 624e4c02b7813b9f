-- ===== src/Config/Types.antt =====
-- internal/config/config.go: the configuration and its defaults. The configuration of the providers
-- stands with the router that reads it.
use kubeminds.Prelude.{Bool, false, List, []}
use kubeminds.Prelude.Int.{ℤ, pos}
use kubeminds.Prelude.Bytes.{Str, lit}
use kubeminds.Prelude.Maps.{Map}
use kubeminds.Llm.Router.{LlmConfig}

pub record K8sConfig : Type 0 where
  pub provider : Str
  pub kubeconfig_path : Str
  pub insecure_skip_verify : Bool
  pub context : Str

pub record AlertAggregatorConfig : Type 0 where
  pub window_size : Str
  pub sweep_interval : Str
  pub target_namespace : Str

pub record RedisConfig : Type 0 where
  pub addr : Str
  pub password : Str
  pub db : ℤ
  pub event_ttl : Str

pub record PostgreSqlConfig : Type 0 where
  pub dsn : Str
  pub max_open_conns : ℤ
  pub embed_dim : ℤ

pub record McpServerConfig : Type 0 where
  pub command : Str
  pub args : List Str
  pub env : List Str

pub record GrpcServiceConfig : Type 0 where
  pub address : Str
  pub tls : Bool

pub record Config : Type 0 where
  pub metrics_addr : Str
  pub probe_addr : Str
  pub enable_leader_election : Bool
  pub skill_dir : Str
  pub agent_timeout_minutes : ℤ
  pub k8s : K8sConfig
  pub alert_aggregator : AlertAggregatorConfig
  pub llm : LlmConfig
  pub mcp : Map McpServerConfig
  pub grpc : Map GrpcServiceConfig
  pub redis : RedisConfig
  pub postgres : PostgreSqlConfig

-- `defaultConfig`
unfoldable pub default_config : Config
default_config = record {
  metrics_addr = lit ":8080";
  probe_addr = lit ":8081";
  enable_leader_election = false;
  skill_dir = lit "skills/";
  agent_timeout_minutes = pos 10;
  k8s = record { provider = []; kubeconfig_path = []; insecure_skip_verify = false; context = [] };
  alert_aggregator = record {
    window_size = lit "60s";
    sweep_interval = lit "5s";
    target_namespace = lit "default";
  };
  llm = record { default_provider = lit "openai"; providers = [] };
  mcp = [];
  grpc = [];
  redis = record { addr = []; password = []; db = pos 0; event_ttl = lit "24h" };
  postgres = record { dsn = []; max_open_conns = pos 10; embed_dim = pos 1536 };
}
