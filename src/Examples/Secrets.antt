-- ===== src/Examples/Secrets.antt =====
-- A key that is encrypted, stored in the configuration file, and decrypted at the start of the
-- program (internal/crypto, internal/config and cmd/apiserver/main.go). The cipher puts a tag byte
-- before the data.
use kubeminds.Prelude.{
  ℕ, zero, suc, ◌+◌, ◌≡◌, refl, subst, true, false, [], ◌∷◌, ◌++◌, if◌then◌else◌, none, some, arith,
}
use kubeminds.Prelude.Int.{ℤ, pos}
use kubeminds.Prelude.Lists.{All, keep}
use kubeminds.Prelude.Bytes.{Str, lit, str_eq, has_prefix}
use kubeminds.Prelude.Maps.{IsMap, lookup, insert}
use kubeminds.Prelude.Errors.{Fallible, ok, err, ok-injective}
use kubeminds.Llm.Router.{
  ProviderConfig, Builders, LlmRouter, new_router_from_config, from_providers, build_all,
  build_provider, new_router,
}
use kubeminds.Crypto.Hex.{IsByte, hex_encode, hex_decode, hex_digit, hex_value}
use kubeminds.Crypto.Base64.{base64_encode, base64_decode, decode_quanta, sextet_char, sextet_value}
use kubeminds.Crypto.Aes.{
  Aead, Outside, out, enc_prefix, is_encrypted, decrypt_value, encryptkey, decrypt, gcm_for,
  open_with, master_key_from_env,
}
use kubeminds.Crypto.RoundTrip.{IsGcm, decrypt_value-encryptkey}
use kubeminds.Config.Types.{Config, default_config}
use kubeminds.Config.Load.{
  Files, load_config, read_config, decrypt_provider_keys, decrypt_keys,
  parse_alert_aggregator_config,
}
use kubeminds.Config.Cluster.{
  RestConfig, Kubeconfig, new_k8s_rest_config, build_from_kubeconfig, resolve_path, expand_home,
}
use kubeminds.Config.Loading.{Loaded, load_config-Loaded}
use kubeminds.Startup.Settings.{Flags, with_settings, env_fallbacks, override_with_flags}
use kubeminds.Agent.KnowledgeBase.{Pool}
use kubeminds.Startup.Wiring.{
  Libraries, Started, start, start_with, start_l2, start_l3, start_llm_router,
}
use kubeminds.Startup.Started.{Connection, start-Connection}
use kubeminds.Agent.Types.{assistant, LlmProvider}
use kubeminds.Agent.SkillManager.{new_skill_manager}
use kubeminds.Examples.Shipping.{kube}

abbrev copies : ℕ → ℕ → Str
copies zero b = []
copies (suc n) b = b ∷ copies n b

copies-IsByte : (n b : ℕ) → IsByte b → All IsByte (copies n b)
copies-IsByte zero b h = tt
copies-IsByte (suc n) b h = (h, copies-IsByte n b h)

abbrev untagged : Str → Fallible Str
untagged (zero ∷ p) = ok p
untagged _ = err (lit "cipher: message authentication failed")

abbrev tagging : Aead
tagging = record { nonce_size = 12; seal = λ nonce p. 0 ∷ p; open_sealed = λ nonce s. untagged s }

abbrev master_key : Str
master_key = copies 32 171

unfoldable environment : Str → Str
environment name = if str_eq name (lit "KUBEMINDS_MASTER_KEY") then hex_encode master_key else []

abbrev outside : Outside Str ℕ
outside = record {
  new_cipher = λ key. ok key;
  new_gcm = λ key. ok tagging;
  read_random = λ n w. (ok (copies n 7), w + 1);
  getenv = environment;
  hex_error = λ s. s;
  base64_error = λ s. s;
}

tagging-IsGcm : IsGcm outside master_key
tagging-IsGcm = record {
  block = master_key;
  gcm = tagging;
  cipher = refl;
  mode = refl;
  nonces = refl;
  sealed = λ nonce p hn hp. (omega arith, hp);
  opened = λ nonce p n. refl;
}

abbrev api_key : Str
api_key = lit "sk-1"

decrypt_value-encryptkey_example :
    (v : Str) × (encryptkey outside (api_key ∷ []) 0 ≡ (out (v ++ lit "\n"), 1))
    × (is_encrypted v ≡ true)
    × (decrypt_value outside v ≡ ok api_key)
unfolding environment lit str_eq
decrypt_value-encryptkey_example =
    decrypt_value-encryptkey outside master_key api_key (copies 12 7) 0 1 refl
      (copies-IsByte 32 171 (omega arith))
      (omega arith, (omega arith, (omega arith, (omega arith, tt)))) refl refl tagging-IsGcm refl
      refl (copies-IsByte 12 7 (omega arith))

-- The file has the key in the form in which the program prints it.
abbrev sealed : Str
sealed = enc_prefix ++ base64_encode (copies 12 7 ++ (0 ∷ api_key))

abbrev stored : ProviderConfig
stored = record { api_key = sealed; model = lit "m"; base_url = [] }

abbrev opened : ProviderConfig
opened = record { api_key = api_key; model = lit "m"; base_url = [] }

abbrev with_provider : ProviderConfig → Config
with_provider p = record default_config {
  llm = record { default_provider = lit "openai"; providers = (lit "openai", p) ∷ [] };
}

abbrev durations : Str → Fallible ℤ
durations s = ok (pos 60000000000)

abbrev files : Files
files = record {
  is_missing = λ path. false;
  read_file = λ path. ok (lit "llm:");
  unmarshal = λ text c. ok (with_provider stored);
  parse_duration = durations;
  quote = λ s. s;
}

file_maps :
    (text : Str) (parsed : Config)
    → files.unmarshal text default_config ≡ ok parsed
    → IsMap parsed.llm.providers
unfolding lookup
file_maps text parsed e = subst (λ c. IsMap c.llm.providers) (ok-injective e) (refl, tt)

loads : load_config files outside (lit "config.yaml") ≡ ok (with_provider opened)
unfolding load_config read_config decrypt_provider_keys decrypt_keys is_encrypted has_prefix
    enc_prefix lit decrypt_value master_key_from_env environment str_eq hex_encode hex_decode
    decrypt base64_decode base64_encode gcm_for open_with decode_quanta sextet_char sextet_value
    hex_digit hex_value keep insert
loads = refl

load_config-Loaded_example : Loaded outside files (lit "config.yaml") (with_provider opened)
load_config-Loaded_example =
    load_config-Loaded outside files (lit "config.yaml") (with_provider opened) file_maps refl loads

abbrev rest_config : RestConfig Str
rest_config = record {
  tls_client_config = record {
    insecure = false;
    server_name = [];
    cert_file = [];
    key_file = [];
    ca_file = [];
    cert_data = [];
    key_data = [];
    ca_data = [];
  };
  rest = lit "https://10.0.0.1";
}

abbrev kubeconfig : Kubeconfig Str
kubeconfig = record {
  client_config = λ path context. ok rest_config;
  get_config_or_die = ok rest_config;
  user_home_dir = ok (lit "/root");
  quote = λ s. s;
}

-- A PostgreSQL that runs every statement and finds nothing.
abbrev postgres : Pool Str Str Str ℕ
postgres = record {
  parse_config = λ dsn. ok dsn;
  register_types = λ c. none;
  new_with_config = λ c after. ok c;
  exec = λ p q w. (none, w);
  query = λ p q w. (ok (record { scanned = []; error = none }), w);
}

abbrev libraries : Libraries Str Str Str Str ℕ Str Str
libraries = record {
  new_manager = λ cfg metrics probe. ok tt;
  new_clientset = λ cfg. ok kube;
  visits = λ dir. none;
  error_text = λ e. [];
  postgres = postgres;
  setup_with_manager = ok tt;
}

-- Verification is switched off by a flag, on a cluster behind a tunnel.
abbrev flags : Flags
flags = record {
  metrics_addr = lit ":8082";
  probe_addr = lit ":8083";
  config_path = lit "config.yaml";
  k8s_provider = some (lit "gcloud");
  kubeconfig_path = some (lit "~/.kube/config");
  k8s_context = none;
  insecure_skip_verify = some true;
}

-- A model that answers with the key that it was asked with.
abbrev answers : ProviderConfig → LlmProvider ℕ
answers cfg ms ts w =
    (ok (record { type = assistant; content = cfg.api_key; tool_calls = []; tool_call_id = [] }), w)

abbrev builders : Builders ℕ
builders = record { openai = answers; gemini = answers; anthropic = answers; quote = λ s. s }

abbrev start_it : Fallible (Started Str Str ℕ)
start_it = start files outside kubeconfig builders libraries flags 0

abbrev router : LlmRouter ℕ
router = record { providers = (lit "openai", answers opened) ∷ []; default_provider = lit "openai" }

abbrev IsStarted : Fallible (Started Str Str ℕ) → Type 0
IsStarted (ok s) = s.llm_router ≡ some router
IsStarted (err e) = ⊥

runs :
    (r : Fallible (Started Str Str ℕ))
    → IsStarted r
    → (s : Started Str Str ℕ) × (r ≡ ok s) × (s.llm_router ≡ some router)
runs (ok s) h = (s, refl, h)
runs (err e) h = absurd h

started : (s : Started Str Str ℕ) × (start_it ≡ ok s) × (s.llm_router ≡ some router)
unfolding load_config read_config decrypt_provider_keys decrypt_keys is_encrypted has_prefix
    enc_prefix lit decrypt_value master_key_from_env environment str_eq hex_encode hex_decode
    decrypt base64_decode base64_encode gcm_for open_with decode_quanta sextet_char sextet_value
    hex_digit hex_value keep insert start start_with with_settings new_k8s_rest_config
    build_from_kubeconfig resolve_path expand_home env_fallbacks override_with_flags
    parse_alert_aggregator_config new_skill_manager start_l2 start_l3 start_llm_router
    new_router_from_config from_providers build_all build_provider new_router default_config lookup
started = runs start_it refl

start-Connection_example :
    (cfg : Config) × (load_config files outside (lit "config.yaml") ≡ ok cfg)
    × Connection files outside kubeconfig builders libraries flags cfg started.0.rest_config
start-Connection_example =
    start-Connection files outside kubeconfig builders libraries flags 0 started.0 started.1
