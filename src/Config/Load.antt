-- ===== src/Config/Load.antt =====
-- internal/config/config.go: LoadConfig with its decryption of keys, and the durations. The file
-- system, the YAML decoder, `time.ParseDuration` and `%q` are outside.
use kubeminds.Prelude.{◌*◌, Bool, [], ◌∷◌, ◌++◌, if◌then◌else◌}
use kubeminds.Prelude.Int.{ℤ, pos}
use kubeminds.Prelude.Bytes.{Str, lit, is_empty}
use kubeminds.Prelude.Maps.{Map, insert}
use kubeminds.Prelude.Errors.{Fallible, ok, ◌>>=◌, wrap}
use kubeminds.Llm.Router.{ProviderConfig}
use kubeminds.Crypto.Aes.{Outside, is_encrypted, decrypt_value}
use kubeminds.Config.Types.{AlertAggregatorConfig, RedisConfig, Config, default_config}

-- `os.IsNotExist` of `os.Stat`, `os.ReadFile` of the cleaned path, `yaml.Unmarshal` over the values
-- that are there, and `time.ParseDuration` in nanoseconds.
pub record Files : Type 0 where
  pub is_missing : Str → Bool
  pub read_file : Str → Fallible Str
  pub unmarshal : Str → Config → Fallible Config
  pub parse_duration : Str → Fallible ℤ
  pub quote : Str → Str

-- 24 * time.Hour
abbrev pub one_day : ℤ
one_day = pos (24 * 3600000000000)

module _ (files : Files) where
  -- `ParseAlertAggregatorConfig`
  unfoldable pub parse_alert_aggregator_config : AlertAggregatorConfig → Fallible (ℤ × ℤ)
  parse_alert_aggregator_config cfg = do
    window_size ←
        wrap
          (lit "invalid alertAggregator.windowSize " ++ (files.quote cfg.window_size ++ lit ": "))
          (files.parse_duration cfg.window_size)
    sweep_interval ←
        wrap
          (lit "invalid alertAggregator.sweepInterval "
            ++ (files.quote cfg.sweep_interval ++ lit ": "))
          (files.parse_duration cfg.sweep_interval)
    ok (window_size, sweep_interval)

  -- `ParseRedisEventTTL`
  unfoldable pub parse_redis_event_ttl : RedisConfig → Fallible ℤ
  parse_redis_event_ttl cfg =
      if is_empty cfg.event_ttl
      then ok one_day
      else wrap (lit "invalid redis.eventTTL " ++ (files.quote cfg.event_ttl ++ lit ": "))
          (files.parse_duration cfg.event_ttl)

  module _ {Block W : Type 0} (x : Outside Block W) where
    -- The loop of `decryptProviderKeys`: the entries that are left, and the map that it writes to.
    unfoldable pub decrypt_keys :
        Map ProviderConfig → Map ProviderConfig → Fallible (Map ProviderConfig)
    decrypt_keys [] providers = ok providers
    decrypt_keys ((name, provider) ∷ rest) providers =
        if is_encrypted provider.api_key
        then (do
          plain_key ←
              wrap
                (lit "config: failed to decrypt apiKey for provider "
                  ++ (files.quote name ++ lit ": "))
                (decrypt_value x provider.api_key)
          decrypt_keys rest (insert name (record provider { api_key = plain_key }) providers))
        else decrypt_keys rest providers

    abbrev pub with_providers : Config → Map ProviderConfig → Config
    with_providers cfg providers = record cfg {
      llm = record { default_provider = cfg.llm.default_provider; providers = providers };
    }

    -- `decryptProviderKeys`
    unfoldable pub decrypt_provider_keys : Config → Fallible Config
    decrypt_provider_keys cfg = do
      providers ← decrypt_keys cfg.llm.providers cfg.llm.providers
      ok (with_providers cfg providers)

    unfoldable pub read_config : Str → Fallible Config
    read_config path = do
      text ← wrap (lit "failed to read config file: ") (files.read_file path)
      config ← wrap (lit "failed to unmarshal config: ") (files.unmarshal text default_config)
      decrypt_provider_keys config

    -- `LoadConfig`
    unfoldable pub load_config : Str → Fallible Config
    load_config path = if files.is_missing path then ok default_config else read_config path
