-- ===== src/Llm/Router.antt =====
-- internal/llm/router.go and factory.go: the provider that is named as the default. The constructors
-- of the three providers are an argument, and `quote` is `%q`.
use kubeminds.Prelude.{[], ◌∷◌, ◌++◌, none, some, map}
use kubeminds.Prelude.Tests.{if◌then◌else◌}
use kubeminds.Prelude.Bytes.{Str, lit, str_eq, is_empty, join}
use kubeminds.Prelude.Maps.{Map, lookup, insert}
use kubeminds.Prelude.Errors.{Fallible, ok, err}
use kubeminds.Agent.Types.{LlmProvider}

pub record ProviderConfig : Type 0 where
  pub api_key : Str
  pub model : Str
  pub base_url : Str

pub record LlmConfig : Type 0 where
  pub default_provider : Str
  pub providers : Map ProviderConfig

pub record Builders (W : Type 0) : Type 0 where
  pub openai : ProviderConfig → LlmProvider W
  pub gemini : ProviderConfig → LlmProvider W
  pub anthropic : ProviderConfig → LlmProvider W
  pub quote : Str → Str

pub record LlmRouter (W : Type 0) : Type 0 where
  pub providers : Map (LlmProvider W)
  pub default_provider : Str

module _ {W : Type 0} (b : Builders W) where
  unfoldable pub build_provider : Str → ProviderConfig → Fallible (LlmProvider W)
  unfolding lit
  build_provider name cfg =
      if str_eq name (lit "openai")
      then ok (b.openai cfg)
      else if str_eq name (lit "gemini")
      then ok (b.gemini cfg)
      else if str_eq name (lit "anthropic")
      then ok (b.anthropic cfg)
      else err (
          lit "unknown provider name "
          ++ (b.quote name ++ lit "; supported: openai, gemini, anthropic"))

  -- The loop over the configured providers.
  unfoldable pub build_all :
      Map ProviderConfig → Map (LlmProvider W) → Fallible (Map (LlmProvider W))
  unfolding build_provider insert lit
  build_all [] built = ok built
  build_all ((name, cfg) ∷ rest) built = elim (build_provider name cfg) [
    | err e ↦
        err (lit "llm factory: failed to build provider " ++ (b.quote name ++ (lit ": " ++ e)))
    | ok p ↦ build_all rest (insert name p built)
  ]

  -- `NewRouter`
  unfoldable pub new_router : Map (LlmProvider W) → Str → Fallible (LlmRouter W)
  unfolding lookup lit join
  new_router providers default_provider = elim (lookup default_provider providers) [
    | none ↦ err (
        lit "llm router: defaultProvider "
        ++ (b.quote default_provider
            ++ (lit " is not configured in providers ["
                ++ (join (lit " ") (map (λ e. e.0) providers) ++ lit "]"))))
    | some p ↦ ok (record { providers = providers; default_provider = default_provider })
  ]

  abbrev pub route_built : Str → Fallible (Map (LlmProvider W)) → Fallible (LlmRouter W)
  route_built default_provider (err e) = err e
  route_built default_provider (ok built) = new_router built default_provider

  unfoldable pub from_providers : Str → Map ProviderConfig → Fallible (LlmRouter W)
  unfolding build_all new_router lit
  from_providers default_provider [] =
      err (lit "llm factory: no providers configured under llm.providers")
  from_providers default_provider (p ∷ ps) = route_built default_provider (build_all (p ∷ ps) [])

  unfoldable pub new_router_from_config : LlmConfig → Fallible (LlmRouter W)
  unfolding from_providers lit
  new_router_from_config cfg =
      if is_empty cfg.default_provider
      then err (lit "llm factory: llm.defaultProvider must be set")
      else from_providers cfg.default_provider cfg.providers

  -- `Chat`
  unfoldable pub router_chat : LlmRouter W → LlmProvider W
  unfolding lookup lit
  router_chat r messages tools w = elim (lookup r.default_provider r.providers) [
    | none ↦
        (err (lit "llm router: provider " ++ (b.quote r.default_provider ++ lit " not found")), w)
    | some p ↦ p messages tools w
  ]
