-- ===== src/Llm/Serving.antt =====
-- The router that internal/llm/factory.go makes serves by the configured default provider.
use mathlib.Core.Path.{subst}
use kubeminds.Prelude.{
  none_ne_some, ◌≡◌, refl, sym, ap, ◌∙◌, inl, inr, List, [], ◌∷◌, some, arith, Bool-cases,
  Option-cases,
}
use kubeminds.Prelude.Bytes.{Str, is_empty, str_eq, str_eq_sound}
use kubeminds.Prelude.Maps.{Map, IsMap, lookup, insert, lookup-insert}
use kubeminds.Prelude.Errors.{Fallible, ok, Fallible-cases, err_ne_ok}
use kubeminds.Agent.Types.{Message, Tool, LlmProvider}
use kubeminds.Llm.Router.{
  ProviderConfig, LlmConfig, Builders, LlmRouter, build_provider, build_all, new_router,
  route_built, from_providers, new_router_from_config, router_chat,
}

module _ {W : Type 0} (b : Builders W) where
  -- An entry of the built map: it was there before, or it was built from the configuration.
  pub data Built (cfgs : Map ProviderConfig) (before : Map (LlmProvider W)) (name : Str)
      (p : LlmProvider W) : Type 0 where
    kept : lookup name before ≡ some p → Built cfgs before name p
    made :
        (cfg : ProviderConfig)
        → lookup name cfgs ≡ some cfg
        → build_provider b name cfg ≡ ok p
        → Built cfgs before name p

  AllBuilt : Map ProviderConfig → Map (LlmProvider W) → Fallible (Map (LlmProvider W)) → Type 0
  AllBuilt cfgs before r =
      (m : Map (LlmProvider W))
      → r ≡ ok m
      → (name : Str) (p : LlmProvider W) → lookup name m ≡ some p
      → Built cfgs before name p

  build_all-AllBuilt :
      (cfgs : Map ProviderConfig) (before : Map (LlmProvider W))
      → IsMap cfgs
      → AllBuilt cfgs before (build_all b cfgs before)
  unfolding build_all AllBuilt lookup
  build_all-AllBuilt [] before h m e name p q = kept cc
  build_all-AllBuilt ((n, cfg) ∷ rest) before h m e name p q =
      elim (Fallible-cases (build_provider b n cfg)) [
        | inr (x, f) ↦ absurd (err_ne_ok (rw (f, build_all) at e))
        | inl (p', f) ↦
            let e' : build_all b rest (insert n p' before) ≡ ok m = rw (f, build_all) at e in
            add (build_all-AllBuilt rest (insert n p' before) h.1 m e' name p q) f
      ]
    where
      add :
          {p' : LlmProvider W}
          → Built rest (insert n p' before) name p
          → build_provider b n cfg ≡ ok p'
          → Built ((n, cfg) ∷ rest) before name p
      add {p' = p'} (kept k) f = elim (Bool-cases (str_eq n name)) [
        | inl y ↦
            let same = str_eq_sound n name y in
            let both : some p' ≡ some p = sym (lookup-insert n name p' before ∙ rw y) ∙ k in
            made cfg (rw y) (ap (λ x. build_provider b x cfg) (sym same) ∙ (f ∙ cc))
        | inr y ↦ kept (ground (arith, lookup-insert n name p' before))
      ]
      add (made c l g) f = elim (Bool-cases (str_eq n name)) [
        | inl y ↦
            absurd (none_ne_some (sym h.0 ∙ (ap (λ x. lookup x rest) (str_eq_sound n name y) ∙ l)))
        | inr y ↦ made c (rw y l) g
      ]

  -- What a router with a provider under its default name does.
  pub record Serves (p : LlmProvider W) (r : LlmRouter W) : Type 0 where
    pub chats :
        (messages : List Message) (tools : List (Tool W)) (w : W)
        → router_chat b r messages tools w ≡ p messages tools w

  new_router-Serves :
      (built : Map (LlmProvider W)) (name : Str) (r : LlmRouter W)
      → new_router b built name ≡ ok r
      → (p : LlmProvider W) × (lookup name built ≡ some p) × Serves p r
  unfolding new_router router_chat
  new_router-Serves built name r e = elim (Option-cases (lookup name built)) [
    | inl f ↦ absurd (err_ne_ok (rw (f, new_router) at e))
    | inr (p, f) ↦
        let made : LlmRouter W = record { providers = built; default_provider = name } in
        let e' : ok made ≡ ok r = rw (f, new_router) at e in
        let same : made ≡ r = cc in
        (p, f, subst (Serves p) same (record { chats = λ ms ts w. rw (f, router_chat) refl }))
  ]

  -- The provider of the configuration that a router serves by.
  pub record IsDefault (cfg : LlmConfig) (r : LlmRouter W) : Type 0 where
    pub config : ProviderConfig
    pub provider : LlmProvider W
    pub configured : lookup cfg.default_provider cfg.providers ≡ some config
    pub built : build_provider b cfg.default_provider config ≡ ok provider
    pub serves : Serves provider r

  Built-IsDefault :
      (cfg : LlmConfig) (r : LlmRouter W) (p : LlmProvider W)
      → Built cfg.providers [] cfg.default_provider p
      → Serves p r
      → IsDefault cfg r
  unfolding lookup
  Built-IsDefault cfg r p (kept k) s = absurd (none_ne_some k)
  Built-IsDefault cfg r p (made c l g) s = record {
    config = c;
    provider = p;
    configured = l;
    built = g;
    serves = s;
  }

  route_built-IsDefault :
      (cfg : LlmConfig) (r : LlmRouter W)
      → IsMap cfg.providers
      → route_built b cfg.default_provider (build_all b cfg.providers []) ≡ ok r
      → IsDefault cfg r
  unfolding AllBuilt
  route_built-IsDefault cfg r h e = elim (Fallible-cases (build_all b cfg.providers [])) [
    | inr (x, f) ↦ absurd (err_ne_ok (rw f at e))
    | inl (m, f) ↦
        let e' : new_router b m cfg.default_provider ≡ ok r = rw f at e in
        let (p, q, s) = new_router-Serves m cfg.default_provider r e' in
        Built-IsDefault cfg r p (build_all-AllBuilt cfg.providers [] h m f cfg.default_provider p q)
          s
  ]

from_providers-route_built :
    {W : Type 0} (b : Builders W) (name : Str) (cfgs : Map ProviderConfig) (r : LlmRouter W)
    → from_providers b name cfgs ≡ ok r
    → route_built b name (build_all b cfgs []) ≡ ok r
unfolding from_providers
from_providers-route_built b name [] r e = absurd (err_ne_ok e)
from_providers-route_built b name (p ∷ ps) r e = e

-- A router that was made of a configuration in which no provider name stands twice has a provider
-- of the configured default name, built from the entry of that name, and answers every question as
-- that provider does.
pub new_router_from_config-IsDefault :
    {W : Type 0} (b : Builders W) (cfg : LlmConfig) (r : LlmRouter W)
    → IsMap cfg.providers
    → new_router_from_config b cfg ≡ ok r
    → IsDefault b cfg r
unfolding new_router_from_config
new_router_from_config-IsDefault b cfg r h e = elim (Bool-cases (is_empty cfg.default_provider)) [
  | inl f ↦ absurd (err_ne_ok (rw (f, new_router_from_config) at e))
  | inr f ↦ route_built-IsDefault b cfg r h (
      from_providers-route_built b cfg.default_provider cfg.providers r
        (rw (f, new_router_from_config) at e))
]
