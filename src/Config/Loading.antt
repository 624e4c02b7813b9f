-- ===== src/Config/Loading.antt =====
-- internal/config/config.go: what LoadConfig returns.
use kubeminds.Prelude.{◌≡◌, refl, sym, subst, ◌∙◌, ◌↔◌, false}
use kubeminds.Prelude.Lists.{All}
use kubeminds.Prelude.Bytes.{Str}
use kubeminds.Prelude.Maps.{Map, IsMap}
use kubeminds.Prelude.Errors.{ok, after_ok, wrap, wrap-eq-ok}
use kubeminds.Llm.Router.{ProviderConfig}
use kubeminds.Crypto.Aes.{Outside}
use kubeminds.Config.Types.{Config, default_config}
use kubeminds.Config.Load.{
  Files, decrypt_keys, with_providers, decrypt_provider_keys, read_config, load_config,
}
use kubeminds.Config.Keys.{
  Left, decrypt_keys-Left, Readable, decrypt_keys-Readable, decrypt_keys_total, decrypt_keys-IsMap,
}

module _ {Block W : Type 0} (x : Outside Block W) (files : Files) where
  -- What a loaded file is.
  pub record Loaded (path : Str) (c : Config) : Type 0 where
    pub text : Str
    pub parsed : Config
    pub read : files.read_file path ≡ ok text
    pub decoded : files.unmarshal text default_config ≡ ok parsed
    pub others : c ≡ with_providers files x parsed c.llm.providers
    pub maps : IsMap c.llm.providers
    pub keys : (name : Str) → Left x parsed.llm.providers parsed.llm.providers c.llm.providers name

  decrypt_provider_keys-eq-ok :
      (parsed c : Config)
      → decrypt_provider_keys files x parsed ≡ ok c
      → (m : Map ProviderConfig) × (decrypt_keys files x parsed.llm.providers parsed.llm.providers
          ≡ ok m)
        × (with_providers files x parsed m ≡ c)
  unfolding decrypt_provider_keys
  decrypt_provider_keys-eq-ok parsed c e =
      let (m, k, f) = after_ok (decrypt_keys files x parsed.llm.providers parsed.llm.providers) e in
      (m, k, cc)

  read_config-parts :
      (path : Str) (c : Config)
      → read_config files x path ≡ ok c
      → (text : Str) × (parsed : Config) × (files.read_file path ≡ ok text)
        × (files.unmarshal text default_config ≡ ok parsed)
        × (decrypt_provider_keys files x parsed ≡ ok c)
  unfolding read_config
  read_config-parts path c e =
      let (text, r, e₁) = after_ok (wrap _ (files.read_file path)) e in
      let (parsed, u, e₂) = after_ok (wrap _ (files.unmarshal text default_config)) e₁ in
      (
        text,
        parsed,
        wrap-eq-ok _ (files.read_file path) r,
        wrap-eq-ok _ (files.unmarshal text default_config) u,
        e₂,
      )

-- A configuration that was loaded from a file is the decoded one, over the defaults, but for the
-- keys of the providers: under every name, the provider is there exactly if it was, with the same
-- model and URL, and its key is what decryption makes of the key in the file, which leaves a plain
-- key as it is. The decoder yields maps in which no name stands twice.
pub load_config-Loaded :
    {Block W : Type 0} (x : Outside Block W) (files : Files) (path : Str) (c : Config)
    → ((text : Str) (parsed : Config)
        → files.unmarshal text default_config ≡ ok parsed
        → IsMap parsed.llm.providers)
    → files.is_missing path ≡ false
    → load_config files x path ≡ ok c
    → Loaded x files path c
unfolding load_config
load_config-Loaded x files path c maps there e =
    let (text, parsed, r, u, d) = read_config-parts x files path c (rw (there, load_config) at e) in
    let (m, k, f) = decrypt_provider_keys-eq-ok x files parsed c d in
    subst (Loaded x files path) f (record {
      text = text;
      parsed = parsed;
      read = r;
      decoded = u;
      others = refl;
      maps =
          decrypt_keys-IsMap x files parsed.llm.providers parsed.llm.providers m
            (maps text parsed u) k;
      keys = λ name.
          decrypt_keys-Left x files parsed.llm.providers parsed.llm.providers m name
            (maps text parsed u) (λ _ _ l. l) k;
    })

load_config-decoded :
    {Block W : Type 0} (x : Outside Block W) (files : Files) (path text : Str) (parsed : Config)
    → files.is_missing path ≡ false
    → files.read_file path ≡ ok text
    → files.unmarshal text default_config ≡ ok parsed
    → load_config files x path ≡ decrypt_provider_keys files x parsed
unfolding load_config read_config
load_config-decoded x files path text parsed there r u = rw (there, r, u) refl

-- A file that can be read and decoded loads exactly if each key in it is plain or decrypts.
pub load_config_iff :
    {Block W : Type 0} (x : Outside Block W) (files : Files) (path text : Str) (parsed : Config)
    → files.is_missing path ≡ false
    → files.read_file path ≡ ok text
    → files.unmarshal text default_config ≡ ok parsed
    → ((c : Config) × (load_config files x path ≡ ok c))
      ↔ All (Readable x files) parsed.llm.providers
unfolding decrypt_provider_keys
load_config_iff x files path text parsed there r u =
    let same = load_config-decoded x files path text parsed there r u in
    (
      λ (c, e).
          let (m, k, f) = decrypt_provider_keys-eq-ok x files parsed c (sym same ∙ e) in
          decrypt_keys-Readable x files parsed.llm.providers parsed.llm.providers m k,
      λ h.
          let (m, k) = decrypt_keys_total x files parsed.llm.providers parsed.llm.providers h in
          (with_providers files x parsed m, same ∙ rw (k, decrypt_provider_keys) refl),
    )
