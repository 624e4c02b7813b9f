-- ===== src/Startup/Verified.antt =====
-- cmd/apiserver/main.go with internal/config/k8s.go: where the connection to the cluster comes from.
use mathlib.Core.Path.{subst}
use mathlib.Core.Bool.{true≢false}
use kubeminds.Prelude.{
  ℕ, ◌==◌, ◌≢◌, ◌&&◌, not, if◌then◌else◌, [], ◌∷◌, ◌++◌, ◌≡◌, refl, sym, ap, ◌∙◌, ◌⊎◌, inl, inr,
  Bool, true, false, arith, Bool-cases,
}
use kubeminds.Prelude.Bytes.{Str, lit, str_eq, str_eq_sound, str_eq_iff, is_empty}
use kubeminds.Prelude.Errors.{ok, after_ok, wrap, wrap-eq-ok, err_ne_ok, ok-injective}
use kubeminds.Config.Types.{Config, K8sConfig}
use kubeminds.Config.Cluster.{
  RestConfig, Kubeconfig, skip_verification, resolve_path, expand_home, build_from_kubeconfig,
  new_k8s_rest_config,
}
use kubeminds.Startup.Settings.{Flags, or_else, override_with_flags, env_fallbacks}

-- The path of a kubeconfig, with the home directory for a tilde at its start.
pub data Resolves {Rest : Type 0} (k : Kubeconfig Rest) : Str → Str → Type 0 where
  by_default : Resolves k [] []
  at_home : (home path : Str) → k.user_home_dir ≡ ok home → Resolves k (b'~' ∷ path) (home ++ path)
  as_it_is : (c : ℕ) (path : Str) → c ≢ b'~' → Resolves k (c ∷ path) (c ∷ path)

-- The second configuration is the first with its whole TLS part replaced by one without
-- verification.
pub record IsUnverified {Rest : Type 0} (read r : RestConfig Rest) : Type 0 where
  pub same_rest : r.rest ≡ read.rest
  pub insecure : r.tls_client_config.insecure ≡ true
  pub no_ca : (r.tls_client_config.ca_file ≡ []) × (r.tls_client_config.ca_data ≡ [])
  pub no_certificate : (r.tls_client_config.cert_file ≡ []) × (r.tls_client_config.cert_data ≡ [])

-- Neither of the three providers that have a case.
abbrev pub IsOther : Str → Type 0
IsOther provider = (provider ≢ lit "local") × (provider ≢ lit "gcloud") × (provider ≢ lit "aws")

module _ {Rest : Type 0} (k : Kubeconfig Rest) where
  -- Where a connection comes from, for settings of the cluster.
  pub data Origin (cfg : K8sConfig) (r : RestConfig Rest) : Type 0 where
    discovered : IsOther cfg.provider → k.get_config_or_die ≡ ok r → Origin cfg r
    as_read :
        (path : Str)
        → Resolves k cfg.kubeconfig_path path
        → k.client_config path cfg.context ≡ ok r
        → (cfg.provider ≡ lit "local")
          ⊎ ((cfg.provider ≡ lit "gcloud") × (cfg.insecure_skip_verify ≡ false))
        → Origin cfg r
    unverified :
        (path : Str) (read : RestConfig Rest)
        → Resolves k cfg.kubeconfig_path path
        → k.client_config path cfg.context ≡ ok read
        → IsUnverified read r
        → cfg.provider ≡ lit "gcloud"
        → cfg.insecure_skip_verify ≡ true
        → Origin cfg r

  resolve_path-Resolves :
      (path resolved : Str) → resolve_path k path ≡ ok resolved → Resolves k path resolved
  unfolding resolve_path expand_home
  resolve_path-Resolves [] resolved e = subst (Resolves k []) (ok-injective e) by_default
  resolve_path-Resolves (c ∷ path) resolved e =
      let expanded = wrap-eq-ok _ (expand_home k (c ∷ path)) e in
      elim (Bool-cases (c == b'~')) [
        | inl y ↦
            let tilde : c ≡ b'~' = ground arith in
            let (home, h, e₁) =
              after_ok (wrap _ k.user_home_dir) (rw (y, expand_home) at expanded) in
            subst (λ d. Resolves k (d ∷ path) resolved) (sym tilde)
              (subst (Resolves k (b'~' ∷ path)) (ok-injective e₁)
                (at_home home path (wrap-eq-ok _ k.user_home_dir h)))
        | inr n ↦
            let plain : c ≢ b'~' = ground arith in
            subst (Resolves k (c ∷ path)) (ok-injective (rw (n, expand_home) at expanded))
              (as_it_is c path plain)
      ]

  build_from_kubeconfig-parts :
      (path context : Str) (skip : Bool) (r : RestConfig Rest)
      → build_from_kubeconfig k path context skip ≡ ok r
      → (resolved : Str) × (read : RestConfig Rest) × Resolves k path resolved
        × (k.client_config resolved context ≡ ok read)
        × (r ≡ skip_verification k skip read)
  unfolding build_from_kubeconfig
  build_from_kubeconfig-parts path context skip r e =
      let (resolved, p, e₁) = after_ok (resolve_path k path) e in
      let (read, c, e₂) = after_ok (wrap _ (k.client_config resolved context)) e₁ in
      (
        resolved,
        read,
        resolve_path-Resolves path resolved p,
        wrap-eq-ok _ (k.client_config resolved context) c,
        cc,
      )

  skipped-IsUnverified :
      (read r : RestConfig Rest) → r ≡ skip_verification k true read → IsUnverified read r
  skipped-IsUnverified read r e = subst (IsUnverified read) (sym e) (record {
    same_rest = refl;
    insecure = refl;
    no_ca = (refl, refl);
    no_certificate = (refl, refl);
  })

  Origin-gcloud :
      (cfg : K8sConfig) (r read : RestConfig Rest) (path : Str) (skip : Bool)
      → Resolves k cfg.kubeconfig_path path
      → k.client_config path cfg.context ≡ ok read
      → r ≡ skip_verification k skip read
      → cfg.provider ≡ lit "gcloud"
      → cfg.insecure_skip_verify ≡ skip
      → Origin cfg r
  Origin-gcloud cfg r read path true v c e p s =
      unverified path read v c (skipped-IsUnverified read r e) p s
  Origin-gcloud cfg r read path false v c e p s = as_read path v (c ∙ ap ok (sym e)) (inr (p, s))

  other : (p q : Str) → str_eq p q ≡ false → p ≢ q
  other p q n e = true≢false (sym ((str_eq_iff p q).1 e) ∙ n)

  pub new_k8s_rest_config-Origin :
      (cfg : Config) (r : RestConfig Rest) → new_k8s_rest_config k cfg ≡ ok r → Origin cfg.k8s r
  unfolding new_k8s_rest_config
  new_k8s_rest_config-Origin cfg r e = elim (Bool-cases (str_eq cfg.k8s.provider (lit "local"))) [
    | inl l ↦
        let (path, read, v, c, q) =
          build_from_kubeconfig-parts cfg.k8s.kubeconfig_path cfg.k8s.context false r
            (rw (l, new_k8s_rest_config) at e) in
        as_read path v (c ∙ ap ok (sym q)) (inl (str_eq_sound _ _ l))
    | inr l ↦ elim (Bool-cases (str_eq cfg.k8s.provider (lit "gcloud"))) [
      | inl g ↦
          let (path, read, v, c, q) =
            build_from_kubeconfig-parts cfg.k8s.kubeconfig_path cfg.k8s.context
              cfg.k8s.insecure_skip_verify r (rw (l, g, new_k8s_rest_config) at e) in
          Origin-gcloud cfg.k8s r read path cfg.k8s.insecure_skip_verify v c q (str_eq_sound _ _ g)
            refl
      | inr g ↦ elim (Bool-cases (str_eq cfg.k8s.provider (lit "aws"))) [
        | inl a ↦ absurd (err_ne_ok (rw (l, g, a, new_k8s_rest_config) at e))
        | inr a ↦
            discovered (other _ _ l, other _ _ g, other _ _ a)
              (rw (l, g, a, new_k8s_rest_config) at e)
      ]
    ]
  ]

-- The first, unless it is empty.
abbrev pub unless_empty : Str → Str → Str
unless_empty [] s = s
unless_empty (b ∷ bs) s = b ∷ bs

-- The settings that file, flags and environment come to: a flag goes before the file, and the
-- environment counts for what these leave empty.
abbrev pub provider_of : Flags → (Str → Str) → K8sConfig → Str
provider_of flags getenv k8s =
    unless_empty (or_else flags.k8s_provider k8s.provider) (getenv (lit "K8S_PROVIDER"))

abbrev pub path_of : Flags → (Str → Str) → K8sConfig → Str
path_of flags getenv k8s =
    unless_empty (or_else flags.kubeconfig_path k8s.kubeconfig_path)
      (getenv (lit "KUBECONFIG_PATH"))

abbrev pub context_of : Flags → K8sConfig → Str
context_of flags k8s = or_else flags.k8s_context k8s.context

-- Who asks for a connection without verification.
abbrev pub Asked : Flags → (Str → Str) → K8sConfig → Type 0
Asked flags getenv k8s =
    (or_else flags.insecure_skip_verify k8s.insecure_skip_verify ≡ true)
    ⊎ (getenv (lit "INSECURE_SKIP_TLS_VERIFY") ≡ lit "true")

pub env_fallbacks-texts :
    (flags : Flags) (getenv : Str → Str) (k8s : K8sConfig)
    → let settled = env_fallbacks getenv (override_with_flags flags k8s) in
      (settled.provider ≡ provider_of flags getenv k8s)
      × (settled.kubeconfig_path ≡ path_of flags getenv k8s)
unfolding env_fallbacks override_with_flags
env_fallbacks-texts flags getenv k8s = (
  chosen (or_else flags.k8s_provider k8s.provider) (getenv (lit "K8S_PROVIDER")),
  filled (or_else flags.kubeconfig_path k8s.kubeconfig_path) (getenv (lit "KUBECONFIG_PATH")),
)
  where
    chosen : (p e : Str) → (if is_empty p && not (is_empty e) then e else p) ≡ unless_empty p e
    chosen [] [] = refl
    chosen [] (b ∷ bs) = refl
    chosen (b ∷ bs) e = refl

    filled : (p e : Str) → (if is_empty p then e else p) ≡ unless_empty p e
    filled [] e = refl
    filled (b ∷ bs) e = refl

pub env_fallbacks-Asked :
    (flags : Flags) (getenv : Str → Str) (k8s : K8sConfig)
    → (env_fallbacks getenv (override_with_flags flags k8s)).insecure_skip_verify ≡ true
    → Asked flags getenv k8s
unfolding env_fallbacks override_with_flags
env_fallbacks-Asked flags getenv k8s e =
    elim (Bool-cases (or_else flags.insecure_skip_verify k8s.insecure_skip_verify)) [
      | inl y ↦ inl y
      | inr n ↦ elim (Bool-cases (str_eq (getenv (lit "INSECURE_SKIP_TLS_VERIFY")) (lit "true"))) [
        | inl y ↦ inr (str_eq_sound _ _ y)
        | inr m ↦ ground arith
      ]
    ]

pub Asked-env_fallbacks :
    (flags : Flags) (getenv : Str → Str) (k8s : K8sConfig)
    → (env_fallbacks getenv (override_with_flags flags k8s)).insecure_skip_verify ≡ false
    → Asked flags getenv k8s
    → ⊥
unfolding env_fallbacks override_with_flags
Asked-env_fallbacks flags getenv k8s n (inl y) = true≢false (sym (rw y refl) ∙ n)
Asked-env_fallbacks flags getenv k8s n (inr y) =
    ground (arith, (str_eq_iff (getenv (lit "INSECURE_SKIP_TLS_VERIFY")) (lit "true")).1 y)
