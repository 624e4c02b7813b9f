-- ===== src/Config/Keys.antt =====
-- internal/config/config.go: what LoadConfig does to the keys of the providers.
use kubeminds.Prelude.{
  none_ne_some, ◌≡◌, refl, sym, subst, ap, ◌∙◌, inl, inr, false, [], ◌∷◌, none, some, Bool-cases,
}
use kubeminds.Prelude.Lists.{All}
use kubeminds.Prelude.Bytes.{Str, str_eq, str_eq_refl, str_eq_sound}
use kubeminds.Prelude.Maps.{
  Map, IsMap, lookup, insert, lookup-insert, lookup-insert_self, insert-IsMap,
}
use kubeminds.Prelude.Errors.{ok, after_ok, wrap, wrap-eq-ok, ok-injective}
use kubeminds.Llm.Router.{ProviderConfig}
use kubeminds.Crypto.Aes.{Outside, is_encrypted, decrypt_value}
use kubeminds.Config.Load.{Files, decrypt_keys}

module _ {Block W : Type 0} (x : Outside Block W) where
  -- The same provider with its key decrypted.
  pub record Decrypted (p q : ProviderConfig) : Type 0 where
    pub key : decrypt_value x p.api_key ≡ ok q.api_key
    pub model : q.model ≡ p.model
    pub base_url : q.base_url ≡ p.base_url

  -- What the loop leaves under a name.
  pub data Left (rest before after : Map ProviderConfig) (name : Str) : Type 0 where
    untouched :
        lookup name rest ≡ none
        → lookup name after ≡ lookup name before
        → Left rest before after name
    decrypted :
        (p q : ProviderConfig)
        → lookup name rest ≡ some p
        → lookup name after ≡ some q
        → Decrypted p q
        → Left rest before after name

  abbrev Within : Map ProviderConfig → Map ProviderConfig → Type 0
  Within rest m =
      (name : Str) (p : ProviderConfig) → lookup name rest ≡ some p → lookup name m ≡ some p

  decrypt_value-plain : (v : Str) → is_encrypted v ≡ false → decrypt_value x v ≡ ok v
  unfolding decrypt_value
  decrypt_value-plain v e = rw e refl

  module _ (files : Files) where
    -- The map after the first entry.
    record First (n : Str) (p : ProviderConfig) (rest before after : Map ProviderConfig)
        : Type 0 where
      mid : Map ProviderConfig
      provider : ProviderConfig
      under : lookup n mid ≡ some provider
      changed : Decrypted p provider
      others : (j : Str) → str_eq n j ≡ false → lookup j mid ≡ lookup j before
      continues : decrypt_keys files x rest mid ≡ ok after

    decrypt_keys-First :
        (n : Str) (p : ProviderConfig) (rest before after : Map ProviderConfig)
        → lookup n before ≡ some p
        → decrypt_keys files x ((n, p) ∷ rest) before ≡ ok after
        → First n p rest before after
    unfolding decrypt_keys
    decrypt_keys-First n p rest before after l e = elim (Bool-cases (is_encrypted p.api_key)) [
      | inl enc ↦
          let (key, k, e') =
            after_ok (wrap _ (decrypt_value x p.api_key)) (rw (enc, decrypt_keys) at e) in
          let q = record p { api_key = key } in
          record {
            mid = insert n q before;
            provider = q;
            under = lookup-insert_self n q before;
            changed = record {
              key = wrap-eq-ok _ (decrypt_value x p.api_key) k;
              model = refl;
              base_url = refl;
            };
            others = λ j f. lookup-insert n j q before ∙ rw f refl;
            continues = e';
          }
      | inr plain ↦ record {
        mid = before;
        provider = p;
        under = l;
        changed = record {
          key = decrypt_value-plain p.api_key plain;
          model = refl;
          base_url = refl;
        };
        others = λ j f. refl;
        continues = rw (plain, decrypt_keys) at e;
      }
    ]

    other_name :
        (n k : Str) (p : ProviderConfig) (rest : Map ProviderConfig)
        → lookup n rest ≡ none
        → lookup k rest ≡ some p
        → str_eq n k ≡ false
    other_name n k p rest h l = elim (Bool-cases (str_eq n k)) [
      | inl y ↦ absurd (none_ne_some (sym h ∙ (ap (λ j. lookup j rest) (str_eq_sound n k y) ∙ l)))
      | inr y ↦ y
    ]

    decrypt_keys-nil :
        (before after : Map ProviderConfig)
        → decrypt_keys files x [] before ≡ ok after
        → after ≡ before
    unfolding decrypt_keys
    decrypt_keys-nil before after e = cc

    pub decrypt_keys-Left :
        (rest before after : Map ProviderConfig) (name : Str)
        → IsMap rest
        → Within rest before
        → decrypt_keys files x rest before ≡ ok after
        → Left rest before after name
    unfolding lookup
    decrypt_keys-Left [] before after name h within e =
        untouched refl (ap (lookup name) (decrypt_keys-nil before after e))
    decrypt_keys-Left ((n, p) ∷ rest) before after name h within e =
        let f = decrypt_keys-First n p rest before after (within n p (rw str_eq_refl refl)) e in
        let inner : Within rest f.mid = λ k q l.
          f.others k (other_name n k q rest h.0 l)
          ∙ within k q (rw (other_name n k q rest h.0 l) l) in
        add f (decrypt_keys-Left rest f.mid after name h.1 inner f.continues)
      where
        add :
            (f : First n p rest before after)
            → Left rest f.mid after name
            → Left ((n, p) ∷ rest) before after name
        add f (untouched l u) = elim (Bool-cases (str_eq n name)) [
          | inl y ↦
              decrypted p f.provider (rw y refl)
                (u ∙ (ap (λ j. lookup j f.mid) (sym (str_eq_sound n name y)) ∙ f.under)) f.changed
          | inr y ↦ untouched (rw y l) (u ∙ f.others name y)
        ]
        add f (decrypted q r l u d) = decrypted q r (rw (other_name n name q rest h.0 l) l) u d

    -- A key that decrypts, or is plain.
    abbrev pub Readable : Str × ProviderConfig → Type 0
    Readable e = (k : Str) × (decrypt_value x e.1.api_key ≡ ok k)

    pub decrypt_keys-Readable :
        (rest before after : Map ProviderConfig)
        → decrypt_keys files x rest before ≡ ok after
        → All Readable rest
    unfolding decrypt_keys
    decrypt_keys-Readable [] before after e = tt
    decrypt_keys-Readable ((n, p) ∷ rest) before after e =
        elim (Bool-cases (is_encrypted p.api_key)) [
          | inl enc ↦
              let (key, k, e') =
                after_ok (wrap _ (decrypt_value x p.api_key)) (rw (enc, decrypt_keys) at e) in
              (
                (key, wrap-eq-ok _ (decrypt_value x p.api_key) k),
                decrypt_keys-Readable rest _ after e',
              )
          | inr plain ↦ (
            (p.api_key, decrypt_value-plain p.api_key plain),
            decrypt_keys-Readable rest before after (rw (plain, decrypt_keys) at e),
          )
        ]

    pub decrypt_keys_total :
        (rest before : Map ProviderConfig)
        → All Readable rest
        → (after : Map ProviderConfig) × (decrypt_keys files x rest before ≡ ok after)
    unfolding decrypt_keys
    decrypt_keys_total [] before h = (before, refl)
    decrypt_keys_total ((n, p) ∷ rest) before h = elim (Bool-cases (is_encrypted p.api_key)) [
      | inl enc ↦
          let (after, e) =
            decrypt_keys_total rest (insert n (record p { api_key = h.0.0 }) before) h.1 in
          (after, rw (enc, decrypt_keys, h.0.1) e)
      | inr plain ↦
          let (after, e) = decrypt_keys_total rest before h.1 in (after, rw (plain, decrypt_keys) e)
    ]

    pub decrypt_keys-IsMap :
        (rest before after : Map ProviderConfig)
        → IsMap before
        → decrypt_keys files x rest before ≡ ok after
        → IsMap after
    unfolding decrypt_keys
    decrypt_keys-IsMap [] before after h e = subst (λ m. IsMap m) (ok-injective e) h
    decrypt_keys-IsMap ((n, p) ∷ rest) before after h e =
        elim (Bool-cases (is_encrypted p.api_key)) [
          | inl enc ↦
              let (key, k, e') =
                after_ok (wrap _ (decrypt_value x p.api_key)) (rw (enc, decrypt_keys) at e) in
              decrypt_keys-IsMap rest _ after (insert-IsMap n (record p { api_key = key }) before h)
                e'
          | inr plain ↦ decrypt_keys-IsMap rest before after h (rw (plain, decrypt_keys) at e)
        ]
