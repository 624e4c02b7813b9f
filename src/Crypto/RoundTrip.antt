-- ===== src/Crypto/RoundTrip.antt =====
-- internal/crypto/aes.go and cmd/tools/encryptkey: a printed key is read back.
use kubeminds.Prelude.{◌≡◌, refl, sym, subst, ◌≤◌, true, false, ◌∙◌, [], ◌∷◌, ◌++◌, arith}
use kubeminds.Prelude.Lists.{All, All-append, length, length-append, take-append, drop-append}
use kubeminds.Prelude.Bytes.{Str, lit, has_prefix-append, is_empty}
use kubeminds.Prelude.Errors.{ok}
use kubeminds.Crypto.Hex.{IsByte, hex_encode, is_empty-hex_encode, hex_decode-hex_encode}
use kubeminds.Crypto.Base64.{base64_encode, base64_decode-base64_encode}
use kubeminds.Crypto.Aes.{
  Aead, Outside, out, enc_prefix, is_encrypted, gcm_for, seal_with, encrypt, open_with, decrypt,
  master_key_from_env, decrypt_value, encryptkey,
}

module _ {Block W : Type 0} (x : Outside Block W) where
  -- The documented behaviour of AES-GCM under a key of 32 bytes: nonces of 12 bytes, data of
  -- bytes, and what was sealed opens again under its nonce.
  pub record IsGcm (key : Str) : Type 0 where
    pub block : Block
    pub gcm : Aead
    pub cipher : x.new_cipher key ≡ ok block
    pub mode : x.new_gcm block ≡ ok gcm
    pub nonces : gcm.nonce_size ≡ 12
    pub sealed : (nonce p : Str) → All IsByte nonce → All IsByte p → All IsByte (gcm.seal nonce p)
    pub opened :
        (nonce p : Str) → length nonce ≡ 12 → gcm.open_sealed nonce (gcm.seal nonce p) ≡ ok p

  module _ (key : Str) (g : IsGcm key) where
    gcm_for-IsGcm : gcm_for x key ≡ ok g.gcm
    unfolding gcm_for
    gcm_for-IsGcm = rw (g.cipher, g.mode) refl

    open_with-seal :
        (nonce p : Str) → length nonce ≡ 12 → open_with x g.gcm (nonce ++ g.gcm.seal nonce p) ≡ ok p
    unfolding open_with
    open_with-seal nonce p n =
        let split = n ∙ sym g.nonces in
        rw (sym split, take-append nonce, drop-append nonce, g.opened nonce p n)
          (ground (arith, length-append nonce (g.gcm.seal nonce p)))

    -- The sealed value of a plaintext under a nonce.
    abbrev value_of : Str → Str → Str
    value_of nonce p = enc_prefix ++ base64_encode (nonce ++ g.gcm.seal nonce p)

    decrypt-value_of :
        (nonce p : Str)
        → length key ≡ 32
        → length nonce ≡ 12
        → All IsByte nonce
        → All IsByte p
        → decrypt x key (value_of nonce p) ≡ ok p
    unfolding decrypt is_encrypted
    decrypt-value_of nonce p k n hn hp =
        rw
          (
            has_prefix-append enc_prefix (base64_encode (nonce ++ g.gcm.seal nonce p)),
            k,
            drop-append enc_prefix (base64_encode (nonce ++ g.gcm.seal nonce p)),
            base64_decode-base64_encode (nonce ++ g.gcm.seal nonce p)
                (All-append IsByte nonce (g.gcm.seal nonce p) hn (g.sealed nonce p hn hp)),
            gcm_for-IsGcm,
            open_with-seal nonce p n,
          )
          refl

    is_encrypted-value_of : (nonce p : Str) → is_encrypted (value_of nonce p) ≡ true
    unfolding is_encrypted
    is_encrypted-value_of nonce p = has_prefix-append enc_prefix _

    encrypt-value_of :
        (nonce p : Str) (w w' : W)
        → length key ≡ 32
        → x.read_random 12 w ≡ (ok nonce, w')
        → encrypt x key p w ≡ (ok (value_of nonce p), w')
    unfolding encrypt seal_with
    encrypt-value_of nonce p w w' k r = rw (k, gcm_for-IsGcm, g.nonces, r) refl

  -- The variable holds the key in hex.
  master_key_from_env-hex :
      (key : Str)
      → length key ≡ 32
      → All IsByte key
      → x.getenv (lit "KUBEMINDS_MASTER_KEY") ≡ hex_encode key
      → master_key_from_env x ≡ ok key
  unfolding master_key_from_env
  master_key_from_env-hex key k h e =
      rw
        (
          e,
          is_empty-hex_encode key (subst (λ n. 1 ≤ n) (sym k) (omega arith)),
          hex_decode-hex_encode key h,
          k,
        )
        refl

-- The program prints a value from which the decryption of the configuration gets the plaintext
-- back: for a plaintext that is not empty, where the environment holds a key of 32 bytes in hex, 12
-- random bytes can be read, and AES-GCM under the key behaves as documented. The printed value is
-- recognised as encrypted.
pub decrypt_value-encryptkey :
    {Block W : Type 0} (x : Outside Block W) (key p nonce : Str) (w w' : W)
    → length key ≡ 32
    → All IsByte key
    → All IsByte p
    → is_empty p ≡ false
    → x.getenv (lit "KUBEMINDS_MASTER_KEY") ≡ hex_encode key
    → IsGcm x key
    → x.read_random 12 w ≡ (ok nonce, w')
    → length nonce ≡ 12
    → All IsByte nonce
    → (v : Str) × (encryptkey x (p ∷ []) w ≡ (out (v ++ lit "\n"), w'))
      × (is_encrypted v ≡ true)
      × (decrypt_value x v ≡ ok p)
unfolding encryptkey decrypt_value
decrypt_value-encryptkey x key p nonce w w' k hk hp full e g r n hn =
    let env = master_key_from_env-hex x key k hk e in
    (
      value_of x key g nonce p,
      rw (full, env, encrypt-value_of x key g nonce p w w' k r) refl,
      is_encrypted-value_of x key g nonce p,
      rw (is_encrypted-value_of x key g nonce p, env) (decrypt-value_of x key g nonce p k n hn hp),
    )
