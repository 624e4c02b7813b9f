-- ===== src/Crypto/Aes.antt =====
-- internal/crypto/aes.go, and the program of cmd/tools/encryptkey. The cipher, the reader of random
-- bytes, the environment, and the texts of the errors of the two decoders are outside.
use kubeminds.Prelude.{ℕ, Bool, List, [], ◌∷◌, ◌++◌, Option, none, some, ltb, ◌==◌, if◌then◌else◌}
use kubeminds.Prelude.Lists.{length, take, drop}
use kubeminds.Prelude.Bytes.{Str, lit, has_prefix, is_empty, itoa}
use kubeminds.Prelude.Errors.{Fallible, ok, err}
use kubeminds.Crypto.Hex.{hex_decode}
use kubeminds.Crypto.Base64.{base64_encode, base64_decode}

-- `cipher.AEAD`: `seal nonce plaintext` and `open nonce ciphertext`, with no additional data.
pub record Aead : Type 0 where
  pub nonce_size : ℕ
  pub seal : Str → Str → Str
  pub open_sealed : Str → Str → Fallible Str

-- `aes.NewCipher` and `cipher.NewGCM`, `io.ReadFull(rand.Reader, …)` of a number of bytes,
-- `os.Getenv`, and the texts of the errors of hex and base64 on an input.
pub record Outside (Block W : Type 0) : Type 0 where
  pub new_cipher : Str → Fallible Block
  pub new_gcm : Block → Fallible Aead
  pub read_random : ℕ → W → Fallible Str × W
  pub getenv : Str → Str
  pub hex_error : Str → Str
  pub base64_error : Str → Str

-- What the program prints: on the standard output, or on the standard error with exit code 1.
pub data Printed : Type 0 where
  out : Str → Printed
  fail : Str → Printed

-- `encPrefix`
unfoldable pub enc_prefix : Str
enc_prefix = lit "enc:aes256:"

unfoldable pub is_encrypted : Str → Bool
is_encrypted value = has_prefix value enc_prefix

module _ {Block W : Type 0} (x : Outside Block W) where
  abbrev wrong_length : Str → Str
  wrong_length key = lit "crypto: key must be exactly 32 bytes, got " ++ itoa (length key)

  abbrev gcm_or_error : Fallible Aead → Fallible Aead
  gcm_or_error (err e) = err (lit "crypto: failed to create GCM: " ++ e)
  gcm_or_error (ok gcm) = ok gcm

  abbrev gcm_of_block : Fallible Block → Fallible Aead
  gcm_of_block (err e) = err (lit "crypto: failed to create AES cipher: " ++ e)
  gcm_of_block (ok block) = gcm_or_error (x.new_gcm block)

  -- The cipher of a key, as `Encrypt` and `Decrypt` make it.
  unfoldable pub gcm_for : Str → Fallible Aead
  gcm_for key = gcm_of_block (x.new_cipher key)

  -- The nonce is the head of the sealed data.
  unfoldable pub seal_with : Aead → Str → Fallible Str × W → Fallible Str × W
  seal_with gcm plaintext (err e, w) = (err (lit "crypto: failed to generate nonce: " ++ e), w)
  seal_with gcm plaintext (ok nonce, w) =
      (ok (enc_prefix ++ base64_encode (nonce ++ gcm.seal nonce plaintext)), w)

  abbrev pub encrypt_with : Fallible Aead → Str → W → Fallible Str × W
  encrypt_with (err e) plaintext w = (err e, w)
  encrypt_with (ok gcm) plaintext w = seal_with gcm plaintext (x.read_random gcm.nonce_size w)

  -- `Encrypt`
  unfoldable pub encrypt : Str → Str → W → Fallible Str × W
  encrypt key plaintext w =
      if length key == 32
      then encrypt_with (gcm_for key) plaintext w
      else (err (wrong_length key), w)

  abbrev opened : Fallible Str → Fallible Str
  opened (err e) = err (lit "crypto: decryption failed (wrong key or corrupted data): " ++ e)
  opened (ok plaintext) = ok plaintext

  unfoldable pub open_with : Aead → Str → Fallible Str
  open_with gcm bytes =
      if ltb (length bytes) gcm.nonce_size
      then err (lit "crypto: ciphertext too short")
      else opened (gcm.open_sealed (take gcm.nonce_size bytes) (drop gcm.nonce_size bytes))

  abbrev open_under : Fallible Aead → Str → Fallible Str
  open_under (err e) bytes = err e
  open_under (ok gcm) bytes = open_with gcm bytes

  abbrev pub open_data : Str → Option Str → Str → Fallible Str
  open_data key none encoded =
      err (lit "crypto: failed to base64-decode encrypted value: " ++ x.base64_error encoded)
  open_data key (some bytes) encoded = open_under (gcm_for key) bytes

  -- `Decrypt`
  unfoldable pub decrypt : Str → Str → Fallible Str
  decrypt key value =
      let encoded = drop (length enc_prefix) value in
      if is_encrypted value
      then (if length key == 32
          then open_data key (base64_decode encoded) encoded
          else err (wrong_length key))
      else ok value

  abbrev key_of_bytes : Str → Option Str → Fallible Str
  key_of_bytes hex_key none =
      err (lit "crypto: KUBEMINDS_MASTER_KEY is not valid hex: " ++ x.hex_error hex_key)
  key_of_bytes hex_key (some key) =
      if length key == 32
      then ok key
      else err (
          lit "crypto: KUBEMINDS_MASTER_KEY must be 64 hex chars (32 bytes), got "
          ++ (itoa (length key) ++ lit " bytes"))

  abbrev pub key_of_hex : Str → Fallible Str
  key_of_hex hex_key =
      if is_empty hex_key
      then err (
          lit "crypto: KUBEMINDS_MASTER_KEY environment variable is not set; "
          ++ lit "generate one with: openssl rand -hex 32")
      else key_of_bytes hex_key (hex_decode hex_key)

  -- `MasterKeyFromEnv`
  unfoldable pub master_key_from_env : Fallible Str
  master_key_from_env = key_of_hex (x.getenv (lit "KUBEMINDS_MASTER_KEY"))

  abbrev pub decrypt_under : Fallible Str → Str → Fallible Str
  decrypt_under (err e) value = err (lit "crypto: cannot decrypt config value: " ++ e)
  decrypt_under (ok key) value = decrypt key value

  -- `DecryptValue`
  unfoldable pub decrypt_value : Str → Fallible Str
  decrypt_value value =
      if is_encrypted value then decrypt_under master_key_from_env value else ok value

  abbrev printed : Fallible Str × W → Printed × W
  printed (err e, w) = (fail (lit "Encryption failed: " ++ (e ++ lit "\n")), w)
  printed (ok encrypted, w) = (out (encrypted ++ lit "\n"), w)

  abbrev usage : Str
  usage =
      lit "Usage: encryptkey <plaintext-api-key>\n"
      ++ lit "       KUBEMINDS_MASTER_KEY must be set (64 hex chars)\n"

  abbrev pub encrypt_argument : Fallible Str → Str → W → Printed × W
  encrypt_argument (err e) plaintext w =
      (fail (lit "Error: " ++ (e ++ lit "\nGenerate a master key with: openssl rand -hex 32\n")), w)
  encrypt_argument (ok key) plaintext w = printed (encrypt key plaintext w)

  -- `main` of encryptkey, on the arguments after the name of the program.
  unfoldable pub encryptkey : List Str → W → Printed × W
  encryptkey [] w = (fail usage, w)
  encryptkey (plaintext ∷ rest) w =
      if is_empty plaintext
      then (fail usage, w)
      else encrypt_argument master_key_from_env plaintext w
