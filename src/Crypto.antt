-- ===== src/Crypto.antt =====
-- src/msgate/crypto/secrets.py: the encryption of secrets, and its key. AES-GCM, SHA-256 and UTF-8 are
-- parameters, with the random draws named by a text. Texts hold no lone surrogates.
use msgate.Prelude.{
  ℕ, ◌≡◌, Bool, true, false, not, ◌&&◌, Option, none, some, [], ◌∷◌, ◌++◌, Text, ltb, take, drop,
  length, any, if◌then◌else◌,
}
use msgate.Prelude.Base64.{Bytes, IsBytes}
use msgate.Prelude.Texts.{is_empty, strip}
use msgate.Prelude.Urlsafe.{urlsafe_b64encode, urlsafe_b64decode}
pub mod Boxes
pub mod Keys

-- `aes_encrypt` and `aes_decrypt` take the key and the nonce; a refused decryption is none.
pub record Cryptography : Type 0 where
  pub aes_encrypt : Bytes → Bytes → Bytes → Bytes
  pub aes_decrypt : Bytes → Bytes → Bytes → Option Bytes
  pub sha256 : Bytes → Bytes
  pub encode_utf8 : Text → Bytes
  pub decode_utf8 : Bytes → Option Text
  pub random_bytes : ℕ → Text → Bytes
  pub aes_decrypt-encrypt :
      (key nonce plain : Bytes)
      → Path ℕ (length nonce) 12
      → IsBytes plain
      → Path (Option Bytes) (aes_decrypt key nonce (aes_encrypt key nonce plain)) (some plain)
  pub aes_encrypt-IsBytes :
      (key nonce plain : Bytes) → IsBytes plain → IsBytes (aes_encrypt key nonce plain)
  pub encode_utf8-IsBytes : (t : Text) → IsBytes (encode_utf8 t)
  pub decode-encode : (t : Text) → Path (Option Text) (decode_utf8 (encode_utf8 t)) (some t)
  pub random_length : (n : ℕ) (draw : Text) → Path ℕ (length (random_bytes n draw)) n
  pub random_bytes-IsBytes : (n : ℕ) (draw : Text) → IsBytes (random_bytes n draw)

abbrev pub is_beyond_ascii : ℕ → Bool
is_beyond_ascii c = not (ltb c 128)

-- The file of the key: what is in it, if there is one.
abbrev pub KeyFile : Type 0
KeyFile = Option Text

module _ (lib : Cryptography) where
  -- `SecretBox.encrypt`
  unfoldable pub encrypt_secret : Bytes → Text → Text → Text
  unfolding urlsafe_b64encode
  encrypt_secret key draw plaintext =
      let nonce = lib.random_bytes 12 draw in
      if is_empty plaintext
      then []
      else urlsafe_b64encode (nonce ++ lib.aes_encrypt key nonce (lib.encode_utf8 plaintext))

  abbrev pub open_raw : Bytes → Option Bytes → Option Text
  open_raw key none = none
  open_raw key (some raw) = elim (lib.aes_decrypt key (take 12 raw) (drop 12 raw)) [
    | none ↦ none
    | some plain ↦ lib.decode_utf8 plain
  ]

  -- `SecretBox.decrypt`; none is an exception.
  unfoldable pub decrypt_secret : Bytes → Text → Option Text
  unfolding urlsafe_b64decode
  decrypt_secret key token =
      if is_empty token
      then some []
      else if any is_beyond_ascii token
      then none
      else open_raw key (urlsafe_b64decode token)

  -- `SecretBox.derive_key`
  unfoldable pub derive_key : Bytes → Text → Bytes
  derive_key key context = lib.sha256 (key ++ lib.encode_utf8 context)

  -- The key of `SecretBox.from_passphrase`, whose 32 bytes the constructor takes.
  unfoldable pub from_passphrase : Text → Bytes
  from_passphrase passphrase = lib.sha256 (lib.encode_utf8 passphrase)

  abbrev pub is_key_given : Option Text → Bool
  is_key_given none = false
  is_key_given (some key) = not (is_empty (strip key))

  abbrev pub phrase_of : Option Text → Text
  phrase_of none = []
  phrase_of (some text) = strip text

  -- `resolve_secret_box`: the key, and the file that it leaves.
  unfoldable pub resolve_secret_box : Option Text → KeyFile → Text → Bytes × KeyFile
  unfolding from_passphrase urlsafe_b64encode strip
  resolve_secret_box env_key file draw =
      if is_key_given env_key then (from_passphrase (phrase_of env_key), file) else elim file [
        | some text ↦ (from_passphrase (strip text), some text)
        | none ↦
            let phrase = urlsafe_b64encode (lib.random_bytes 32 draw) in
            (from_passphrase phrase, some (phrase ++ (10 ∷ [])))
      ]
