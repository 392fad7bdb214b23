-- ===== src/Crypto/Boxes.antt =====
-- The box of src/msgate/crypto/secrets.py keeps what the queue and the configuration rely on.
use msgate.Prelude.{
  ℕ, ◌<◌, ◌≡◌, refl, ap, ◌∙◌, subst, false, some, [], ◌∷◌, ◌++◌, Text, lt→ltb, take, drop, length,
  any, All, All-append, Bool-cases, inl, inr, arith,
}
use msgate.Prelude.Base64.{Bytes, IsBytes}
use msgate.Prelude.Texts.{is_empty, is_empty_nil}
use msgate.Prelude.Urlsafe.{
  UrlChar, urlsafe_b64encode, urlsafe_b64decode, urlsafe_b64decode-encode,
  urlsafe_b64encode-UrlChar, urlsafe_b64encode-nonempty,
}
use msgate.Crypto.{Cryptography, is_beyond_ascii, encrypt_secret, open_raw, decrypt_secret}
use msgate.Queue.Repository.{SecretBox}

ascii_text : (t : Text) → All UrlChar t → any is_beyond_ascii t ≡ false
ascii_text [] h = refl
ascii_text (c ∷ t) h = rw (lt→ltb c 128 h.0.0, ascii_text t h.1) refl

taken : (xs ys : Bytes) → take (length xs) (xs ++ ys) ≡ xs
taken [] ys = refl
taken (x ∷ xs) ys = ap (λ l. x ∷ l) (taken xs ys)

dropped : (xs ys : Bytes) → drop (length xs) (xs ++ ys) ≡ ys
dropped [] ys = refl
dropped (x ∷ xs) ys = dropped xs ys

take-append : (n : ℕ) (xs ys : Bytes) → length xs ≡ n → take n (xs ++ ys) ≡ xs
take-append n xs ys h = subst (λ m. take m (xs ++ ys) ≡ xs) h (taken xs ys)

drop-append : (n : ℕ) (xs ys : Bytes) → length xs ≡ n → drop n (xs ++ ys) ≡ ys
drop-append n xs ys h = subst (λ m. drop m (xs ++ ys) ≡ ys) h (dropped xs ys)

long_nonempty : (xs ys : Bytes) → length xs ≡ 12 → is_empty (xs ++ ys) ≡ false
long_nonempty [] ys h = absurd (omega (arith, h))
long_nonempty (x ∷ xs) ys h = refl

module _ (lib : Cryptography) (key : Bytes) (draw : Text) where
  abbrev sealed : Text → Bytes
  sealed plain =
      lib.random_bytes 12 draw
      ++ lib.aes_encrypt key (lib.random_bytes 12 draw) (lib.encode_utf8 plain)

  sealed-IsBytes : (plain : Text) → IsBytes (sealed plain)
  sealed-IsBytes plain =
      All-append (λ b. b < 256) (lib.random_bytes 12 draw)
        (lib.aes_encrypt key (lib.random_bytes 12 draw) (lib.encode_utf8 plain))
        (lib.random_bytes-IsBytes 12 draw)
        (lib.aes_encrypt-IsBytes key (lib.random_bytes 12 draw) (lib.encode_utf8 plain)
          (lib.encode_utf8-IsBytes plain))

  open_raw-sealed : (plain : Text) → open_raw lib key (some (sealed plain)) ≡ some plain
  open_raw-sealed plain =
      let nonce = lib.random_bytes 12 draw in
      let cipher = lib.aes_encrypt key nonce (lib.encode_utf8 plain) in
      let size = lib.random_length 12 draw in
      let opened : lib.aes_decrypt key (take 12 (sealed plain)) (drop 12 (sealed plain))
          ≡ some (lib.encode_utf8 plain) =
        rw (take-append 12 nonce cipher size, drop-append 12 nonce cipher size)
          (lib.aes_decrypt-encrypt key nonce (lib.encode_utf8 plain) size
            (lib.encode_utf8-IsBytes plain)) in
      rw (opened, open_raw) (lib.decode-encode plain)

  -- What was encrypted under a key is decrypted under it, blank texts included, whatever is drawn.
  pub decrypt_secret-encrypt_secret :
      (plain : Text) → decrypt_secret lib key (encrypt_secret lib key draw plain) ≡ some plain
  unfolding decrypt_secret encrypt_secret
  decrypt_secret-encrypt_secret plain = elim (Bool-cases (is_empty plain)) [
    | inl e ↦ rw (is_empty_nil plain e) refl
    | inr e ↦
        let bytes = sealed plain in
        let token = urlsafe_b64encode bytes in
        let made : encrypt_secret lib key draw plain ≡ token = rw (e, encrypt_secret) refl in
        let filled = urlsafe_b64encode-nonempty bytes (
          long_nonempty (lib.random_bytes 12 draw)
            (lib.aes_encrypt key (lib.random_bytes 12 draw) (lib.encode_utf8 plain))
            (lib.random_length 12 draw)) in
        let plainly = ascii_text token (urlsafe_b64encode-UrlChar bytes) in
        let read = urlsafe_b64decode-encode bytes (sealed-IsBytes plain) in
        let opened : decrypt_secret lib key token ≡ open_raw lib key (urlsafe_b64decode token) =
          rw (filled, decrypt_secret) (rw plainly refl) in
        ap (decrypt_secret lib key) made
        ∙ opened
        ∙ ap (open_raw lib key) read
        ∙ open_raw-sealed plain
  ]

-- The box that the queue and the configuration take.
unfoldable pub secret_box : Cryptography → Bytes → SecretBox
unfolding encrypt_secret decrypt_secret
secret_box lib key = record {
  encrypt = λ nonce plain. encrypt_secret lib key nonce plain;
  decrypt = λ token. decrypt_secret lib key token;
  decrypt-encrypt = λ nonce plain. decrypt_secret-encrypt_secret lib key nonce plain;
  decrypt_blank = refl;
}
