-- ===== src/Crypto/Keys.antt =====
-- The key of src/msgate/crypto/secrets.py from one start to the next.
use msgate.Prelude.{ℕ, ◌≡◌, refl, false, Option, none, some, [], ◌∷◌, ◌++◌, Text, All, arith}
use msgate.Prelude.Base64.{Bytes}
use msgate.Prelude.Texts.{is_space, strip, drop_tail}
use msgate.Prelude.Urlsafe.{UrlChar, urlsafe_b64encode, urlsafe_b64encode-UrlChar}
use msgate.Crypto.{
  Cryptography, KeyFile, from_passphrase, is_key_given, decrypt_secret, encrypt_secret,
  resolve_secret_box,
}
use msgate.Crypto.Boxes.{decrypt_secret-encrypt_secret}

visible : (c : ℕ) → UrlChar c → is_space c ≡ false
visible c h = ground (arith, h.0, h.2)

drop_tail-line : (s : Text) → All UrlChar s → drop_tail is_space (s ++ (10 ∷ [])) ≡ s
drop_tail-line [] h = refl
drop_tail-line (c ∷ s) h = rw (visible c h.0, drop_tail-line s h.1) refl

strip_line : (s : Text) → All UrlChar s → strip (s ++ (10 ∷ [])) ≡ s
unfolding strip
strip_line [] h = refl
strip_line (c ∷ s) h = rw (visible c h.0) (drop_tail-line (c ∷ s) h)

-- A start without a key in its environment and without a key file makes a key and leaves the file;
-- a later start with that file, and none in its environment, gets the same key whatever it draws, so
-- that it decrypts what the first one encrypted.
pub resolve_secret_box-resolve_secret_box :
    (lib : Cryptography) (env_key later_env : Option Text) (draw later_draw nonce plain : Text)
    → is_key_given lib env_key ≡ false
    → is_key_given lib later_env ≡ false
    → (key : Bytes) × (file : KeyFile) × (resolve_secret_box lib env_key none draw ≡ (key, file))
      × (resolve_secret_box lib later_env file later_draw ≡ (key, file))
      × (decrypt_secret lib key (encrypt_secret lib key nonce plain) ≡ some plain)
unfolding resolve_secret_box
resolve_secret_box-resolve_secret_box lib env_key later_env draw later_draw nonce plain h k =
    let phrase = urlsafe_b64encode (lib.random_bytes 32 draw) in
    let line = strip_line phrase (urlsafe_b64encode-UrlChar (lib.random_bytes 32 draw)) in
    (
      from_passphrase lib phrase,
      some (phrase ++ (10 ∷ [])),
      rw (h, resolve_secret_box) refl,
      rw (k, resolve_secret_box) (rw line refl),
      decrypt_secret-encrypt_secret lib (from_passphrase lib phrase) nonce plain,
    )
