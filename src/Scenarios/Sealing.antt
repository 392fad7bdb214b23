-- ===== src/Scenarios/Sealing.antt =====
-- A cipher that leaves its text as it is, and a key that survives a restart.
use msgate.Prelude.{
  ℕ, zero, suc, ◌+◌, ◌≡◌, refl, ap, ◌∙◌, none, some, [], ◌∷◌, Text, codes, length, arith,
}
use msgate.Prelude.Base64.{Bytes, IsBytes}
use msgate.Prelude.Texts.{strip}
use msgate.Crypto.{Cryptography, KeyFile, resolve_secret_box, encrypt_secret, decrypt_secret}
use msgate.Prelude.Results.{ok}
use msgate.Queue.Processor.{make_request}
use msgate.Queue.Repository.{new_row}
use msgate.Queue.Service.Acceptance.{make_request-new_row}
use msgate.Scenarios.Samples.{config, message, draw}
use msgate.Crypto.Boxes.{secret_box}
use msgate.Crypto.Keys.{resolve_secret_box-resolve_secret_box}

-- Code points in place of UTF-8: as many ones, and a zero.
abbrev ones : ℕ → Bytes → Bytes
ones zero rest = 0 ∷ rest
ones (suc n) rest = 1 ∷ ones n rest

abbrev unary : Text → Bytes
unary [] = []
unary (c ∷ s) = ones c (unary s)

abbrev of_unary : ℕ → Bytes → Text
of_unary n [] = []
of_unary n (zero ∷ bs) = n ∷ of_unary 0 bs
of_unary n (suc b ∷ bs) = of_unary (suc n) bs

of_unary-ones : (n c : ℕ) (rest : Bytes) → of_unary n (ones c rest) ≡ (n + c) ∷ of_unary 0 rest
of_unary-ones n zero rest = ap (λ m. m ∷ of_unary 0 rest) (omega arith)
of_unary-ones n (suc c) rest =
    of_unary-ones (suc n) c rest ∙ ap (λ m. m ∷ of_unary 0 rest) (omega arith)

of_unary-unary : (s : Text) → of_unary 0 (unary s) ≡ s
of_unary-unary [] = refl
of_unary-unary (c ∷ s) =
    let sum : 0 + c ≡ c = omega arith in
    of_unary-ones 0 c (unary s)
    ∙ ap (λ m. m ∷ of_unary 0 (unary s)) sum
    ∙ ap (λ t. c ∷ t) (of_unary-unary s)

ones-IsBytes : (c : ℕ) (rest : Bytes) → IsBytes rest → IsBytes (ones c rest)
ones-IsBytes zero rest h = (omega arith, h)
ones-IsBytes (suc c) rest h = (omega arith, ones-IsBytes c rest h)

unary-IsBytes : (s : Text) → IsBytes (unary s)
unary-IsBytes [] = tt
unary-IsBytes (c ∷ s) = ones-IsBytes c (unary s) (unary-IsBytes s)

abbrev sevens : ℕ → Bytes
sevens zero = []
sevens (suc n) = 7 ∷ sevens n

length-sevens : (n : ℕ) → length (sevens n) ≡ n
length-sevens zero = refl
length-sevens (suc n) = ap suc (length-sevens n)

sevens-IsBytes : (n : ℕ) → IsBytes (sevens n)
sevens-IsBytes zero = tt
sevens-IsBytes (suc n) = (omega arith, sevens-IsBytes n)

abbrev plain_cipher : Cryptography
plain_cipher = record {
  aes_encrypt = λ key nonce plain. plain;
  aes_decrypt = λ key nonce cipher. some cipher;
  sha256 = λ b. b;
  encode_utf8 = unary;
  decode_utf8 = λ b. some (of_unary 0 b);
  random_bytes = λ n draw. sevens n;
  aes_decrypt-encrypt = λ key nonce plain h b. refl;
  aes_encrypt-IsBytes = λ key nonce plain h. h;
  encode_utf8-IsBytes = unary-IsBytes;
  decode-encode = λ t. ap some (of_unary-unary t);
  random_length = λ n draw. length-sevens n;
  random_bytes-IsBytes = λ n draw. sevens-IsBytes n;
}

resolve_secret_box-resolve_secret_box_example :
    (key : Bytes) × (file : KeyFile) × (resolve_secret_box plain_cipher none none (codes "a")
      ≡ (key, file))
    × (resolve_secret_box plain_cipher (some (codes " ")) file (codes "b") ≡ (key, file))
    × (decrypt_secret plain_cipher key (encrypt_secret plain_cipher key (codes "n") (codes "pw"))
        ≡ some (codes "pw"))
unfolding strip
resolve_secret_box-resolve_secret_box_example =
    resolve_secret_box-resolve_secret_box plain_cipher none (some (codes " ")) (codes "a")
      (codes "b") (codes "n") (codes "pw") refl refl

-- A message that is stored under the key comes back from its row.
sealed_run :
    make_request
      (secret_box plain_cipher (1 ∷ []))
      config
      (new_row (secret_box plain_cipher (1 ∷ [])) message draw)
    ≡ ok (record {
      auth_username = message.ews_username;
      password = message.password;
      mail_from = message.sender;
      rcpt_tos = message.recipients;
      mime_bytes = message.mime_bytes;
      default_sender = config.default_sender;
    })
sealed_run =
    make_request-new_row (secret_box plain_cipher (1 ∷ [])) message draw config
      (omega arith, (omega arith, tt))
