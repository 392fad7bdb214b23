-- ===== src/Config/Store/Secrets.antt =====
-- What the store gives back: src/msgate/config/store.py and src/msgate/config/export.py.
use msgate.Prelude.{
  false, Option, none, some, [], ◌≡◌, refl, ap, sym, ◌∙◌, Text, Bool-cases, inl, inr,
}
use msgate.Prelude.Results.{ok, ◌>>=◌}
use msgate.Prelude.Texts.{is_empty, is_empty_nil}
use msgate.Config.{EwsConfig, GatewayConfig}
use msgate.Config.Validation.{GraphDict, ConfigDict, model_dump, Pydantic, model_validate}
use msgate.Config.Validation.Models.{Valid, model_validate-Valid}
use msgate.Config.Store.{
  Nonces, change_given, change_password, change_secret, decrypt_or_blank, encrypt_secrets,
  decrypt_secrets, ConfigRow, save_config, load_config, BundleText, export_config, import_config,
}
use msgate.Queue.Repository.{SecretBox}
use mathlib.Core.Option

module _ (box : SecretBox) where
  -- The token of a text that is not empty is not empty, since an empty token stands for an empty text.
  token_nonblank : (nonce t : Text) → is_empty t ≡ false → is_empty (box.encrypt nonce t) ≡ false
  token_nonblank nonce t h = elim (Bool-cases (is_empty (box.encrypt nonce t))) [
    | inr e ↦ e
    | inl e ↦
        let blank = is_empty_nil (box.encrypt nonce t) e in
        let same : some t ≡ some [] =
          sym (box.decrypt-encrypt nonce t) ∙ ap box.decrypt blank ∙ box.decrypt_blank in
        absurd (cc)
  ]

  decrypt_or_blank-encrypt : (nonce t : Text) → decrypt_or_blank box (box.encrypt nonce t) ≡ t
  decrypt_or_blank-encrypt nonce t = rw (box.decrypt-encrypt nonce t, decrypt_or_blank) refl

  given_back :
      (nonce : Text) (secret : Option Text)
      → change_given (decrypt_or_blank box) (change_given (box.encrypt nonce) secret) ≡ secret
  given_back nonce none = refl
  given_back nonce (some t) = elim (Bool-cases (is_empty t)) [
    | inl e ↦ rw e (rw e refl)
    | inr e ↦ rw e (rw (token_nonblank nonce t e) (ap some (decrypt_or_blank-encrypt nonce t)))
  ]

  password_back :
      (nonce : Text) (e : Option EwsConfig)
      → Option.map
          (change_password (decrypt_or_blank box))
          (Option.map (change_password (box.encrypt nonce)) e)
        ≡ e
  password_back nonce none = refl
  password_back nonce (some e) =
      ap (λ p. some (record e { password = p })) (given_back nonce e.password)

  secret_back :
      (nonce : Text) (g : Option GraphDict)
      → Option.map
          (change_secret (decrypt_or_blank box))
          (Option.map (change_secret (box.encrypt nonce)) g)
        ≡ g
  secret_back nonce none = refl
  secret_back nonce (some g) =
      ap (λ p. some (record g { client_secret = p })) (given_back nonce g.client_secret)

  decrypt_secrets-encrypt_secrets :
      (n : Nonces) (d : ConfigDict) → decrypt_secrets box (encrypt_secrets box n d) ≡ d
  unfolding decrypt_secrets encrypt_secrets
  decrypt_secrets-encrypt_secrets n d = λ i. record d {
    ews = password_back n.ews d.ews i;
    ews_failover = password_back n.ews_failover d.ews_failover i;
    graph = secret_back n.graph d.graph i;
  }

  -- A valid configuration is loaded as it was saved, secrets included, whatever nonces were drawn and
  -- whatever was stored before.
  pub load_config-save_config :
      (lib : Pydantic) (n : Nonces) (c : GatewayConfig) (row : ConfigRow)
      → Valid lib c
      → load_config lib box (save_config box n c row) ≡ ok (some c)
  unfolding load_config save_config
  load_config-save_config lib n c row v =
      ap (λ d. model_validate lib d >>= λ c'. ok (some c'))
        (decrypt_secrets-encrypt_secrets n (model_dump c))
      ∙ rw (model_validate-Valid lib c v) refl

  -- A bundle whose JSON is read back as it was printed is imported as the configuration that was
  -- exported, if that is valid.
  pub import_config-export_config :
      (lib : Pydantic) (json : BundleText) (c : GatewayConfig) (nonce now : Text)
      → json.read (json.print (record { version = 1; exported_at = now; config = model_dump c }))
        ≡ some (record { version = 1; exported_at = now; config = model_dump c })
      → Valid lib c
      → import_config lib json (export_config json c box nonce now) box ≡ ok c
  unfolding import_config export_config
  import_config-export_config lib json c nonce now h v =
      rw
        (
          box.decrypt-encrypt nonce
              (json.print (record { version = 1; exported_at = now; config = model_dump c })),
          h,
          model_validate-Valid lib c v,
        )
        refl
