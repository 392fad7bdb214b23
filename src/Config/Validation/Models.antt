-- ===== src/Config/Validation/Models.antt =====
-- The configurations that validation gives, of src/msgate/schemas/config.py.
use msgate.Prelude.{
  false, ◌&&◌, Option, none, some, ◌≡◌, refl, ap, subst, ◌∙◌, Text, Bool-cases, inl, inr,
}
use msgate.Prelude.Results.{Result, ok, raise, ◌>>=◌}
use msgate.Prelude.Texts.{strip, is_empty}
use mathlib.Core.Option
use msgate.Config.{EwsConfig, GraphConfig, SmtpConfig, GatewayConfig}
use msgate.Config.Validation.{
  ConfigDict, dump_graph, model_dump, Pydantic, blank_to_none, within, or_invalid, validate_option,
  validate_smtp, validate_graph, validate_ews, validate_email, model_validate,
}

abbrev pub NotBlank : Option Text → Type 0
NotBlank t = blank_to_none t ≡ t

pub blank_to_none-NotBlank : (t : Option Text) → NotBlank (blank_to_none t)
unfolding blank_to_none
blank_to_none-NotBlank none = refl
blank_to_none-NotBlank (some t) = elim (Bool-cases (is_empty (strip t))) [
  | inl e ↦ rw e refl
  | inr e ↦ rw e (rw e refl)
]

nonblank_text : (t : Text) → is_empty (strip t) ≡ false → NotBlank (some t)
unfolding blank_to_none
nonblank_text t h = rw h refl

pub ok_injective {ℓ} : {A : Type ℓ} (a b : A) → ok a ≡ ok b → a ≡ b
ok_injective a b e = ap (λ r. elim r [ ok x ↦ x | raise y ↦ a ]) e

-- The parts of a chain that gives a result.
pub bind_inv {ℓ κ} :
    {A : Type ℓ} {B : Type κ} (r : Result A) (f : A → Result B) (b : B)
    → (r >>= f) ≡ ok b
    → (a : A) × (r ≡ ok a) × (f a ≡ ok b)
bind_inv (ok a) f b h = (a, refl, h)
bind_inv (raise e) f b h = absurd (cc)

or_invalid_inv {ℓ} : {A : Type ℓ} (o : Option A) (a : A) → or_invalid o ≡ ok a → o ≡ some a
or_invalid_inv none a h = absurd (cc)
or_invalid_inv (some b) a h = ap some (ok_injective b a h)

module _ (lib : Pydantic) where
  pub record ValidEws (e : EwsConfig) : Type 0 where
    pub url : lib.http_url e.server_url ≡ some e.server_url
    pub domain : NotBlank e.domain
    pub username : NotBlank e.username
    pub password : NotBlank e.password
    pub ca_file : NotBlank e.ca_file
    pub primary_smtp : NotBlank e.primary_smtp

  pub validate_ews-ValidEws : (e : EwsConfig) → ValidEws e → validate_ews lib e ≡ ok e
  unfolding validate_ews
  validate_ews-ValidEws e v =
      rw (v.url, validate_ews)
        (rw (v.domain, v.username, v.password, v.ca_file, v.primary_smtp) refl)

  -- What validation makes of an endpoint whose URL has a normal form.
  abbrev validated : EwsConfig → Text → EwsConfig
  validated e url = record e {
    server_url = url;
    domain = blank_to_none e.domain;
    username = blank_to_none e.username;
    password = blank_to_none e.password;
    ca_file = blank_to_none e.ca_file;
    primary_smtp = blank_to_none e.primary_smtp;
  }

  pub validate_ews_inv : (e e' : EwsConfig) → validate_ews lib e ≡ ok e' → ValidEws e'
  unfolding validate_ews
  validate_ews_inv e e' h =
      let (url, f, k) =
        bind_inv (or_invalid (lib.http_url e.server_url)) (λ url. ok (validated e url)) e' h in
      subst ValidEws (ok_injective (validated e url) e' k) (record {
        url =
            lib.http_url_normal e.server_url url (or_invalid_inv (lib.http_url e.server_url) url f);
        domain = blank_to_none-NotBlank e.domain;
        username = blank_to_none-NotBlank e.username;
        password = blank_to_none-NotBlank e.password;
        ca_file = blank_to_none-NotBlank e.ca_file;
        primary_smtp = blank_to_none-NotBlank e.primary_smtp;
      })

  abbrev pub ValidOption : Option EwsConfig → Type 0
  ValidOption none = Unit
  ValidOption (some e) = ValidEws e

  abbrev pub ValidSender : Option Text → Type 0
  ValidSender none = Unit
  ValidSender (some t) = (lib.email t ≡ some t) × NotBlank (some t)

  pub record Valid (c : GatewayConfig) : Type 0 where
    pub smtp : validate_smtp c.smtp ≡ ok c.smtp
    pub ews : ValidOption c.ews
    pub ews_failover : ValidOption c.ews_failover
    pub default_sender : ValidSender c.default_sender

  pub validate_option-ValidOption :
      (e : Option EwsConfig) → ValidOption e → validate_option (validate_ews lib) e ≡ ok e
  validate_option-ValidOption none v = refl
  validate_option-ValidOption (some e) v = rw (validate_ews-ValidEws e v) refl

  validate_option_inv :
      (e e' : Option EwsConfig) → validate_option (validate_ews lib) e ≡ ok e' → ValidOption e'
  validate_option_inv none e' h = subst ValidOption (ok_injective none e' h) tt
  validate_option_inv (some e) e' h =
      let (x, f, k) = bind_inv (validate_ews lib e) (λ b. ok (some b)) e' h in
      subst ValidOption (ok_injective (some x) e' k) (validate_ews_inv e x f)

  sender-ValidSender :
      (t : Option Text)
      → ValidSender t
      → validate_option (validate_email lib) (blank_to_none t) ≡ ok t
  unfolding blank_to_none
  sender-ValidSender none v = refl
  sender-ValidSender (some t) (normal, blank) =
      ap (validate_option (validate_email lib)) blank ∙ rw normal refl

  pub sender_inv :
      (t t' : Option Text)
      → NotBlank t
      → validate_option (validate_email lib) t ≡ ok t'
      → ValidSender t'
  sender_inv none t' b h = subst ValidSender (ok_injective none t' h) tt
  sender_inv (some t) t' b h =
      let (u, f, k) = bind_inv (or_invalid (lib.email t)) (λ b. ok (some b)) t' h in
      let normal = or_invalid_inv (lib.email t) u f in
      subst ValidSender (ok_injective (some u) t' k)
        (lib.email_normal t u normal, nonblank_text u (lib.email_nonblank t u normal))

  graph_kept :
      (g : Option GraphConfig) → validate_option validate_graph (Option.map dump_graph g) ≡ ok g
  unfolding validate_graph
  graph_kept none = refl
  graph_kept (some g) = refl

  -- A configuration that is valid is what its own dict is validated to.
  pub model_validate-Valid :
      (c : GatewayConfig) → Valid c → model_validate lib (model_dump c) ≡ ok c
  unfolding model_validate model_dump
  model_validate-Valid c v =
      rw
        (
          v.smtp,
          validate_option-ValidOption c.ews v.ews,
          validate_option-ValidOption c.ews_failover v.ews_failover,
          graph_kept c.graph,
          sender-ValidSender c.default_sender v.default_sender,
        )
        refl

  pub smtp_inv : (s s' : SmtpConfig) → validate_smtp s ≡ ok s' → validate_smtp s' ≡ ok s'
  unfolding validate_smtp
  smtp_inv s s' h =
      elim (Bool-cases (within 1 65535 s.port && within 1 100 s.max_message_size_mb)) [
        | inl e ↦
            subst (λ x. validate_smtp x ≡ ok x) (ok_injective s s' (rw (e, validate_smtp) at h))
              (rw (e, validate_smtp) refl)
        | inr e ↦ absurd (let k = rw (e, validate_smtp) at h in cc)
      ]

  -- Whatever validation accepts, it gives a valid configuration.
  pub model_validate-Valid_inv :
      (d : ConfigDict) (c : GatewayConfig) → model_validate lib d ≡ ok c → Valid c
  unfolding model_validate
  model_validate-Valid_inv d c h =
      let (smtp, e, h1) = bind_inv (validate_smtp d.smtp) _ c h in
      let (ews, f, h2) = bind_inv (validate_option (validate_ews lib) d.ews) _ c h1 in
      let (other, g, h3) = bind_inv (validate_option (validate_ews lib) d.ews_failover) _ c h2 in
      let (graph, k, h4) = bind_inv (validate_option validate_graph d.graph) _ c h3 in
      let sender = blank_to_none d.default_sender in
      let (t, l, h5) = bind_inv (validate_option (validate_email lib) sender) _ c h4 in
      subst Valid (ok_injective _ c h5) (record {
        smtp = smtp_inv d.smtp smtp e;
        ews = validate_option_inv d.ews ews f;
        ews_failover = validate_option_inv d.ews_failover other g;
        default_sender = sender_inv sender t (blank_to_none-NotBlank d.default_sender) l;
      })
