-- ===== src/Api/Sending/Delivery.antt =====
-- What becomes of a test message of the API.
use msgate.Prelude.{
  ◌≡◌, refl, sym, ap, ◌∙◌, true, false, ◌||◌, arith, Option, none, some, [], ◌∷◌, ◌++◌, Text, codes,
  Bool-cases, Option-cases, inl, inr,
}
use msgate.Prelude.Results.{ok, integrity_error}
use msgate.Config.{EwsConfig, GatewayConfig}
use msgate.Drivers.{EwsClient, blank, text_or, resolve_driver}
use msgate.Queue.Processor.{make_request}
use msgate.Queue.Repository.{
  SecretBox, NewMessage, Draw, MessageRow, get_message, new_message_id, new_row, insert_message,
  Table,
}
use msgate.Queue.Service.{ServiceState, AcceptResult, accept_smtp, submit_test}
use msgate.Queue.Service.Acceptance.{make_request-new_row}
use msgate.Api.Sending.{
  HttpResult, answer, http_error, crash, EmailMessageRequest, MimeBuilder, Sender, of_result,
  and_then, is_ews, ews_credentials, require_backend_credentials, send_test_email,
}

-- GivenCredentials that are set in the configuration.
abbrev pub GivenCredentials : GatewayConfig → Text → Text → Type 0
GivenCredentials cfg username password =
    (e : EwsConfig) × (cfg.ews ≡ some e)
    × (e.username ≡ some username)
    × (e.password ≡ some password)

set_text : (o : Option Text) → blank o ≡ false → o ≡ some (text_or o)
set_text none h = absurd (cc)
set_text (some t) h = refl

and_then_inv :
    {A B : Type 0} (r : HttpResult A) (f : A → HttpResult B) (b : B)
    → and_then r f ≡ answer b
    → (a : A) × (r ≡ answer a) × (f a ≡ answer b)
and_then_inv (answer a) f b h = (a, refl, h)
and_then_inv (http_error status detail) f b h = absurd (cc)
and_then_inv (crash e) f b h = absurd (cc)

table_of : HttpResult (AcceptResult × ServiceState) → Table
table_of (answer a) = a.1.table
table_of _ = []

accepted_row :
    (box : SecretBox) (m : NewMessage) (d : Draw) (s s' : ServiceState) (r : AcceptResult)
    → of_result (accept_smtp box m d s) ≡ answer (r, s')
    → s'.table ≡ s.table ++ (new_row box m d ∷ [])
unfolding accept_smtp insert_message new_row table_of
accepted_row box m d s s' r h =
    elim (Option-cases (get_message (new_message_id d.uuid_hex) s.table)) [
      | inr (old, e) ↦
          absurd
            (let k : crash integrity_error ≡ answer (r, s') = rw (e, insert_message) at h in cc)
      | inl e ↦ sym (ap table_of h) ∙ rw (e, insert_message) refl
    ]

abbrev pub value_or : {A : Type 0} → A → HttpResult A → A
value_or a (answer b) = b
value_or a _ = a

ews_credentials_inv :
    (o : Option EwsConfig) (credentials : Text × Text)
    → ews_credentials o ≡ answer credentials
    → (e : EwsConfig) × (o ≡ some e)
      × (e.username ≡ some credentials.0)
      × (e.password ≡ some credentials.1)
unfolding ews_credentials
ews_credentials_inv none credentials h = absurd (cc)
ews_credentials_inv (some e) credentials h =
    elim (Bool-cases (blank e.username || blank e.password)) [
      | inl b ↦ absurd (let k = rw b at h in cc)
      | inr b ↦
          let k : answer (text_or e.username, text_or e.password) ≡ answer credentials =
            rw b at h in
          let same = ap (value_or credentials) k in
          (
            e,
            refl,
            set_text e.username (ground arith) ∙ ap (λ p. some p.0) same,
            set_text e.password (ground arith) ∙ ap (λ p. some p.1) same,
          )
    ]

module _ {W : Type 0} (client : EwsClient W) where
  credentials_inv :
      (cfg : GatewayConfig) (credentials : Text × Text)
      → require_backend_credentials client cfg ≡ answer credentials
      → ((resolve_driver client cfg).is_configured cfg ≡ true)
        × GivenCredentials cfg credentials.0 credentials.1
  unfolding require_backend_credentials
  credentials_inv cfg credentials h =
      elim (Bool-cases ((resolve_driver client cfg).is_configured cfg)) [
        | inr c ↦ absurd (let k = rw c at h in cc)
        | inl c ↦ elim (Bool-cases (is_ews cfg.backend)) [
          | inr b ↦ absurd (let k = rw (c, b) at h in cc)
          | inl b ↦ (c, ews_credentials_inv cfg.ews credentials (rw (c, b) at h))
        ]
      ]

  module _ (mime : MimeBuilder) (box : SecretBox) where
    -- If the API accepts a test message, then the driver of the configuration is configured, and the
    -- table has one more row, of which the workers make a request with the user name and password of
    -- the configuration and the sender, recipients and message of the form.
    pub send_test_email-make_request :
        (m : EmailMessageRequest) (d : Draw) (s : Sender) (r : AcceptResult) (after : ServiceState)
        → send_test_email client mime box m d s ≡ answer (r, after)
        → (username : Text) × (password : Text) × (row : MessageRow) × ((resolve_driver client
                s.runtime).is_configured
              s.runtime
            ≡ true)
          × GivenCredentials s.runtime username password
          × (after.table ≡ s.service.table ++ (row ∷ []))
          × (make_request box s.runtime row
              ≡ ok (record {
                auth_username = username;
                password = password;
                mail_from = m.sender;
                rcpt_tos = m.recipients;
                mime_bytes = mime.mime_of m;
                default_sender = s.runtime.default_sender;
              }))
    unfolding send_test_email submit_test
    send_test_email-make_request m d s r after h =
        let (given, credentials, sent) =
          and_then_inv (require_backend_credentials client s.runtime) _ (r, after) h in
        let (configured, owned) = credentials_inv s.runtime given credentials in
        let new : NewMessage = record {
          client_ip = codes "api";
          raw_auth_user = given.0;
          sanitized_user = given.0;
          sender = m.sender;
          recipients = m.recipients;
          subject = m.subject;
          mime_bytes = mime.mime_of m;
          ews_username = given.0;
          password = given.1;
        } in
        (
          given.0,
          given.1,
          new_row box new d,
          configured,
          owned,
          accepted_row box new d s.service after r sent,
          make_request-new_row box new d s.runtime (mime.mime_of-IsBytes m),
        )
