-- ===== src/Api/Sending.antt =====
-- The test messages of the API: src/msgate/api/backend.py with the routes that send in
-- src/msgate/api/routes/messages.py and src/msgate/api/routes/tools.py. The email package, which makes
-- the message of a form, is a parameter.
use msgate.Prelude.{
  ℕ, Bool, true, false, not, ◌||◌, Option, none, some, List, [], ◌∷◌, ◌++◌, Text, codes,
  if◌then◌else◌,
}
use msgate.Prelude.Base64.{Bytes, IsBytes}
use msgate.Prelude.Results.{Exception, Result, ok, raise}
use msgate.Config.{BackendType, ews, EwsConfig, GatewayConfig}
use msgate.Config.Environment.{allowed_of}
use msgate.Drivers.{EwsClient, MailDriver, label, blank, text_or, resolve_driver}
use msgate.Events.{announce}
use msgate.Queue.Repository.{SecretBox, Draw}
use msgate.Queue.Service.{ServiceState, AcceptResult, submit_test}
pub mod Delivery

-- What a route answers: a value, an HTTPException, or another exception.
pub data HttpResult (A : Type 0) : Type 0 where
  answer : A → HttpResult A
  http_error : ℕ → Text → HttpResult A
  crash : Exception → HttpResult A

-- The form of a test message.
pub record EmailMessageRequest : Type 0 where
  pub sender : Text
  pub recipients : List Text
  pub subject : Text
  pub body : Text
  pub is_html : Bool

-- `build_mime_from_test` of src/msgate/queue/processor.py.
pub record MimeBuilder : Type 0 where
  pub mime_of : EmailMessageRequest → Bytes
  pub mime_of-IsBytes : (m : EmailMessageRequest) → IsBytes (mime_of m)

abbrev pub is_ews : BackendType → Bool
is_ews ews = true
is_ews _ = false

-- What the routes see of the gateway.
pub record Sender : Type 0 where
  pub runtime : GatewayConfig
  pub service : ServiceState

abbrev pub of_result : {A : Type 0} → Result A → HttpResult A
of_result (ok a) = answer a
of_result (raise e) = crash e

abbrev pub and_then : {A B : Type 0} → HttpResult A → (A → HttpResult B) → HttpResult B
and_then (answer a) f = f a
and_then (http_error status detail) f = http_error status detail
and_then (crash e) f = crash e

-- The credentials of the EWS driver.
unfoldable pub ews_credentials : Option EwsConfig → HttpResult (Text × Text)
ews_credentials none = http_error 400 (codes "EWS credentials required")
ews_credentials (some e) =
    if blank e.username || blank e.password
    then http_error 400 (codes "EWS credentials required")
    else answer (text_or e.username, text_or e.password)

module _ {W : Type 0} (client : EwsClient W) where
  unfoldable pub require_backend_credentials : GatewayConfig → HttpResult (Text × Text)
  unfolding resolve_driver ews_credentials
  require_backend_credentials cfg =
      let driver = resolve_driver client cfg in
      if not (driver.is_configured cfg)
      then http_error 400 (label driver ++ codes " not configured")
      else if is_ews cfg.backend
      then ews_credentials cfg.ews
      else http_error 400 (label driver ++ codes " test send not available yet")

  module _ (mime : MimeBuilder) (box : SecretBox) where
    -- `send_test_email`
    unfoldable pub send_test_email :
        EmailMessageRequest → Draw → Sender → HttpResult (AcceptResult × ServiceState)
    unfolding require_backend_credentials submit_test
    send_test_email m d s = and_then (require_backend_credentials s.runtime) (λ credentials.
        of_result (
          submit_test box m.sender m.recipients m.subject (mime.mime_of m) credentials.0
            credentials.1 d s.service))

    abbrev pub form_of : Text → Text → Text → Text → EmailMessageRequest
    form_of sender recipients subject body = record {
      sender = sender;
      recipients = allowed_of recipients;
      subject = subject;
      body = body;
      is_html = false;
    }

    abbrev pub tell_test : ℕ → AcceptResult × ServiceState → AcceptResult × ServiceState
    tell_test now (r, s) = (
      r,
      record s {
        hub =
            announce (codes "test.send") (codes "Test email queued " ++ r.message_id) [] now s.hub;
      },
    )

    -- `send_test_ui`, with the time at which it publishes.
    unfoldable pub send_test_ui :
        Text → Text → Text → Text → Draw → ℕ → Sender → HttpResult (AcceptResult × ServiceState)
    unfolding send_test_email allowed_of
    send_test_ui sender recipients subject body d now s =
        and_then (send_test_email (form_of sender recipients subject body) d s)
          (λ done. answer (tell_test now done))
