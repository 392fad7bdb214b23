-- ===== src/Ops/Digest/Mail.antt =====
-- src/msgate/ops/digest_mail.py: a digest goes to the administrator by the mail drivers. The email
-- package is a parameter; it raises where a header cannot be written.
use msgate.Prelude.{
  Bool, true, false, not, ◌||◌, none, some, [], ◌∷◌, ◌++◌, Text, codes, if◌then◌else◌,
}
use msgate.Prelude.Base64.{Bytes}
use msgate.Prelude.Results.{Result, ok, raise}
use msgate.Config.{EwsConfig, GatewayConfig}
use msgate.Drivers.{SendRequest, Sending, sent, failing, EwsClient, resolve_driver}
use msgate.Ops.AlertMail.{given_or, or_missing, is_given, join_lines}
use msgate.Ops.Digest.{Calendar}
use msgate.Ops.Digest.Pdf.{text_pdf}
use msgate.Ops.Digest.Report.{DigestReport}
use msgate.Ops.Digest.Report.Lines.{render_subject, body_lines}

pub record DigestSendResult : Type 0 where
  pub done : Bool
  pub error : Text

-- The bytes of a message to send: its sender, recipient, subject and body, and the attachment with
-- its name.
pub record Attaching : Type 0 where
  pub as_bytes : Text → Text → Text → Text → Bytes → Text → Result Bytes

abbrev pub refusal : Text → DigestSendResult
refusal error = record { done = false; error = error }

abbrev pub no_backend : DigestSendResult
no_backend = refusal (codes "Mail backend not configured (Settings → Exchange).")

abbrev pub missing_credentials : DigestSendResult
missing_credentials =
    refusal (codes "EWS username/password missing — open Settings → Exchange and save credentials.")

abbrev pub result_of : Sending → DigestSendResult
result_of (sent r) = record { done = true; error = [] }
result_of (failing e) = refusal (codes "EWS send failed: " ++ e)

abbrev pub sender_of : EwsConfig → GatewayConfig → Text
sender_of ews cfg =
    given_or (or_missing ews.primary_smtp cfg.default_sender) (given_or ews.username [])

abbrev pub digest_request : EwsConfig → GatewayConfig → Text → Bytes → SendRequest
digest_request ews cfg to_email bytes = record {
  auth_username = given_or ews.username [];
  password = given_or ews.password [];
  mail_from = sender_of ews cfg;
  rcpt_tos = to_email ∷ [];
  mime_bytes = bytes;
  default_sender = cfg.default_sender;
}

abbrev pub digest_body : Bool → Text → Text
digest_body include_body text =
    if include_body
    then text ++ (10 ∷ 10 ∷ (codes "(See PDF attachment for the same report.)" ++ (10 ∷ [])))
    else codes "msgate digest attached as PDF." ++ (10 ∷ [])

module _ (calendar : Calendar) (attach : Attaching) where
  unfoldable pub digest_bytes : DigestReport → Text → Text → Text → Bool → Result Bytes
  unfolding body_lines render_subject text_pdf
  digest_bytes report sender to_email template include_body =
      let lines = body_lines calendar report in
      attach.as_bytes sender to_email (render_subject calendar report template)
        (digest_body include_body (join_lines lines))
        (text_pdf (codes "msgate " ++ (report.period ++ codes " digest")) lines)
        (codes "msgate-" ++ (report.period ++ codes "-digest.pdf"))

module _ {W : Type 0} (client : EwsClient W) where
  -- `driver.send(request, cfg)` with its handler, where the message could be composed.
  abbrev pub hand_over :
      EwsConfig → GatewayConfig → Text → Result Bytes → W → Result DigestSendResult × W
  hand_over ews cfg to_email (raise e) w = (raise e, w)
  hand_over ews cfg to_email (ok bytes) w =
      let (answer, w') =
        (resolve_driver client cfg).send (digest_request ews cfg to_email bytes) cfg w in
      (ok (result_of answer), w')

module _ {W : Type 0} (calendar : Calendar) (attach : Attaching) (client : EwsClient W) where
  unfoldable pub send_digest :
      GatewayConfig → DigestReport → Text → Text → Bool → W → Result DigestSendResult × W
  unfolding resolve_driver digest_bytes
  send_digest cfg report to_email template include_body w =
      if not ((resolve_driver client cfg).is_configured cfg)
      then (ok no_backend, w)
      else elim cfg.ews [
        | none ↦ (ok missing_credentials, w)
        | some ews ↦
            if not (is_given ews.username) || not (is_given ews.password)
            then (ok missing_credentials, w)
            else hand_over client ews cfg to_email
                (digest_bytes calendar attach report (sender_of ews cfg) to_email template
                  include_body)
                w
      ]
