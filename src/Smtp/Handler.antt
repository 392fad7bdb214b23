-- ===== src/Smtp/Handler.antt =====
-- src/msgate/smtp/handler.py: the commands RCPT and DATA. A reply is a value that `reply_text`
-- renders. `session.peer` is the address of the client, blank where there is none.
use msgate.Prelude.{
  ℕ, ◌≡◌, Bool, true, false, ◌&&◌, ◌||◌, not, Option, none, some, List, [], ◌∷◌, ◌++◌, Text, codes,
  if◌then◌else◌,
}
use msgate.Prelude.Base64.{Bytes}
use msgate.Prelude.Results.{Exception, Result, ok, raise}
use msgate.Prelude.Texts.{is_empty}
use msgate.Config.{EwsConfig, GatewayConfig}
use msgate.Drivers.{blank, text_or}
use msgate.Queue.Repository.{SecretBox, NewMessage, Draw}
use msgate.Queue.Service.{ServiceState, Deferral, deferral_text, check_backpressure, accept_smtp}
use msgate.Smtp.Access.{IpLibrary, ip_allowed}
use msgate.Smtp.Authenticator.{SessionAuth, SmtpAuthenticator, get}
pub mod Replies
pub mod Relaying

pub record Envelope : Type 0 where
  pub mail_from : Option Text
  pub rcpt_tos : List Text
  pub content : Option Bytes

unfoldable pub handle_rcpt : Text → Envelope → Envelope
handle_rcpt address e = record e { rcpt_tos = e.rcpt_tos ++ (address ∷ []) }

pub data Reply : Type 0 where
  relay_denied : Reply
  not_configured : Reply
  deferred : Deferral → Reply
  no_credentials : Reply
  try_later : Exception → Reply
  accepted : Reply

-- `exception_text` is `str` of an exception.
unfoldable pub reply_text : (Exception → Text) → Reply → Text
unfolding deferral_text
reply_text exception_text relay_denied =
    codes "550 relay not permitted: AUTH required or IP allowlisted"
reply_text exception_text not_configured = codes "451 temporary failure: EWS not configured"
reply_text exception_text (deferred d) = deferral_text d
reply_text exception_text no_credentials =
    codes "451 temporary failure: EWS credentials not configured"
reply_text exception_text (try_later e) = codes "451 temporary failure: " ++ exception_text e
reply_text exception_text accepted = codes "250 Message accepted for delivery"

pub record Credentials : Type 0 where
  pub ews_user : Text
  pub password : Text
  pub raw_user : Text
  pub sanitized_user : Text

-- The peer's own credentials, or those of the gateway for a relay without AUTH.
unfoldable pub credentials : Option SessionAuth → EwsConfig → Option Credentials
credentials (some auth) ews = some (record {
  ews_user = auth.sanitized.ews_username;
  password = auth.password;
  raw_user = auth.sanitized.raw;
  sanitized_user = auth.sanitized.username;
})
credentials none ews =
    if blank ews.username || blank ews.password
    then none
    else some (record {
      ews_user = text_or ews.username;
      password = text_or ews.password;
      raw_user = [];
      sanitized_user = text_or ews.username;
    })

abbrev pub is_known : Option SessionAuth → Bool
is_known none = false
is_known (some a) = true

abbrev pub bytes_or : Option Bytes → Bytes
bytes_or none = []
bytes_or (some b) = b

unfoldable pub new_message : (Bytes → Text) → Text → Credentials → Envelope → NewMessage
new_message subject_of peer_ip c e = record {
  client_ip = peer_ip;
  raw_auth_user = c.raw_user;
  sanitized_user = c.sanitized_user;
  sender = text_or e.mail_from;
  recipients = e.rcpt_tos;
  subject = subject_of (bytes_or e.content);
  mime_bytes = bytes_or e.content;
  ews_username = c.ews_user;
  password = c.password;
}

unfoldable pub accept : SecretBox → NewMessage → Draw → ServiceState → Reply × ServiceState
unfolding accept_smtp
accept box m d s = elim (accept_smtp box m d s) [
  | raise e ↦ (try_later e, s)
  | ok (result, s') ↦ (accepted, s')
]

-- What the handler is made with, and what it reads of its environment.
pub record HandlerContext : Type 0 where
  pub ip : IpLibrary
  pub subject_of : Bytes → Text
  pub box : SecretBox
  pub reject_on_circuit : Bool
  pub max_pending : ℕ
  pub authenticator : SmtpAuthenticator

-- What follows the relay check and the check of the configuration.
unfoldable pub enqueue :
    HandlerContext
    → EwsConfig
    → Option SessionAuth
    → Text
    → Envelope
    → ℕ
    → Draw
    → ServiceState
    → Reply × ServiceState
unfolding accept credentials new_message check_backpressure
enqueue h ews auth peer_ip e now d s =
    let (deferral, s') = check_backpressure h.reject_on_circuit now h.max_pending s in
    elim deferral [
      | some reason ↦ (deferred reason, s')
      | none ↦ elim (credentials auth ews) [
        | none ↦ (no_credentials, s')
        | some c ↦ accept h.box (new_message h.subject_of peer_ip c e) d s'
      ]
    ]

unfoldable pub handle_data :
    HandlerContext
    → GatewayConfig
    → Text
    → Envelope
    → ℕ
    → Draw
    → ServiceState
    → Reply × ServiceState
unfolding enqueue
handle_data h config peer_ip e now d s =
    let auth = get peer_ip h.authenticator in
    let allowed = ip_allowed h.ip peer_ip config.smtp.allowed_ips in
    if not (is_known auth) && not allowed then (relay_denied, s) else elim config.ews [
      | none ↦ (not_configured, s)
      | some ews ↦ enqueue h ews auth peer_ip e now d s
    ]
