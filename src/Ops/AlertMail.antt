-- ===== src/Ops/AlertMail.antt =====
-- src/msgate/ops/alert_mail.py: the alert that goes to the administrator by the mail drivers.
use msgate.Prelude.{
  ℕ, Bool, true, false, not, ◌||◌, Option, none, some, List, [], ◌∷◌, ◌++◌, map, Text, codes,
  if◌then◌else◌,
}
use msgate.Prelude.Base64.{Bytes}
use msgate.Prelude.Ints.{show_ℕ}
use msgate.Prelude.Texts.{is_empty}
use msgate.Config.{EwsConfig, GatewayConfig}
use msgate.Drivers.{SendRequest, Sending, sent, failing, EwsClient, resolve_driver}
use msgate.Ops.Capacity.{Level, fine, warn, critical, CapacityStatus, reason_text}

abbrev pub level_text : Level → Text
level_text fine = codes "ok"
level_text warn = codes "warn"
level_text critical = codes "critical"

-- `x or y` over texts that may be missing.
abbrev pub given_or : Option Text → Text → Text
given_or none other = other
given_or (some t) other = if is_empty t then other else t

abbrev pub or_missing : Option Text → Option Text → Option Text
or_missing none other = other
or_missing (some t) other = if is_empty t then other else some t

abbrev pub is_given : Option Text → Bool
is_given none = false
is_given (some t) = not (is_empty t)

-- The email package, which makes the bytes of sender, recipient, subject and body, and Python's
-- print of a float in seconds, or of None.
pub record Composer : Type 0 where
  pub as_bytes : Text → Text → Text → Text → Bytes
  pub show_age : Option ℕ → Text

-- `level.upper()`
abbrev pub upper_level : Level → Text
upper_level fine = codes "OK"
upper_level warn = codes "WARN"
upper_level critical = codes "CRITICAL"

abbrev pub show_bool : Bool → Text
show_bool true = codes "True"
show_bool false = codes "False"

abbrev pub join_lines : List Text → Text
join_lines [] = []
join_lines (t ∷ []) = t
join_lines (t ∷ u ∷ ts) = t ++ (10 ∷ join_lines (u ∷ ts))

unfoldable pub alert_subject : CapacityStatus → Text
alert_subject status =
    codes "[msgate] "
    ++ upper_level status.level
    ++ codes " capacity — queue "
    ++ show_ℕ status.pending

unfoldable pub alert_body : Composer → CapacityStatus → Text
unfolding reason_text
alert_body compose status = join_lines (
    ((codes "Level: " ++ level_text status.level)
      ∷ (codes "Pending: " ++ show_ℕ status.pending)
      ∷ (codes "Oldest age (s): " ++ compose.show_age status.oldest_age_seconds)
      ∷ (codes "Circuit open: " ++ show_bool status.circuit_open)
      ∷ []
      ∷ codes "Reasons:"
      ∷ [])
    ++ map (λ r. codes "- " ++ reason_text r) status.reasons
    ++ ([] ∷ status.hint ∷ []))

abbrev pub was_sent : Sending → Bool
was_sent (sent r) = true
was_sent (failing e) = false

module _ {W : Type 0} (client : EwsClient W) (compose : Composer) where
  -- The request that `send_capacity_alert` makes, where the credentials are there.
  abbrev pub alert_request : EwsConfig → GatewayConfig → CapacityStatus → Text → SendRequest
  alert_request ews cfg status to_email =
      let username = given_or ews.username [] in
      let sender = given_or (or_missing ews.primary_smtp cfg.default_sender) username in
      record {
        auth_username = username;
        password = given_or ews.password [];
        mail_from = sender;
        rcpt_tos = to_email ∷ [];
        mime_bytes =
            compose.as_bytes sender to_email (alert_subject status) (alert_body compose status);
        default_sender = cfg.default_sender;
      }

  unfoldable pub send_capacity_alert : GatewayConfig → CapacityStatus → Text → W → Bool × W
  unfolding resolve_driver alert_subject alert_body
  send_capacity_alert cfg status to_email w =
      let driver = resolve_driver client cfg in
      if not (driver.is_configured cfg) then (false, w) else elim cfg.ews [
        | none ↦ (false, w)
        | some ews ↦
            if not (is_given ews.username) || not (is_given ews.password)
            then (false, w)
            else let (answer, w') = driver.send (alert_request ews cfg status to_email) cfg w in
              (was_sent answer, w')
      ]
