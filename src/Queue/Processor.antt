-- ===== src/Queue/Processor.antt =====
-- src/msgate/queue/processor.py: one attempt to deliver a message, and what becomes of its row.
-- The world `W` is what the driver's calls read and change. The readings of the clock that an
-- attempt makes are a record. An exception of the driver is its text; one that arises before the
-- driver is called leaves the attempt and is the result. `session.commit` does not fail here.
use msgate.Prelude.{
  ℕ, zero, suc, Bool, true, false, not, ◌&&◌, Option, none, some, List, [], ◌∷◌, ◌++◌, Text, codes,
  ltb, if◌then◌else◌,
}
use msgate.Prelude.Base64.{Bytes}
use msgate.Prelude.Ints.{show_ℕ}
use msgate.Prelude.Results.{Exception, Result, ok, raise, ◌>>=◌}
use msgate.Config.{EwsConfig, GatewayConfig}
use msgate.Drivers.{
  SendResult, SendRequest, Sending, sent, failing, EwsClient, label, resolve_driver, MailDriver,
}
use msgate.Events.{EventHub, announce}
use msgate.Queue.Backoff.{is_retriable_error, default_backoff}
use msgate.Queue.Repository.{
  MessageRow, Table, SecretBox, get_message, mark_processing, mark_sent, mark_retry, mark_failed,
  get_password, get_mime_bytes,
}
pub mod Settling
pub mod Attempts

abbrev pub max_attempts : ℕ
max_attempts = 8

pub record Readings : Type 0 where
  pub begun : ℕ
  pub finished : ℕ
  pub stamped : ℕ

-- The test override `send_fn`.
abbrev pub SendFn : Type 0 → Type 0
SendFn W = Option EwsConfig → SendRequest → W → Sending × W

pub record Attempt (W : Type 0) : Type 0 where
  pub result : Result (Option SendResult)
  pub table : Table
  pub world : W
  pub hub : Option EventHub

-- A row object after a commit: its columns are loaded again.
unfoldable pub reload : MessageRow → Table → MessageRow
reload row table = elim (get_message row.id table) [ none ↦ row | some r ↦ r ]

abbrev or_blank : Option Text → Text
or_blank none = []
or_blank (some t) = t

unfoldable pub make_request : SecretBox → GatewayConfig → MessageRow → Result SendRequest
make_request box config row = do
  password ← get_password row box
  mime_bytes ← get_mime_bytes row
  ok (record {
    auth_username = or_blank row.ews_username;
    password = password;
    mail_from = row.sender;
    rcpt_tos = row.recipients;
    mime_bytes = mime_bytes;
    default_sender = config.default_sender;
  })

-- What follows the driver's call: the end of the `try` block and its handler.
unfoldable pub settle :
    {W : Type 0}
    → (ℕ → Bool)
    → MessageRow
    → Readings
    → Sending
    → Table
    → W
    → Option EventHub
    → Attempt W
settle unicode_word row t (sent r) table w hub = record {
  result = ok (some r);
  table = mark_sent row t.finished table;
  world = w;
  hub =
      announce (codes "queue.sent") (codes "Delivered " ++ row.id) ((codes "id", row.id) ∷ [])
        t.stamped hub;
}
settle unicode_word row t (failing err) table w hub =
    let delay = default_backoff row.attempts in
    if is_retriable_error unicode_word err && ltb row.attempts max_attempts
    then record {
      result = ok none;
      table = mark_retry row err delay t.finished t.stamped table;
      world = w;
      hub =
          announce (codes "queue.retry")
            (codes "Retry " ++ (row.id ++ (codes " in " ++ (show_ℕ delay ++ codes "s"))))
            ((codes "id", row.id) ∷ (codes "error", err) ∷ []) t.stamped hub;
    }
    else record {
      result = ok none;
      table = mark_failed row err t.finished table;
      world = w;
      hub =
          announce (codes "queue.failed") (codes "Failed " ++ row.id)
            ((codes "id", row.id) ∷ (codes "error", err) ∷ []) t.stamped hub;
    }

unfoldable pub call_driver :
    {W : Type 0} → EwsClient W → Option (SendFn W) → GatewayConfig → SendRequest → W → Sending × W
call_driver client none config request w = (resolve_driver client config).send request config w
call_driver client (some send_fn) config request w = send_fn config.ews request w

unfoldable pub deliver :
    {W : Type 0}
    → (ℕ → Bool)
    → SecretBox
    → EwsClient W
    → Option (SendFn W)
    → GatewayConfig
    → MessageRow
    → Readings
    → Table
    → W
    → Option EventHub
    → Attempt W
unfolding settle make_request call_driver
deliver unicode_word box client send_fn config row t table w hub =
    elim (make_request box config row) [
      | raise e ↦ record { result = raise e; table = table; world = w; hub = hub }
      | ok request ↦
          let (outcome, w') = call_driver client send_fn config request w in
          settle unicode_word row t outcome table w' hub
    ]

unfoldable pub process_row :
    {W : Type 0}
    → (ℕ → Bool)
    → SecretBox
    → EwsClient W
    → Option (SendFn W)
    → GatewayConfig
    → Bool
    → MessageRow
    → Readings
    → Table
    → W
    → Option EventHub
    → Attempt W
unfolding deliver reload
process_row unicode_word box client send_fn config already_claimed row t table w hub =
    let driver = resolve_driver client config in
    if not (driver.is_configured config)
    then record {
      result = ok none;
      table = mark_failed row (label driver ++ codes " not configured") t.finished table;
      world = w;
      hub = hub;
    }
    else if already_claimed
    then deliver unicode_word box client send_fn config row t table w hub
    else let table' = mark_processing row t.begun table in
      deliver unicode_word box client send_fn config (reload row table') t table' w hub
