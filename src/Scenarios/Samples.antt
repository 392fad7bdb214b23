-- ===== src/Scenarios/Samples.antt =====
-- A secret box, a driver and a table with three messages, for the runs of the other scenarios.
use msgate.Prelude.{ℕ, ◌+◌, refl, Bool, true, false, Option, none, some, [], ◌∷◌, Text, codes}
use msgate.Config.{ews, basic, EwsConfig, SmtpConfig, GatewayConfig}
use msgate.Drivers.{SendResult, SendRequest, Sending, failing, EwsClient, HealthResult}
use msgate.Drivers
use msgate.Queue.Processor.{Readings, SendFn}
use msgate.Queue.Repository.{
  MessageStatus, queued, sent, retrying, MessageRow, Table, SecretBox, NewMessage, Draw,
}
use msgate.Queue.Service.{ServiceState}

abbrev pub unicode_word : ℕ → Bool
unicode_word c = false

-- Stands in for the cipher: the text itself.
abbrev pub box : SecretBox
box = record {
  encrypt = λ nonce plain. plain;
  decrypt = λ token. some token;
  decrypt-encrypt = λ nonce plain. refl;
  decrypt_blank = refl;
}

abbrev pub endpoint : EwsConfig
endpoint = record {
  server_url = codes "https://mail.example.com/EWS/Exchange.asmx";
  auth_type = basic;
  domain = none;
  username = some (codes "svc");
  password = some (codes "pw");
  trust_self_signed = false;
  ca_file = none;
  tls_mode = codes "auto";
  primary_smtp = none;
}

abbrev pub smtp_config : SmtpConfig
smtp_config = record {
  bind_address = codes "127.0.0.1";
  port = 1025;
  max_message_size_mb = 25;
  allowed_ips = codes "10" ∷ [];
}

abbrev pub config : GatewayConfig
config = record {
  backend = ews;
  smtp = smtp_config;
  ews = some endpoint;
  ews_failover = none;
  graph = none;
  default_sender = none;
}

-- The world counts the calls; each call answers the same.
abbrev pub answering : Sending → EwsClient ℕ
answering answer = record {
  send_mime = λ cfg request default_sender n. (answer, n + 1);
  check = λ cfg user password n. (
    record {
      healthy = true;
      latency_ms = 3;
      detail = codes "Inbox accessible";
      error = none;
      driver = codes "ews";
      extra = [];
    },
    n + 1,
  );
}

abbrev pub receipt : SendResult
receipt = record { message_id = some (codes "AAMk"); changekey = none; driver = none }

abbrev pub sending : EwsClient ℕ
sending = answering (Drivers.sent receipt)

abbrev pub timing_out : EwsClient ℕ
timing_out = answering (failing (codes "Read timeout"))

abbrev pub no_override : Option (SendFn ℕ)
no_override = none

abbrev pub row_of : Text → MessageStatus → ℕ → ℕ → MessageRow
row_of id status attempts created = record {
  id = id;
  client_ip = codes "10";
  raw_auth_user = [];
  sanitized_user = codes "svc";
  sender = codes "a@example.com";
  recipients = codes "b@example.com" ∷ [];
  subject = codes "hello";
  body = [];
  status = status;
  attempts = attempts;
  last_error = none;
  mime_payload = some (codes "aGk=");
  ews_username = some (codes "svc");
  ews_password_enc = some (codes "pw");
  next_retry_at = some created;
  created_at = created;
  updated_at = created;
}

abbrev pub delivered : MessageRow
delivered = row_of (codes "msg_a") sent 1 5

abbrev pub waiting : MessageRow
waiting = row_of (codes "msg_b") queued 0 20

abbrev pub again : MessageRow
again = row_of (codes "msg_c") retrying 2 10

abbrev pub table : Table
table = delivered ∷ waiting ∷ again ∷ []

abbrev pub readings : Readings
readings = record { begun = 30; finished = 40; stamped = 41 }

abbrev pub message : NewMessage
message = record {
  client_ip = codes "10";
  raw_auth_user = [];
  sanitized_user = codes "svc";
  sender = codes "a@example.com";
  recipients = codes "b@example.com" ∷ [];
  subject = codes "hello";
  mime_bytes = codes "hi";
  ews_username = codes "svc";
  password = codes "pw";
}

abbrev pub draw : Draw
draw = record { uuid_hex = codes "d0d0d0d0d0d0d0"; nonce = codes "n"; now = 50 }

abbrev pub service : ServiceState
service = record { table = table; hub = none; metrics = none; circuit = none; woken = false }
