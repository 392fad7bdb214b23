-- ===== src/Scenarios/Exchanging.antt =====
-- A send that fails once with a TLS error, and a message of several parts.
use msgate.Prelude.{
  ℕ, suc, ◌≤◌, ◌≡◌, ◌==◌, refl, true, false, none, some, [], ◌∷◌, Text, codes, if◌then◌else◌,
}
use msgate.Drivers.{SendResult, SendRequest, ews_send}
use msgate.Tls.Cache.{get_cached, cache_key, absent}
use msgate.Tls.Profiles.{modern_tls, ladder_for_mode}
use msgate.Prelude.Ints.{show_ℕ}
use msgate.Ews.Mailbox.{resolve_primary_smtp}
use msgate.Tls.Negotiate.{
  endpoint_from_url, probe_profile, is_tls_failure, invalidate_ews_tls, TlsLibrary, connected,
  NegotiatedTls,
}
use msgate.Ews.Compose.{
  MimePart, MimeMessage, EmailLibrary, html, read_body, is_body_part, build_ews_message,
}
use msgate.Ews.Compose.Parts.{read_body-chosen}
use msgate.Ews.Client.{
  ◌>>=◌, Answer, gives, fails, AccountKey, ClientLibrary, ClientState, ews_client, renew, cache_get,
}
use msgate.Ews.Client.Accounts.{renew_fresh}
use msgate.Ews.Client.Sends.{Counts, ews_send_bounds}
use msgate.Scenarios.Samples.{config, endpoint, receipt}

pub record Wire : Type 0 where
  pub connections : ℕ
  pub submissions : ℕ

abbrev part : Text → Text → MimePart
part type text = record {
  content_type = type;
  filename = none;
  disposition = none;
  payload = some text;
  charset = none;
}

abbrev mail : MimeMessage
mail = record {
  subject = some (codes "hello");
  from_header = none;
  is_multipart = true;
  whole = record (part (codes "multipart/mixed") []) { payload = none };
  walk =
      record (part (codes "multipart/mixed") []) { payload = none }
      ∷ part (codes "text/plain") (codes "hi")
      ∷ part (codes "text/html") (codes "<p>hi")
      ∷ [];
}

abbrev email : EmailLibrary
email = record {
  message_from_bytes = λ bytes. mail;
  parseaddr = λ t. t;
  decode = λ bytes charset. bytes;
}

read_body-chosen_example : read_body email mail ≡ html (codes "<p>hi")
unfolding is_body_part
read_body-chosen_example = read_body-chosen email mail refl

abbrev wire : TlsLibrary Wire
wire = record {
  urlparse = λ t. record {
    scheme = codes "https";
    hostname = some (codes "mail.example.com");
    port = none;
  };
  connect = λ host port p ca insecure w.
      (connected (codes "TLSv1.2"), record w { connections = suc w.connections });
  install = λ p ca insecure w. (none, w);
}

-- The first submission fails.
abbrev submission : Wire → Answer SendResult
submission w =
    if w.submissions == 0
    then fails (record { is_ssl_error = true; text = codes "EOF" })
    else gives receipt

abbrev library : ClientLibrary Wire AccountKey
library = record {
  tls = wire;
  email = email;
  new_account = λ key w. (gives key, w);
  send_and_save = λ a m w. (submission w, record w { submissions = suc w.submissions });
  inbox_count = λ a w. (gives 3, w);
  clock = λ w. 0;
  exception_text = λ e. codes "error";
}

library-Counts : Counts library (λ w. w.submissions)
library-Counts = record {
  connect_quiet = λ host port p ca insecure w. refl;
  install_quiet = λ p ca insecure w. refl;
  account_quiet = λ key w. refl;
  send_counted = λ a m w. refl;
}

abbrev request : SendRequest
request = record {
  auth_username = codes "svc";
  password = codes "pw";
  mail_from = codes "a@example.com";
  rcpt_tos = codes "b@example.com" ∷ [];
  mime_bytes = codes "hi";
  default_sender = none;
}

abbrev fresh : ClientState Wire AccountKey
fresh = record {
  tls_cache = record { memory = []; file = absent };
  accounts = [];
  world = record { connections = 0; submissions = 0 };
}

ews_send_bounds_example :
    (ews_send (ews_client library) request config fresh).1.world.submissions ≤ 4
ews_send_bounds_example =
    ews_send_bounds library (λ w. w.submissions) library-Counts request config fresh

second_try : (ews_send (ews_client library) request config fresh).1.world.submissions ≡ 2
unfolding ews_send ews_client ◌>>=◌ endpoint_from_url get_cached ladder_for_mode probe_profile
    resolve_primary_smtp build_ews_message is_tls_failure invalidate_ews_tls cache_key show_ℕ
second_try = refl

abbrev key : AccountKey
key = record {
  server_url = endpoint.server_url;
  username = codes "svc";
  password = codes "old";
  primary = codes "a@example.com";
  with_basic = true;
}

abbrev stale : ClientState Wire AccountKey
stale = record fresh { accounts = (key, key) ∷ [] }

abbrev agreed : NegotiatedTls
agreed = record {
  host = codes "mail.example.com";
  port = 443;
  profile_id = modern_tls;
  from_cache = false;
  probe = some (record {
    profile_id = modern_tls;
    succeeded = true;
    error_text = none;
    negotiated = some (codes "TLSv1.2");
  });
}

renewed :
    renew library (codes "svc") endpoint stale
    ≡ (gives agreed, (renew library (codes "svc") endpoint stale).1)
unfolding renew invalidate_ews_tls endpoint_from_url ladder_for_mode probe_profile
renewed = refl

renewed_run : cache_get key (renew library (codes "svc") endpoint stale).1.accounts ≡ none
renewed_run =
    (renew_fresh library endpoint (codes "svc") stale (renew library (codes "svc") endpoint stale).1
        agreed renewed).1
      key
