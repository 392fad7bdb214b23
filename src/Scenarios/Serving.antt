-- ===== src/Scenarios/Serving.antt =====
-- What the routes of the API answer to an administrator.
use msgate.Prelude.{
  ◌*◌, ◌≡◌, ◌≤◌, refl, true, false, none, some, [], ◌∷◌, ◌++◌, Text, codes, text_eq, arith, min,
}
use msgate.Prelude.Base64.{IsBytes}
use msgate.Prelude.Ints.{pos, negsuc}
use msgate.Prelude.Results.{ok}
use msgate.Api.Account.{DigestsForm, ui_account_digests, daily_due-ui_account_digests}
use msgate.Api.Dashboard.{StatsInput, compute_stats, compute_stats-build}
use msgate.Api.Sending.{answer, EmailMessageRequest, MimeBuilder, Sender, send_test_email}
use msgate.Api.Sending.Delivery.{GivenCredentials, send_test_email-make_request, value_or}
use msgate.Api.Traffic.{traffic_ws, admitted, ws_session, traffic_ws-SignedCookie}
use msgate.Auth.Gate.{logged_in, must_change}
use msgate.Auth.Gate.Entry.{SignedCookie}
use msgate.Auth.Session.{SessionData}
use msgate.Drivers.{resolve_driver}
use msgate.Ops.Digest.{day_length, day_of, hour_of}
use msgate.Ops.Digest.Report.{collect_digest}
use msgate.Ops.Digest.Schedule.{new_state, daily, build, daily_due, due_hour, due_weekday}
use msgate.Queue.Processor.{make_request}
use msgate.Queue.Repository.{queued, MessageRow, insert_message, get_message}
use msgate.Queue.Service.{ServiceState, AcceptResult}
use msgate.Scenarios.Alerting.{settings}
use msgate.Scenarios.Browsing.{token, secret, decoded, read_name, read_flag, nonblank_token}
use msgate.Scenarios.Digesting.{calendar}
use msgate.Scenarios.Json.{json}
use msgate.Scenarios.Samples.{config, box, sending, service, draw, table}

streams : traffic_ws json secret (some token) 2000 ≡ ok admitted
unfolding traffic_ws ws_session logged_in must_change
streams = rw (nonblank_token, decoded, traffic_ws) (rw read_name (rw read_flag refl))

traffic_ws-SignedCookie_example :
    (session : SessionData) × (logged_in session ≡ true)
    × (must_change session ≡ false)
    × SignedCookie json secret (some token) 2000 session
traffic_ws-SignedCookie_example = traffic_ws-SignedCookie json secret (some token) 2000 streams

abbrev late_form : DigestsForm
late_form = record {
  digest_daily_enabled = some (codes "on");
  digest_weekly_enabled = none;
  digest_include_body = none;
  digest_subject = [];
  digest_hour_utc = pos 99;
  digest_weekday = negsuc 3;
}

late_hour :
    let ops = ui_account_digests late_form settings in
    (ops.digest_hour_utc ≡ pos (due_hour ops))
    × (ops.digest_weekday ≡ pos (due_weekday ops))
    × (due_hour ops ≤ 23)
    × (due_weekday ops ≤ 6)
    × (hour_of (23 * 3600000000) ≡ 23
        → text_eq [] (calendar.date_text (day_of (23 * 3600000000))) ≡ false
        → daily_due calendar ops new_state (23 * 3600000000) ≡ true)
late_hour = daily_due-ui_account_digests calendar late_form settings new_state (23 * 3600000000)

abbrev figures : StatsInput
figures = record {
  pending = 2;
  auth_errors = 0;
  backend_latency_ms = 3;
  smtp_port = 1025;
  backend_name = codes "EWS";
  backend_connected = true;
}

compute_stats-build_example :
    ((compute_stats 1000 1000 figures table).failed_24h ≡ (build daily 1000 table).failed_count)
    × ((compute_stats 1000 1000 figures table).sent_today
        ≡ (collect_digest (codes "manual") (day_of 1000 * day_length) 1000 table).sent_count)
compute_stats-build_example =
    compute_stats-build 1000 figures table (codes "manual")
      (omega arith, (omega arith, (omega arith, tt)))

abbrev sample_form : EmailMessageRequest
sample_form = record {
  sender = codes "a@example.com";
  recipients = codes "b@example.com" ∷ [];
  subject = codes "test";
  body = codes "hello";
  is_html = false;
}

-- The body stands for the message, its characters reduced to bytes.
abbrev to_bytes : Text → Text
to_bytes [] = []
to_bytes (c ∷ s) = min c 255 ∷ to_bytes s

to_bytes-IsBytes : (t : Text) → IsBytes (to_bytes t)
to_bytes-IsBytes [] = tt
to_bytes-IsBytes (c ∷ s) = (omega arith, to_bytes-IsBytes s)

abbrev builder : MimeBuilder
builder = record { mime_of = λ m. to_bytes m.body; mime_of-IsBytes = λ m. to_bytes-IsBytes m.body }

abbrev sender : Sender
sender = record { runtime = config; service = service }

abbrev nothing : AcceptResult × ServiceState
nothing = (record { message_id = []; status = queued; delivered = false }, service)

abbrev tested : AcceptResult × ServiceState
tested = value_or nothing (send_test_email sending builder box sample_form draw sender)

test_accepted : send_test_email sending builder box sample_form draw sender ≡ answer tested
unfolding send_test_email insert_message get_message
test_accepted = refl

send_test_email-make_request_example :
    (username : Text) × (password : Text) × (row : MessageRow) × ((resolve_driver sending
          config).is_configured
        config
      ≡ true)
    × GivenCredentials config username password
    × (tested.1.table ≡ table ++ (row ∷ []))
    × (make_request box config row
        ≡ ok (record {
          auth_username = username;
          password = password;
          mail_from = codes "a@example.com";
          rcpt_tos = codes "b@example.com" ∷ [];
          mime_bytes = builder.mime_of sample_form;
          default_sender = none;
        }))
send_test_email-make_request_example =
    send_test_email-make_request sending builder box sample_form draw sender tested.0 tested.1
      test_accepted
