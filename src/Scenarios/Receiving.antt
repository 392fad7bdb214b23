-- ===== src/Scenarios/Receiving.antt =====
-- Runs of the SMTP side.
use msgate.Prelude.{
  ◌≡◌, ◌⊎◌, inl, inr, refl, true, none, some, List, [], ◌∷◌, Text, codes, arith, here,
}
use msgate.Prelude.Results.{integrity_error, ok, raise}
use msgate.Queue.Processor.{make_request}
use msgate.Queue.Repository.{MessageRow, get_message, new_message_id, new_row}
use msgate.Queue.Repository.Lookup.{DistinctIds}
use msgate.Queue.Service.{ServiceState, AcceptResult, check_backpressure, accept_smtp}
use msgate.Queue.Service.Acceptance.{
  Accepts, accept_smtp_cases, make_request-new_row, backpressure_cases,
}
use msgate.Smtp.Access.{IpLibrary, ip_allowed}
use msgate.Smtp.Access.Allowed.{ip_allowed_iff}
use msgate.Smtp.Authenticator.{SmtpAuthenticator, plain, other, authenticate}
use msgate.Smtp.Authenticator.Peers.{Succeeds, Fails, authenticate_cases}
use msgate.Smtp.Handler.{Envelope, HandlerContext, handle_data, relay_denied}
use msgate.Smtp.Handler.Replies.{Outcome, handle_data-Outcome}
use msgate.Smtp.Handler.Relaying.{new_authenticator, ip_refused_iff, relay_denied_iff}
use msgate.Smtp.Authenticator.Histories.{AuthCall, after_auths}
use msgate.Prelude.Texts.{strip}
use msgate.Smtp.Sanitize.{
  split_domain, SanitizedAuth, accepted, sanitize_username, slash, down_level,
}
use msgate.Smtp.Sanitize.Forms.{sanitize_down_level, sanitize_again}
use msgate.Scenarios.Samples.{box, config, table, message, draw, service}

table-DistinctIds : DistinctIds table
unfolding get_message
table-DistinctIds = (refl, (refl, (refl, tt)))

accepted_run :
    ((r : AcceptResult) × (s' : ServiceState) × (accept_smtp box message draw service ≡ ok (r, s'))
      × (get_message (new_message_id draw.uuid_hex) table ≡ none)
      × Accepts box message draw service s' r)
    ⊎ ((old : MessageRow) × (get_message (new_message_id draw.uuid_hex) table ≡ some old)
        × (accept_smtp box message draw service ≡ raise integrity_error))
accepted_run = accept_smtp_cases box message draw service table-DistinctIds

make_request-new_row_example :
    make_request box config (new_row box message draw)
    ≡ ok (record {
      auth_username = codes "svc";
      password = codes "pw";
      mail_from = codes "a@example.com";
      rcpt_tos = codes "b@example.com" ∷ [];
      mime_bytes = codes "hi";
      default_sender = none;
    })
make_request-new_row_example = make_request-new_row box message draw config (omega arith)

pressed_run : (check_backpressure true 50 2 service).1.table ≡ table
pressed_run = (backpressure_cases true 50 2 service).0

-- An address is a text of one character here, and a network, written with a slash, holds all of them.
abbrev addresses : IpLibrary
addresses = record {
  ip_address = λ text. elim text [ [] ↦ none | c ∷ rest ↦ some c ];
  ip_network = λ text. some (λ a. true);
}

abbrev nobody : SmtpAuthenticator
nobody = record { default_domain = none; hub = none; by_peer = [] }

abbrev handler : HandlerContext
handler = record {
  ip = addresses;
  subject_of = λ content. codes "hello";
  box = box;
  reject_on_circuit = true;
  max_pending = 3;
  authenticator = nobody;
}

abbrev envelope : Envelope
envelope = record {
  mail_from = some (codes "a@example.com");
  rcpt_tos = codes "b@example.com" ∷ [];
  content = some (codes "hi");
}

handle_data-Outcome_example :
    Outcome handler config
      (codes "1")
      envelope
      draw
      service
      (handle_data handler config (codes "1") envelope 50 draw service)
handle_data-Outcome_example =
    handle_data-Outcome handler config (codes "1") envelope 50 draw service table-DistinctIds
      (omega arith)

-- Another client has authenticated, and the peer has tried a mechanism that there is not.
abbrev auth_history : List AuthCall
auth_history =
    (record {
      ip = codes "1";
      mechanism = plain;
      auth_data = some (record { login = codes "D/u"; password = codes "p" });
      now = 40;
    })
    ∷ (record { ip = codes "9"; mechanism = other (codes "CRAM-MD5"); auth_data = none; now = 41 })
    ∷ []

abbrev seen : SmtpAuthenticator
seen = after_auths (λ t. t) auth_history (new_authenticator none none)

relay_denied_iff_example :
    (handle_data
      (record handler { authenticator = seen })
      config
      (codes "9")
      envelope
      50
      draw
      service).0
    ≡ relay_denied
unfolding ip_allowed strip
relay_denied_iff_example =
    (relay_denied_iff (λ t. t) none none auth_history handler config (codes "9") envelope 50 draw
        service).1
      (
        ((λ same. absurd (ground arith)), ((λ same admits. ground (arith, admits.0)), tt)),
        (ip_refused_iff addresses (codes "9") config.smtp.allowed_ips).0 refl,
      )

authenticated_run :
    Succeeds
      (codes "1")
      plain
      (some (record { login = codes "D/u"; password = codes "p" }))
      nobody
      (authenticate
        (λ t. t)
        (codes "1")
        plain
        (some (record { login = codes "D/u"; password = codes "p" }))
        60
        nobody)
    ⊎ Fails plain (some (record { login = codes "D/u"; password = codes "p" })) nobody (
        authenticate
          (λ t. t)
          (codes "1")
          plain
          (some (record { login = codes "D/u"; password = codes "p" }))
          60
          nobody)
authenticated_run =
    authenticate_cases (λ t. t) (codes "1") plain
      (some (record { login = codes "D/u"; password = codes "p" })) 60 nobody

allowed_run : ip_allowed addresses (codes "9") (codes " 0/8 " ∷ []) ≡ true
unfolding strip
allowed_run =
    (ip_allowed_iff addresses (codes "9") (codes " 0/8 " ∷ [])).1
      (b'9', codes " 0/8 ", refl, here, (refl, inl (refl, ((λ a. true), refl, refl))))

down_level_ann :
    sanitize_username (codes "CORP/ann") none
    ≡ accepted (record {
      raw = codes "CORP/ann";
      username = codes "ann";
      domain = some (codes "CORP");
      ews_username = down_level (codes "CORP") (codes "ann");
    })
down_level_ann =
    sanitize_down_level (codes "CORP") (codes "ann") (ground arith) (ground arith) slash none
      (inr refl) refl refl

abbrev ann : Text → SanitizedAuth
ann raw = record {
  raw = raw;
  username = codes "ann";
  domain = some (codes "CORP");
  ews_username = down_level (codes "CORP") (codes "ann");
}

sanitized_twice : (ann (codes "CORP\\ann")).domain ≡ (ann (codes "CORP/ann")).domain
unfolding sanitize_username split_domain strip
sanitized_twice =
    (sanitize_again (codes "CORP") (codes "ann") (ground arith) (ground arith) slash none
      (some (codes "OTHER")) (inr refl) refl refl (ann (codes "CORP/ann"))
      (ann (down_level (codes "CORP") (codes "ann"))) refl refl).2
