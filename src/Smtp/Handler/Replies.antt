-- ===== src/Smtp/Handler/Replies.antt =====
-- What each reply of the DATA command (src/msgate/smtp/handler.py) says of the queue.
use msgate.Prelude.{
  ℕ, ◌≤◌, ◌<◌, ◌≡◌, ◌≢◌, refl, ap, ◌∙◌, ◌⊎◌, inl, inr, false, Option, none, some, Text, Bool-cases,
  Option-cases, arith,
}
use msgate.Prelude.Base64.{Bytes, IsBytes}
use msgate.Prelude.Texts.{is_empty}
use msgate.Drivers.{text_or}
use msgate.Queue.Processor.{make_request}
use msgate.Prelude.Results.{ok}
use msgate.Config.{EwsConfig, GatewayConfig}
use msgate.Queue.Repository.{SecretBox, NewMessage, Draw, MessageRow, new_row, count_pending}
use msgate.Queue.Repository.Lookup.{DistinctIds}
use msgate.Queue.Service.{ServiceState, check_backpressure, AcceptResult}
use msgate.Queue.Service.Acceptance.{
  Accepts, accept_smtp_cases, make_request-new_row, backpressure_cases,
}
use msgate.Smtp.Access.{ip_allowed}
use msgate.Smtp.Authenticator.{SessionAuth, get}
use msgate.Smtp.Handler.{
  Envelope, Reply, not_configured, accepted, bytes_or, Credentials, credentials, is_known,
  new_message, accept, HandlerContext, enqueue, handle_data,
}

-- The user name and the password that a message is sent with: those remembered for the peer, and
-- where none are, those of the gateway.
abbrev pub Lends : Option SessionAuth → EwsConfig → Text → Text → Type 0
Lends (some auth) ews username password =
    (username ≡ auth.sanitized.ews_username) × (password ≡ auth.password)
Lends none ews username password =
    (ews.username ≡ some username)
    × (ews.password ≡ some password)
    × (is_empty username ≡ false)
    × (is_empty password ≡ false)

-- What a message costs the queue: one row more where there was room. The row holds the envelope of
-- the peer: it is what the worker later makes its request of, whatever the configuration is then.
pub record Queued (h : HandlerContext) (config : GatewayConfig) (peer_ip : Text) (e : Envelope)
    (d : Draw) (s s' : ServiceState) : Type 0 where
  pub message : NewMessage
  pub result : AcceptResult
  pub before : ServiceState
  pub same_rows : before.table ≡ s.table
  pub added : Accepts h.box message d before s' result
  pub from_peer : added.row.client_ip ≡ peer_ip
  pub subject_read : added.row.subject ≡ h.subject_of (bytes_or e.content)
  pub username : Text
  pub password : Text
  pub configured :
      (ews : EwsConfig) × (config.ews ≡ some ews)
      × Lends (get peer_ip h.authenticator) ews username password
  pub handed_on :
      (later : GatewayConfig)
      → make_request h.box later added.row
        ≡ ok (record {
          auth_username = username;
          password = password;
          mail_from = text_or e.mail_from;
          rcpt_tos = e.rcpt_tos;
          mime_bytes = bytes_or e.content;
          default_sender = later.default_sender;
        })
  pub had_room : count_pending s.table < h.max_pending
  pub bounded : count_pending s'.table ≤ h.max_pending

abbrev pub Outcome :
    HandlerContext
    → GatewayConfig
    → Text
    → Envelope
    → Draw
    → ServiceState
    → Reply × ServiceState
    → Type 0
Outcome h config peer_ip e d s (reply, s') =
    ((reply ≢ accepted) × (s'.table ≡ s.table))
    ⊎ ((reply ≡ accepted) × Queued h config peer_ip e d s s')

credentials-Lends :
    (auth : Option SessionAuth) (ews : EwsConfig) (c : Credentials)
    → credentials auth ews ≡ some c
    → Lends auth ews c.ews_user c.password
unfolding credentials
credentials-Lends (some auth) ews c h = ground arith
credentials-Lends none ews c h = elim (Option-cases ews.username) [
  | inl e ↦ absurd (ground (arith, e, h))
  | inr (username, e) ↦ elim (Option-cases ews.password) [
    | inl f ↦ absurd (ground (arith, e, f, h))
    | inr (password, f) ↦ ground (arith, e, f, h)
  ]
]

row_holds :
    (box : SecretBox) (subject_of : Bytes → Text) (peer_ip : Text) (c : Credentials) (e : Envelope)
    (d : Draw) (row : MessageRow)
    → IsBytes (bytes_or e.content)
    → row ≡ new_row box (new_message subject_of peer_ip c e) d
    → (row.client_ip ≡ peer_ip)
      × (row.subject ≡ subject_of (bytes_or e.content))
      × ((later : GatewayConfig)
          → make_request box later row
            ≡ ok (record {
              auth_username = c.ews_user;
              password = c.password;
              mail_from = text_or e.mail_from;
              rcpt_tos = e.rcpt_tos;
              mime_bytes = bytes_or e.content;
              default_sender = later.default_sender;
            }))
unfolding new_message new_row
row_holds box subject_of peer_ip c e d row bytes same = (
  ap (λ r. r.client_ip) same,
  ap (λ r. r.subject) same,
  λ later.
      ap (make_request box later) same
      ∙ make_request-new_row box (new_message subject_of peer_ip c e) d later bytes,
)

module _ (h : HandlerContext) (config : GatewayConfig) (peer_ip : Text) (e : Envelope) (d : Draw)
    (s : ServiceState) (bytes : IsBytes (bytes_or e.content)) where
  accept-Outcome :
      (ews : EwsConfig) (c : Credentials) (before : ServiceState)
      → config.ews ≡ some ews
      → Lends (get peer_ip h.authenticator) ews c.ews_user c.password
      → DistinctIds before.table
      → before.table ≡ s.table
      → count_pending s.table < h.max_pending
      → Outcome h config peer_ip e d s
          (accept h.box (new_message h.subject_of peer_ip c e) d before)
  unfolding accept
  accept-Outcome ews c before set lent k same room =
      let m = new_message h.subject_of peer_ip c e in
      elim (accept_smtp_cases h.box m d before k) [
        | inl (r, s', f, new, a) ↦
            let (ip, subject, request) =
              row_holds h.box h.subject_of peer_ip c e d a.row bytes a.holds_message in
            rw (f, accept)
              (inr (
                refl,
                record {
                  message = m;
                  result = r;
                  before = before;
                  same_rows = same;
                  added = a;
                  from_peer = ip;
                  subject_read = subject;
                  username = c.ews_user;
                  password = c.password;
                  configured = (ews, set, lent);
                  handed_on = request;
                  had_room = room;
                  bounded = omega (arith, a.one_more, ap count_pending same);
                },
              ))
        | inr (old, taken, f) ↦ rw (f, accept) (inl ((λ x. cc), same))
      ]

  enqueue-Outcome :
      (ews : EwsConfig) (now : ℕ)
      → config.ews ≡ some ews
      → DistinctIds s.table
      → Outcome h config peer_ip e d s
          (enqueue h ews (get peer_ip h.authenticator) peer_ip e now d s)
  unfolding enqueue
  enqueue-Outcome ews now set k =
      let auth = get peer_ip h.authenticator in
      let checked = check_backpressure h.reject_on_circuit now h.max_pending s in
      let b = backpressure_cases h.reject_on_circuit now h.max_pending s in
      elim (Option-cases checked.0) [
        | inr (reason, f) ↦ rw (f, enqueue) (inl ((λ x. cc), b.0))
        | inl f ↦ elim (Option-cases (credentials auth ews)) [
          | inl g ↦ rw (f, enqueue) (rw (g, enqueue) (inl ((λ x. cc), b.0)))
          | inr (c, g) ↦
              rw (f, enqueue)
                (rw (g, enqueue)
                  (accept-Outcome ews c checked.1 set (credentials-Lends auth ews c g) (rw b.0 k)
                    b.0 (b.1 f).0))
        ]
      ]

module _ (h : HandlerContext) (config : GatewayConfig) (peer_ip : Text) (e : Envelope) (now : ℕ)
    (d : Draw) (s : ServiceState) where
  -- With distinct keys, whatever DATA replies: either it does not accept the message and the table is
  -- as it was, or it accepts it, there was room under the limit, which still holds, and the table holds
  -- one row more, queued and due. Of this row the worker makes a request with the sender, the
  -- recipients and the content of the envelope, and with the credentials remembered for the peer or
  -- else those of the gateway. The content is of bytes.
  pub handle_data-Outcome :
      DistinctIds s.table
      → IsBytes (bytes_or e.content)
      → Outcome h config peer_ip e d s (handle_data h config peer_ip e now d s)
  unfolding handle_data
  handle_data-Outcome k bytes = elim (Bool-cases (is_known (get peer_ip h.authenticator))) [
    | inl known ↦ rw (known, handle_data) (past config.ews refl)
    | inr unknown ↦ elim (Bool-cases (ip_allowed h.ip peer_ip config.smtp.allowed_ips)) [
      | inl allowed ↦ rw (unknown, allowed) (past config.ews refl)
      | inr denied ↦ rw (unknown, denied) (inl ((λ x. cc), refl))
    ]
  ]
    where
      past :
          (o : Option EwsConfig)
          → config.ews ≡ o
          → Outcome h config peer_ip e d s (elim o as (λ _. Reply × ServiceState) [
            | none ↦ (not_configured, s)
            | some ews ↦ enqueue h ews (get peer_ip h.authenticator) peer_ip e now d s
          ])
      past none set = inl ((λ x. cc), refl)
      past (some ews) set = enqueue-Outcome h config peer_ip e d s bytes ews now set k
