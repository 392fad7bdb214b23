-- ===== src/Smtp/Handler/Relaying.antt =====
-- Who may relay: the commands AUTH of src/msgate/smtp/authenticator.py, the allowlist of
-- src/msgate/smtp/access.py and the check of src/msgate/smtp/handler.py together.
use msgate.Prelude.{
  ℕ, ◌≡◌, ◌≢◌, ◌↔◌, refl, inl, inr, false, Option, none, some, List, [], Text, Bool-cases,
  Option-cases, arith, All, Has,
}
use msgate.Prelude.Results.{Result-cases}
use msgate.Config.{EwsConfig, GatewayConfig}
use msgate.Events.{EventHub}
use msgate.Queue.Repository.{SecretBox, NewMessage, Draw}
use msgate.Queue.Service.{ServiceState, check_backpressure, accept_smtp}
use msgate.Smtp.Access.{IpLibrary, ip_allowed}
use msgate.Smtp.Access.Allowed.{Names, ip_allowed_iff}
use msgate.Smtp.Authenticator.{SessionAuth, SmtpAuthenticator, get}
use msgate.Smtp.Authenticator.Histories.{AuthCall, after_auths, NotFrom, get-after_auths}
use msgate.Smtp.Handler.{
  Envelope, HandlerContext, Reply, relay_denied, not_configured, is_known, credentials, new_message,
  accept, enqueue, handle_data,
}

accept_not_denied :
    (box : SecretBox) (m : NewMessage) (d : Draw) (s : ServiceState)
    → (accept box m d s).0 ≢ relay_denied
unfolding accept
accept_not_denied box m d s x = elim (Result-cases (accept_smtp box m d s)) [
  | inl (r, f) ↦ cc (f, x)
  | inr (r, f) ↦ cc (f, x)
]

enqueue_not_denied :
    (h : HandlerContext) (ews : EwsConfig) (auth : Option SessionAuth) (peer_ip : Text)
    (e : Envelope) (now : ℕ) (d : Draw) (s : ServiceState)
    → (enqueue h ews auth peer_ip e now d s).0 ≢ relay_denied
unfolding enqueue
enqueue_not_denied h ews auth peer_ip e now d s =
    elim (Option-cases (check_backpressure h.reject_on_circuit now h.max_pending s).0) [
      | inr (reason, f) ↦ rw (f, enqueue) (λ x. cc)
      | inl f ↦ elim (Option-cases (credentials auth ews)) [
        | inl g ↦ rw (f, enqueue) (rw (g, enqueue) (λ x. cc))
        | inr (c, g) ↦
            rw (f, enqueue)
              (rw (g, enqueue)
                (accept_not_denied h.box (new_message h.subject_of peer_ip c e) d
                  (check_backpressure h.reject_on_circuit now h.max_pending s).1))
      ]
    ]

module _ (h : HandlerContext) (config : GatewayConfig) (peer_ip : Text) (e : Envelope) (now : ℕ)
    (d : Draw) (s : ServiceState) where
  -- DATA refuses the relay exactly if the peer has no remembered credentials and its address is not on
  -- the allowlist.
  relay_denied_unless : ((handle_data h config peer_ip e now d s).0 ≡ relay_denied) ↔ (
      (get peer_ip h.authenticator ≡ none)
      × (ip_allowed h.ip peer_ip config.smtp.allowed_ips ≡ false))
  unfolding handle_data
  relay_denied_unless = elim (Bool-cases (is_known (get peer_ip h.authenticator))) [
    | inl known ↦
        rw (known, handle_data) ((λ x. absurd (passed config.ews x)), λ x. absurd (ground arith))
    | inr unknown ↦ elim (Bool-cases (ip_allowed h.ip peer_ip config.smtp.allowed_ips)) [
      | inl allowed ↦ rw (unknown, allowed) ((λ x. absurd (passed config.ews x)), λ x. absurd (cc))
      | inr denied ↦ rw (unknown, denied) ((λ x. (ground arith, refl)), λ x. refl)
    ]
  ]
    where
      passed :
          (o : Option EwsConfig)
          → (elim o as (λ _. Reply × ServiceState) [
            | none ↦ (not_configured, s)
            | some ews ↦ enqueue h ews (get peer_ip h.authenticator) peer_ip e now d s
          ]).0
            ≢ relay_denied
      passed none x = cc
      passed (some ews) x =
          enqueue_not_denied h ews (get peer_ip h.authenticator) peer_ip e now d s x

-- Some entry of the list is the address, or a network that holds it.
abbrev pub IsListed : IpLibrary → Text → List Text → Type 0
IsListed ip peer_ip entries =
    (addr : ℕ) × (entry : Text) × (ip.ip_address peer_ip ≡ some addr)
    × Has entry entries
    × Names ip addr entry

abbrev pub new_authenticator : Option Text → Option EventHub → SmtpAuthenticator
new_authenticator domain hub = record { default_domain = domain; hub = hub; by_peer = [] }

pub ip_refused_iff :
    (ip : IpLibrary) (peer_ip : Text) (entries : List Text)
    → (ip_allowed ip peer_ip entries ≡ false) ↔ (¬ IsListed ip peer_ip entries)
ip_refused_iff ip peer_ip entries = elim (Bool-cases (ip_allowed ip peer_ip entries)) [
  | inl e ↦ ((λ h. absurd (cc (e, h))), λ h. absurd (h ((ip_allowed_iff ip peer_ip entries).0 e)))
  | inr e ↦ ((λ h l. let k = (ip_allowed_iff ip peer_ip entries).1 l in cc (e, k)), λ h. e)
]

-- Whatever AUTH commands the gateway has seen since its start, from whatever addresses, DATA refuses
-- the relay exactly if no command from the peer's address has gone through (PLAIN or LOGIN with a name
-- that can be sanitized), and the address cannot be parsed or no entry of the allowlist is it or a
-- network that holds it.
pub relay_denied_iff :
    (repr : Text → Text) (domain : Option Text) (hub : Option EventHub) (history : List AuthCall)
    (h : HandlerContext) (config : GatewayConfig) (peer_ip : Text) (e : Envelope) (now : ℕ)
    (d : Draw) (s : ServiceState)
    → ((handle_data
          (record h { authenticator = after_auths repr history (new_authenticator domain hub) })
          config
          peer_ip
          e
          now
          d
          s).0
        ≡ relay_denied)
      ↔ (All (NotFrom domain peer_ip) history × (¬ IsListed h.ip peer_ip config.smtp.allowed_ips))
unfolding get
relay_denied_iff repr domain hub history h config peer_ip e now d s =
    let seen = after_auths repr history (new_authenticator domain hub) in
    let denied = relay_denied_unless (record h { authenticator = seen }) config peer_ip e now d s in
    let known = get-after_auths repr peer_ip history (new_authenticator domain hub) in
    let listed = ip_refused_iff h.ip peer_ip config.smtp.allowed_ips in
    (
      (λ x. let (unknown, off) = denied.0 x in ((known.0 unknown).1, listed.0 off)),
      λ (never, off). denied.1 (known.1 (refl, never), listed.1 off),
    )
