-- ===== src/Ews/Client.antt =====
-- src/msgate/ews/client.py with src/msgate/ews/account_cache.py: sending a message, with one new TLS
-- negotiation after a TLS failure, and the accounts that a thread keeps. An account is a value of the
-- type `A`, and exchangelib, which makes and uses it, is a parameter.
use msgate.Prelude.{
  ℕ, ◌-◌, Bool, true, false, not, ◌&&◌, Option, none, some, List, [], ◌∷◌, ◌++◌, Text, codes,
  text_eq, if◌then◌else◌, filter,
}
use msgate.Prelude.Base64.{Bytes}
use msgate.Prelude.Ints.{show_ℕ}
use msgate.Prelude.Results.{Exception, Result, ok, raise}
use msgate.Prelude.Texts.{is_empty}
use msgate.Config.{AuthType, basic, ntlm, oauth2, EwsConfig}
use msgate.Drivers.{SendResult, SendRequest, HealthResult, Sending, sent, failing, EwsClient}
use msgate.Tls.Cache.{TlsCache}
use msgate.Tls.Profiles.{TlsProfileId, profile_value}
use msgate.Tls.Negotiate.{
  TlsLibrary, Negotiation, NegotiatedTls, negotiate, prepare_ews_tls, invalidate_ews_tls,
  is_tls_failure,
}
use msgate.Ews.Mailbox.{resolve_primary_smtp}
use msgate.Ews.Compose.{EmailLibrary, EwsMessage, build_ews_message}
pub mod Accounts
pub mod Sends

-- An exception: whether it is an `ssl.SSLError`, and its text.
pub record Failure : Type 0 where
  pub is_ssl_error : Bool
  pub text : Text

pub data Answer (X : Type 0) : Type 0 where
  gives : X → Answer X
  fails : Failure → Answer X

-- `_auth_type`: true for BASIC, false for NTLM.
abbrev pub uses_basic : AuthType → Bool
uses_basic basic = true
uses_basic ntlm = false
uses_basic oauth2 = false

-- `_cache_key`
pub record AccountKey : Type 0 where
  pub server_url : Text
  pub username : Text
  pub password : Text
  pub primary : Text
  pub with_basic : Bool

abbrev bool_eq : Bool → Bool → Bool
bool_eq true b = b
bool_eq false b = not b

unfoldable pub key_eq : AccountKey → AccountKey → Bool
key_eq a b =
    text_eq a.server_url b.server_url
    && text_eq a.username b.username
    && text_eq a.password b.password
    && text_eq a.primary b.primary
    && bool_eq a.with_basic b.with_basic

abbrev pub AccountStore : Type 0 → Type 0
AccountStore A = List (AccountKey × A)

module _ {A : Type 0} where
  unfoldable pub cache_get : AccountKey → AccountStore A → Option A
  cache_get key [] = none
  cache_get key ((k, a) ∷ store) = if key_eq key k then some a else cache_get key store

  unfoldable pub cache_put : AccountKey → A → AccountStore A → AccountStore A
  cache_put key a [] = (key, a) ∷ []
  cache_put key a ((k, b) ∷ store) =
      if key_eq key k then (k, a) ∷ store else (k, b) ∷ cache_put key a store

  unfoldable pub cache_invalidate : Option Text → AccountStore A → AccountStore A
  cache_invalidate none store = []
  cache_invalidate (some username) [] = []
  cache_invalidate (some username) ((k, a) ∷ store) =
      if text_eq k.username username
      then cache_invalidate (some username) store
      else (k, a) ∷ cache_invalidate (some username) store

-- The libraries that the client calls. The clock of `time.perf_counter`, in milliseconds, is read
-- from the world.
pub record ClientLibrary (W A : Type 0) : Type 0 where
  pub tls : TlsLibrary W
  pub email : EmailLibrary
  pub new_account : AccountKey → W → Answer A × W
  pub send_and_save : A → EwsMessage → W → Answer SendResult × W
  pub inbox_count : A → W → Answer ℕ × W
  pub clock : W → ℕ
  pub exception_text : Exception → Text

-- What a thread of the gateway has: the TLS cache, its accounts, and the world.
pub record ClientState (W A : Type 0) : Type 0 where
  pub tls_cache : TlsCache
  pub accounts : AccountStore A
  pub world : W

abbrev pub Act : Type 0 → Type 0 → Type 0 → Type 0
Act W A X = ClientState W A → Answer X × ClientState W A

module _ {W A X : Type 0} where
  infixl 5 ◌>>=◌
  unfoldable pub ◌>>=◌ : {Y : Type 0} → Act W A X → (X → Act W A Y) → Act W A Y
  (m >>= k) s = elim (m s).0 [ gives x ↦ k x (m s).1 | fails e ↦ (fails e, (m s).1) ]

  abbrev pub return : X → Act W A X
  return x s = (gives x, s)

  abbrev pub throw : Failure → Act W A X
  throw e s = (fails e, s)

module _ {W A : Type 0} (lib : ClientLibrary W A) where
  -- An exception that is no SSLError.
  abbrev pub plain_failure : Exception → Failure
  plain_failure e = record { is_ssl_error = false; text = lib.exception_text e }

  abbrev pub answer_of : {X : Type 0} → Result X → Answer X
  answer_of (ok x) = gives x
  answer_of (raise e) = fails (plain_failure e)

  unfoldable pub prepare : EwsConfig → Bool → Act W A NegotiatedTls
  unfolding prepare_ews_tls
  prepare cfg force_reprobe s =
      let n = prepare_ews_tls lib.tls cfg force_reprobe s.tls_cache s.world in
      (answer_of n.result, record s { tls_cache = n.cache; world = n.world })

  unfoldable pub find_mailbox : Text → Option Text → EwsConfig → Option Text → Act W A Text
  find_mailbox username mail_from cfg default_sender s =
      elim (resolve_primary_smtp lib.email.parseaddr username mail_from cfg default_sender) [
        | some primary ↦ (gives primary, s)
        | none ↦ (
          fails (record {
            is_ssl_error = false;
            text =
                codes "cannot resolve mailbox SMTP address for EWS; set MSGATE_EWS_PRIMARY_SMTP "
                ++ codes
                    "or MSGATE_DEFAULT_SENDER, or AUTH with user@domain, or send a valid From address";
          }),
          s,
        )
      ]

  unfoldable pub open_account : AccountKey → Act W A A
  unfolding cache_get cache_put
  open_account key s = elim (cache_get key s.accounts) [
    | some account ↦ (gives account, s)
    | none ↦
        let (made, w) = lib.new_account key s.world in
        elim made [
          | fails e ↦ (fails e, record s { world = w })
          | gives account ↦
              (gives account, record s { accounts = cache_put key account s.accounts; world = w })
        ]
  ]

  -- With `use_cache=True`, as every caller has it.
  unfoldable pub build_account : Text → Text → EwsConfig → Option Text → Option Text → Act W A A
  unfolding prepare find_mailbox open_account
  build_account username password cfg mail_from default_sender =
      if is_empty cfg.server_url
      then throw (record { is_ssl_error = false; text = codes "EWS server_url is required" })
      else do
        negotiated ← prepare cfg false
        primary ← find_mailbox username mail_from cfg default_sender
        open_account (record {
          server_url = cfg.server_url;
          username = username;
          password = password;
          primary = primary;
          with_basic = uses_basic cfg.auth_type;
        })

  -- What `_attempt` does first when it is forced.
  unfoldable pub renew : Text → EwsConfig → Act W A NegotiatedTls
  unfolding prepare cache_invalidate
  renew username cfg s = elim (invalidate_ews_tls lib.tls cfg s.tls_cache) [
    | raise e ↦ (fails (plain_failure e), s)
    | ok cache ↦
        prepare cfg true
          (record s { tls_cache = cache; accounts = cache_invalidate (some username) s.accounts })
  ]

  unfoldable pub compose : SendRequest → Act W A EwsMessage
  compose r s = elim (build_ews_message lib.email r.mail_from r.rcpt_tos r.mime_bytes) [
    | some message ↦ (gives message, s)
    | none ↦ (fails (record { is_ssl_error = false; text = codes "no recipients" }), s)
  ]

  unfoldable pub submit : A → EwsMessage → Act W A SendResult
  submit account message s =
      let (answer, w) = lib.send_and_save account message s.world in
      (answer, record s { world = w })

  -- `_attempt`, from the account on.
  unfoldable pub send_once : EwsConfig → SendRequest → Option Text → Act W A SendResult
  unfolding build_account compose submit
  send_once cfg r default_sender = do
    account ← build_account r.auth_username r.password cfg (some r.mail_from) default_sender
    message ← compose r
    submit account message

  unfoldable pub try_send : Bool → EwsConfig → SendRequest → Option Text → Act W A SendResult
  unfolding renew send_once
  try_send false cfg r default_sender = send_once cfg r default_sender
  try_send true cfg r default_sender = do
    negotiated ← renew r.auth_username cfg
    send_once cfg r default_sender

  unfoldable pub send_mime : EwsConfig → SendRequest → Option Text → Act W A SendResult
  unfolding try_send
  send_mime cfg r default_sender s =
      let (first, s') = try_send false cfg r default_sender s in
      elim first [
        | gives result ↦ (gives result, s')
        | fails e ↦
            if is_tls_failure e.is_ssl_error e.text
            then try_send true cfg r default_sender s'
            else (fails e, s')
      ]

  -- `_check_ews` of src/msgate/drivers/ews.py.
  abbrev count_inbox : A → Act W A ℕ
  count_inbox account s =
      let (answer, w) = lib.inbox_count account s.world in (answer, record s { world = w })

  abbrev only_negotiate : EwsConfig → Act W A NegotiatedTls
  only_negotiate cfg s =
      let n = negotiate lib.tls cfg false s.tls_cache s.world in
      (answer_of n.result, record s { tls_cache = n.cache; world = n.world })

  unfoldable pub check_inbox : EwsConfig → Text → Text → Act W A (TlsProfileId × ℕ)
  unfolding build_account
  check_inbox cfg username password = do
    negotiated ← only_negotiate cfg
    account ← build_account username password cfg (some username) none
    count ← count_inbox account
    return (negotiated.profile_id, count)

  unfoldable pub check_ews :
      EwsConfig → Text → Text → ClientState W A → HealthResult × ClientState W A
  unfolding check_inbox
  check_ews cfg username password s =
      let (answer, s') = check_inbox cfg username password s in
      elim answer [
        | gives (profile, count) ↦ (
          record {
            healthy = true;
            latency_ms = lib.clock s'.world - lib.clock s.world;
            detail = codes "Inbox accessible (" ++ (show_ℕ count ++ codes " items)");
            error = none;
            driver = codes "ews";
            extra = (codes "tls_profile", profile_value profile) ∷ [];
          },
          s',
        )
        | fails e ↦ (
          record {
            healthy = false;
            latency_ms = 0;
            detail = [];
            error = some e.text;
            driver = codes "ews";
            extra = [];
          },
          s',
        )
      ]

  abbrev sending_of : Answer SendResult → Sending
  sending_of (gives r) = sent r
  sending_of (fails e) = failing e.text

  -- What the drivers take for their client.
  unfoldable pub ews_client : EwsClient (ClientState W A)
  unfolding send_mime check_ews
  ews_client = record {
    send_mime = λ cfg r default_sender s.
        (sending_of (send_mime cfg r default_sender s).0, (send_mime cfg r default_sender s).1);
    check = check_ews;
  }
