-- ===== src/Ews/Client/Sends.antt =====
-- How often src/msgate/ews/client.py submits a message to Exchange. The worlds are counted by a
-- function that each submission raises by one and that nothing else changes.
use msgate.Prelude.{
  ℕ, suc, ◌+◌, ◌≤◌, ◌≡◌, refl, ◌∙◌, ◌⊎◌, inl, inr, Bool, true, false, Option, none, some, List, [],
  ◌∷◌, Text, arith, Bool-cases, Option-cases,
}
use msgate.Prelude.Results.{Result, ok, raise, Result-cases}
use msgate.Prelude.Texts.{is_empty}
use msgate.Config.{EwsConfig, GatewayConfig}
use msgate.Drivers.{SendRequest, ews_send}
use msgate.Tls.Cache.{TlsCache, get_cached}
use msgate.Tls.Profiles.{TlsMode, TlsProfile, TlsProfileId, profile_by_id}
use msgate.Tls.Negotiate.{
  Endpoint, probe_profile, try_ladder, negotiate_at, endpoint_key, negotiate, prepare_ews_tls,
  read_endpoint, invalidate_ews_tls,
}
use msgate.Ews.Compose.{EwsMessage}
use msgate.Ews.Client.{
  Failure, Answer, gives, fails, AccountKey, ClientLibrary, ClientState, Act, prepare, find_mailbox,
  open_account, build_account, renew, compose, submit, send_once, try_send, send_mime, ews_client,
  ◌>>=◌, cache_invalidate,
}

pub record Counts {W A : Type 0} (lib : ClientLibrary W A) (count : W → ℕ) : Type 0 where
  pub connect_quiet :
      (host : Text) (port : ℕ) (p : TlsProfile) (ca_file : Option Text) (insecure : Bool) (w : W)
      → count (lib.tls.connect host port p ca_file insecure w).1 ≡ count w
  pub install_quiet :
      (p : TlsProfile) (ca_file : Option Text) (insecure : Bool) (w : W)
      → count (lib.tls.install p ca_file insecure w).1 ≡ count w
  pub account_quiet : (key : AccountKey) (w : W) → count (lib.new_account key w).1 ≡ count w
  pub send_counted :
      (a : A) (m : EwsMessage) (w : W) → count (lib.send_and_save a m w).1 ≡ suc (count w)

Answer-cases :
    {X : Type 0} (a : Answer X) → ((x : X) × (a ≡ gives x)) ⊎ ((e : Failure) × (a ≡ fails e))
Answer-cases (gives x) = inl (x, refl)
Answer-cases (fails e) = inr (e, refl)

module _ {W A : Type 0} (lib : ClientLibrary W A) (count : W → ℕ) (k : Counts lib count) where
  probe_quiet :
      (cfg : EwsConfig) (e : Endpoint) (p : TlsProfileId) (w : W)
      → count (probe_profile lib.tls cfg e p w).1 ≡ count w
  unfolding probe_profile
  probe_quiet cfg e p w =
      ground
        (arith, k.connect_quiet e.host e.port (profile_by_id p) cfg.ca_file cfg.trust_self_signed w)

  ladder_quiet :
      (cfg : EwsConfig) (e : Endpoint) (mode : TlsMode) (key : Text) (ps : List TlsProfileId)
      (last : Option Text) (cache : TlsCache) (w : W)
      → count (try_ladder lib.tls cfg e mode key ps last cache w).world ≡ count w
  unfolding try_ladder
  ladder_quiet cfg e mode key [] last cache w = refl
  ladder_quiet cfg e mode key (p ∷ ps) last cache w =
      let probed = probe_profile lib.tls cfg e p w in
      elim (Bool-cases probed.0.succeeded) [
        | inl f ↦ rw (f, try_ladder) (probe_quiet cfg e p w)
        | inr f ↦
            rw (f, try_ladder)
              (ladder_quiet cfg e mode key ps probed.0.error_text cache probed.1
                ∙ probe_quiet cfg e p w)
      ]

  negotiate_at_quiet :
      (cfg : EwsConfig) (e : Endpoint) (mode : TlsMode) (force_reprobe : Bool) (cache : TlsCache)
      (w : W)
      → count (negotiate_at lib.tls cfg e mode force_reprobe cache w).world ≡ count w
  unfolding negotiate_at
  negotiate_at_quiet cfg e mode true cache w = ladder_quiet cfg e mode _ _ _ cache w
  negotiate_at_quiet cfg e mode false cache w =
      go (get_cached (endpoint_key cfg e mode) cache).0 refl
    where
      go :
          (found : Result (Option TlsProfileId))
          → (get_cached (endpoint_key cfg e mode) cache).0 ≡ found
          → count (negotiate_at lib.tls cfg e mode false cache w).world ≡ count w
      go (raise x) f = rw (f, negotiate_at)
      go (ok (some p)) f = rw (f, negotiate_at)
      go (ok none) f = rw (f, negotiate_at) (ladder_quiet cfg e mode _ _ _ _ w)

  negotiate_quiet :
      (cfg : EwsConfig) (force_reprobe : Bool) (cache : TlsCache) (w : W)
      → count (negotiate lib.tls cfg force_reprobe cache w).world ≡ count w
  unfolding negotiate
  negotiate_quiet cfg force_reprobe cache w = elim (Result-cases (read_endpoint lib.tls cfg)) [
    | inl ((e, mode), r) ↦ rw (r, negotiate) (negotiate_at_quiet cfg e mode force_reprobe cache w)
    | inr (x, r) ↦ rw (r, negotiate)
  ]

  prepare_quiet :
      (cfg : EwsConfig) (force_reprobe : Bool) (s : ClientState W A)
      → count (prepare lib cfg force_reprobe s).1.world ≡ count s.world
  unfolding prepare
  prepare_quiet cfg force_reprobe s =
      let n = negotiate lib.tls cfg force_reprobe s.tls_cache s.world in
      let quiet = negotiate_quiet cfg force_reprobe s.tls_cache s.world in
      elim (Result-cases n.result) [
        | inr (x, r) ↦ rw (r, prepare_ews_tls) quiet
        | inl (chosen, r) ↦
            let p = profile_by_id chosen.profile_id in
            ground (arith, r, quiet, k.install_quiet p cfg.ca_file cfg.trust_self_signed n.world)
      ]

  mailbox_quiet :
      (username : Text) (mail_from : Option Text) (cfg : EwsConfig) (d : Option Text)
      (s : ClientState W A)
      → count (find_mailbox lib username mail_from cfg d s).1.world ≡ count s.world
  unfolding find_mailbox
  mailbox_quiet username mail_from cfg d s = ground arith

  account_found :
      (key : AccountKey) (s : ClientState W A)
      → count (open_account lib key s).1.world ≡ count s.world
  unfolding open_account
  account_found key s = ground (arith, k.account_quiet key s.world)

  -- An action that submits at most so many times.
  record Submits {X : Type 0} (n : ℕ) (m : Act W A X) : Type 0 where
    bounded : (s : ClientState W A) → count (m s).1.world ≤ count s.world + n

  quiet :
      {X : Type 0} {m : Act W A X}
      → ((s : ClientState W A) → count (m s).1.world ≡ count s.world)
      → Submits 0 m
  quiet h = record { bounded = λ s. omega (arith, h s) }

  then-Submits :
      {X Y : Type 0} {a b : ℕ} {m : Act W A X} {f : X → Act W A Y}
      → Submits a m
      → ((x : X) → Submits b (f x))
      → Submits (a + b) (m >>= f)
  unfolding ◌>>=◌
  then-Submits {a = a} {b = b} {m = m} {f = f} h g = record {
    bounded = λ s. elim (Answer-cases (m s).0) [
      | inl (x, e) ↦ rw (e, ◌>>=◌) (omega (arith, h.bounded s, (g x).bounded (m s).1))
      | inr (x, e) ↦ rw (e, ◌>>=◌) (omega (arith, h.bounded s))
    ];
  }

  build_account-Submits :
      (username password : Text) (cfg : EwsConfig) (mail_from d : Option Text)
      → Submits 0 (build_account lib username password cfg mail_from d)
  unfolding build_account
  build_account-Submits username password cfg mail_from d =
      elim (Bool-cases (is_empty cfg.server_url)) [
        | inl e ↦ rw e (quiet (λ s. refl))
        | inr e ↦ rw e (
            then-Submits (quiet (prepare_quiet cfg false)) (λ x.
              then-Submits (quiet (mailbox_quiet username mail_from cfg d))
                (λ y. quiet (account_found _))))
      ]

  compose-Submits : (r : SendRequest) → Submits 0 (compose lib r)
  unfolding compose
  compose-Submits r = quiet (λ s. ground arith)

  submit-Submits : (a : A) (m : EwsMessage) → Submits 1 (submit lib a m)
  unfolding submit
  submit-Submits a m = record { bounded = λ s. omega (arith, k.send_counted a m s.world) }

  send_once-Submits :
      (cfg : EwsConfig) (r : SendRequest) (d : Option Text) → Submits 1 (send_once lib cfg r d)
  unfolding send_once
  send_once-Submits cfg r d =
      then-Submits (build_account-Submits r.auth_username r.password cfg (some r.mail_from) d)
        (λ a. then-Submits (compose-Submits r) (λ m. submit-Submits a m))

  renew-Submits : (username : Text) (cfg : EwsConfig) → Submits 0 (renew lib username cfg)
  unfolding renew
  renew-Submits username cfg = quiet (λ s.
      elim (Result-cases (invalidate_ews_tls lib.tls cfg s.tls_cache)) [
        | inl (cache, e) ↦
            rw (e, renew)
              (prepare_quiet cfg true (record s {
                tls_cache = cache;
                accounts = cache_invalidate (some username) s.accounts;
              }))
        | inr (x, e) ↦ rw (e, renew)
      ])

  try_send-Submits :
      (forced : Bool) (cfg : EwsConfig) (r : SendRequest) (d : Option Text)
      → Submits 1 (try_send lib forced cfg r d)
  unfolding try_send
  try_send-Submits false cfg r d = send_once-Submits cfg r d
  try_send-Submits true cfg r d =
      then-Submits (renew-Submits r.auth_username cfg) (λ n. send_once-Submits cfg r d)

  send_mime-Submits :
      (cfg : EwsConfig) (r : SendRequest) (d : Option Text) → Submits 2 (send_mime lib cfg r d)
  unfolding send_mime
  send_mime-Submits cfg r d = record {
    bounded = λ s.
        let first = try_send lib false cfg r d s in
        ground (
          arith,
          (try_send-Submits false cfg r d).bounded s,
          (try_send-Submits true cfg r d).bounded first.1,
        );
  }

  client_bounds :
      (cfg : EwsConfig) (r : SendRequest) (d : Option Text) (s : ClientState W A)
      → count ((ews_client lib).send_mime cfg r d s).1.world ≤ count s.world + 2
  unfolding ews_client
  client_bounds cfg r d s = (send_mime-Submits cfg r d).bounded s

  -- One delivery through the EWS driver submits the message at most four times: once, and once more
  -- after a TLS failure, at the primary endpoint, and as often at the failover endpoint.
  pub ews_send_bounds :
      (r : SendRequest) (config : GatewayConfig) (s : ClientState W A)
      → count (ews_send (ews_client lib) r config s).1.world ≤ count s.world + 4
  unfolding ews_send
  ews_send_bounds r config s = elim (Option-cases config.ews) [
    | inl e ↦ ground (arith, e)
    | inr (cfg, e) ↦
        let first = (ews_client lib).send_mime cfg r config.default_sender s in
        elim (Option-cases config.ews_failover) [
          | inl f ↦ ground (arith, e, f, client_bounds cfg r config.default_sender s)
          | inr (other, f) ↦ ground (
            arith,
            e,
            f,
            client_bounds cfg r config.default_sender s,
            client_bounds other r config.default_sender first.1,
          )
        ]
  ]
