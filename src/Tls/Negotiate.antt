-- ===== src/Tls/Negotiate.antt =====
-- src/msgate/tls/negotiate.py with `probe_profile` of src/msgate/tls/probe.py. A connection reads and
-- changes the world `W`.
use msgate.Prelude.{
  ℕ, zero, suc, Bool, true, false, Option, none, some, List, [], ◌∷◌, ◌++◌, Text, codes, text_eq,
  if◌then◌else◌, any,
}
use msgate.Prelude.Ints.{show_ℕ}
use msgate.Prelude.Results.{Exception, value_error, raised, Result, ok, raise}
use msgate.Prelude.Texts.{contains, lower, is_empty}
use msgate.Config.{EwsConfig}
use msgate.Tls.Profiles.{
  TlsMode, TlsProfileId, TlsProfile, mode_value, mode_of, profile_by_id, ladder_for_mode,
}
use msgate.Tls.Cache.{TlsCache, cache_key, get_cached, put_cached, invalidate}
pub mod Ladder
pub mod Reuse

-- What `urlparse` finds in a URL.
pub record ParsedUrl : Type 0 where
  pub scheme : Text
  pub hostname : Option Text
  pub port : Option ℕ

-- What a call of the `ssl` module gives, or the text of what it raises.
pub data Connected (A : Type 0) : Type 0 where
  connected : A → Connected A
  error : Text → Connected A

-- `urlparse`; a connection with a context for a profile, which gives the version that was agreed on;
-- and the adapter of exchangelib, which is put in place with such a context.
pub record TlsLibrary (W : Type 0) : Type 0 where
  pub urlparse : Text → ParsedUrl
  pub connect : Text → ℕ → TlsProfile → Option Text → Bool → W → Connected Text × W
  pub install : TlsProfile → Option Text → Bool → W → Option Exception × W

pub record ProbeResult : Type 0 where
  pub profile_id : TlsProfileId
  pub succeeded : Bool
  pub error_text : Option Text
  pub negotiated : Option Text

pub record NegotiatedTls : Type 0 where
  pub host : Text
  pub port : ℕ
  pub profile_id : TlsProfileId
  pub from_cache : Bool
  pub probe : Option ProbeResult

pub record Endpoint : Type 0 where
  pub host : Text
  pub port : ℕ

-- A port of zero counts as none.
abbrev port_or : Option ℕ → ℕ → ℕ
port_or none default = default
port_or (some zero) default = default
port_or (some (suc p)) default = suc p

unfoldable pub endpoint_from_url : ParsedUrl → Text → Result Endpoint
endpoint_from_url parsed url = elim parsed.hostname [
  | none ↦ raise (raised (codes "cannot parse host from URL: " ++ url))
  | some host ↦
      if is_empty host
      then raise (raised (codes "cannot parse host from URL: " ++ url))
      else ok (record {
        host = host;
        port = port_or parsed.port (if text_eq parsed.scheme (codes "https") then 443 else 80);
      })
]

unfoldable pub probe_profile :
    {W : Type 0} → TlsLibrary W → EwsConfig → Endpoint → TlsProfileId → W → ProbeResult × W
probe_profile lib cfg e p w =
    let (answer, w') =
      lib.connect e.host e.port (profile_by_id p) cfg.ca_file cfg.trust_self_signed w in
    elim answer [
      | connected version ↦ (
        record { profile_id = p; succeeded = true; error_text = none; negotiated = some version },
        w',
      )
      | error text ↦ (
        record { profile_id = p; succeeded = false; error_text = some text; negotiated = none },
        w',
      )
    ]

pub record Negotiation (W : Type 0) : Type 0 where
  pub result : Result NegotiatedTls
  pub cache : TlsCache
  pub world : W

abbrev text_of : Option Text → Text
text_of none = codes "None"
text_of (some t) = t

unfoldable pub no_profile : Endpoint → TlsMode → Option Text → Exception
no_profile e mode last_error = raised (
    codes "no working TLS profile for "
    ++ (e.host
        ++ (codes ":"
            ++ (show_ℕ e.port
                ++ (codes " (mode=" ++ (mode_value mode ++ (codes "): " ++ text_of last_error)))))))

-- The loop over the ladder.
unfoldable pub try_ladder :
    {W : Type 0}
    → TlsLibrary W
    → EwsConfig
    → Endpoint
    → TlsMode
    → Text
    → List TlsProfileId
    → Option Text
    → TlsCache
    → W
    → Negotiation W
unfolding put_cached
try_ladder lib cfg e mode key [] last_error cache w = record {
  result = raise (no_profile e mode last_error);
  cache = cache;
  world = w;
}
try_ladder lib cfg e mode key (p ∷ ladder) last_error cache w =
    let (probed, w') = probe_profile lib cfg e p w in
    elim probed.succeeded [
      | true ↦ record {
        result = ok (record {
          host = e.host;
          port = e.port;
          profile_id = p;
          from_cache = false;
          probe = some probed;
        });
        cache = put_cached key p cache;
        world = w';
      }
      | false ↦ try_ladder lib cfg e mode key ladder probed.error_text cache w'
    ]

abbrev pub endpoint_key : EwsConfig → Endpoint → TlsMode → Text
endpoint_key cfg e mode =
    cache_key e.host e.port (mode_value mode) cfg.ca_file cfg.trust_self_signed

-- The endpoint is known and the mode is a mode.
unfoldable pub negotiate_at :
    {W : Type 0}
    → TlsLibrary W
    → EwsConfig
    → Endpoint
    → TlsMode
    → Bool
    → TlsCache
    → W
    → Negotiation W
unfolding try_ladder
negotiate_at lib cfg e mode force_reprobe cache w =
    let key = endpoint_key cfg e mode in
    let (found, cache') = get_cached key cache in
    if force_reprobe
    then try_ladder lib cfg e mode key (ladder_for_mode mode) none cache w
    else elim found [
      | raise x ↦ record { result = raise x; cache = cache'; world = w }
      | ok none ↦ try_ladder lib cfg e mode key (ladder_for_mode mode) none cache' w
      | ok (some p) ↦ record {
        result = ok (record {
          host = e.host;
          port = e.port;
          profile_id = p;
          from_cache = true;
          probe = none;
        });
        cache = cache';
        world = w;
      }
    ]

-- The endpoint and the mode that a configuration names.
unfoldable pub read_endpoint : {W : Type 0} → TlsLibrary W → EwsConfig → Result (Endpoint × TlsMode)
unfolding mode_of
read_endpoint lib cfg = elim (endpoint_from_url (lib.urlparse cfg.server_url) cfg.server_url) [
  | raise x ↦ raise x
  | ok e ↦ elim (mode_of cfg.tls_mode) [ none ↦ raise value_error | some mode ↦ ok (e, mode) ]
]

unfoldable pub negotiate :
    {W : Type 0} → TlsLibrary W → EwsConfig → Bool → TlsCache → W → Negotiation W
unfolding negotiate_at read_endpoint
negotiate lib cfg force_reprobe cache w = elim (read_endpoint lib cfg) [
  | raise x ↦ record { result = raise x; cache = cache; world = w }
  | ok (e, mode) ↦ negotiate_at lib cfg e mode force_reprobe cache w
]

unfoldable pub prepare_ews_tls :
    {W : Type 0} → TlsLibrary W → EwsConfig → Bool → TlsCache → W → Negotiation W
unfolding negotiate
prepare_ews_tls lib cfg force_reprobe cache w =
    let n = negotiate lib cfg force_reprobe cache w in
    elim n.result [
      | raise x ↦ n
      | ok chosen ↦
          let (installed, w') =
            lib.install (profile_by_id chosen.profile_id) cfg.ca_file cfg.trust_self_signed
              n.world in
          elim installed [
            | some x ↦ record { result = raise x; cache = n.cache; world = w' }
            | none ↦ record n { world = w' }
          ]
    ]

unfoldable pub invalidate_ews_tls :
    {W : Type 0} → TlsLibrary W → EwsConfig → TlsCache → Result TlsCache
unfolding read_endpoint invalidate
invalidate_ews_tls lib cfg cache = elim (read_endpoint lib cfg) [
  | raise x ↦ raise x
  | ok (e, mode) ↦ ok (invalidate (endpoint_key cfg e mode) cache)
]

abbrev pub tls_markers : List Text
tls_markers =
    codes "ssl"
    ∷ codes "tls"
    ∷ codes "unsupported protocol"
    ∷ codes "certificate"
    ∷ codes "handshake"
    ∷ codes "wrong version number"
    ∷ []

-- `is_tls_failure`, by whether the exception is an SSLError and by its text.
unfoldable pub is_tls_failure : Bool → Text → Bool
is_tls_failure is_ssl_error text =
    if is_ssl_error then true else any (λ m. contains m (lower text)) tls_markers
