-- ===== src/Scenarios/Negotiating.antt =====
-- TLS negotiation with a server that speaks TLS 1.1 only.
use msgate.Prelude.{ℕ, ◌+◌, ◌≡◌, refl, true, false, none, some, [], Text, codes}
use msgate.Prelude.Results.{ok}
use msgate.Tls.Profiles.{auto, TlsProfileId, legacy_tls1_1, ladder_for_mode, profile_by_id}
use msgate.Tls.Cache.{TlsCache, absent, stored, get_cached, cache_key}
use msgate.Prelude.Ints.{show_ℕ}
use msgate.Tls.Negotiate.{
  Connected, connected, error, TlsLibrary, Endpoint, Negotiation, NegotiatedTls, probe_profile,
  read_endpoint, negotiate, endpoint_from_url, invalidate_ews_tls,
}
use msgate.Tls.Negotiate.Ladder.{Negotiates, negotiate-Negotiates}
use msgate.Tls.Negotiate.Reuse.{reused, negotiate-negotiate, negotiate-invalidate_ews_tls}
use msgate.Scenarios.Samples.{endpoint}

abbrev answers : TlsProfileId → Connected Text
answers legacy_tls1_1 = connected (codes "TLSv1.1")
answers _ = error (codes "unsupported protocol")

-- The world counts the connections.
abbrev pub library : TlsLibrary ℕ
library = record {
  urlparse = λ t. record {
    scheme = codes "https";
    hostname = some (codes "mail.example.com");
    port = none;
  };
  connect = λ host port p ca insecure n. (answers p.id, n + 1);
  install = λ p ca insecure n. (none, n);
}

abbrev place : Endpoint
place = record { host = codes "mail.example.com"; port = 443 }

abbrev pub empty_cache : TlsCache
empty_cache = record { memory = []; file = absent }

read_place : read_endpoint library endpoint ≡ ok (place, auto)
unfolding read_endpoint endpoint_from_url
read_place = refl

abbrev first_time : Negotiation ℕ
first_time = negotiate library endpoint false empty_cache 0

two_connections : first_time.world ≡ 2
unfolding negotiate endpoint_from_url get_cached ladder_for_mode probe_profile profile_by_id
two_connections = refl

negotiate-Negotiates_example :
    Negotiates library endpoint place auto false empty_cache 0
      (negotiate library endpoint false empty_cache 0)
negotiate-Negotiates_example =
    negotiate-Negotiates library endpoint place auto false empty_cache 0 read_place

abbrev agreed : NegotiatedTls
agreed = record {
  host = codes "mail.example.com";
  port = 443;
  profile_id = legacy_tls1_1;
  from_cache = false;
  probe = some (record {
    profile_id = legacy_tls1_1;
    succeeded = true;
    error_text = none;
    negotiated = some (codes "TLSv1.1");
  });
}

first_result : (negotiate library endpoint false empty_cache 0).result ≡ ok agreed
unfolding negotiate endpoint_from_url get_cached ladder_for_mode probe_profile profile_by_id
first_result = refl

negotiated_again :
    negotiate library endpoint false (negotiate library endpoint false empty_cache 0).cache 7
    ≡ reused library endpoint place legacy_tls1_1
        (negotiate library endpoint false empty_cache 0).cache
        7
negotiated_again =
    negotiate-negotiate library endpoint place auto false empty_cache 0 7 agreed read_place
      first_result

abbrev cleared : TlsCache
cleared = record { memory = []; file = stored [] }

cleared_first :
    invalidate_ews_tls library endpoint (negotiate library endpoint false empty_cache 0).cache
    ≡ ok cleared
unfolding invalidate_ews_tls negotiate endpoint_from_url get_cached ladder_for_mode probe_profile
    profile_by_id cache_key show_ℕ
cleared_first = refl

negotiate-invalidate_ews_tls_example :
    negotiate library endpoint false cleared 7 ≡ negotiate library endpoint true cleared 7
negotiate-invalidate_ews_tls_example =
    negotiate-invalidate_ews_tls library endpoint
      (negotiate library endpoint false empty_cache 0).cache cleared 7 cleared_first
