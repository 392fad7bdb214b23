-- ===== src/Tls/Negotiate/Reuse.antt =====
-- The cache of src/msgate/tls between negotiations.
use msgate.Prelude.{◌≡◌, inl, inr, sym, ap, ◌∙◌, Bool, true, false, none, some}
use msgate.Prelude.Results.{Exception, Result, ok, raise, Result-cases}
use msgate.Config.{EwsConfig}
use msgate.Tls.Profiles.{TlsMode, TlsProfileId}
use msgate.Tls.Cache.{
  TlsCache, get_cached, invalidate, get_cached-put_cached, get_cached-invalidate, get_cached_twice,
  get_cached_miss,
}
use msgate.Tls.Negotiate.{
  TlsLibrary, Endpoint, NegotiatedTls, Negotiation, endpoint_key, negotiate_at, read_endpoint,
  negotiate, invalidate_ews_tls,
}
use msgate.Tls.Negotiate.Ladder.{negotiate_at-Negotiates}

module _ {W : Type 0} (lib : TlsLibrary W) (cfg : EwsConfig) where
  -- What a negotiation without a new probe makes of a cache that holds a profile.
  abbrev pub reused : Endpoint → TlsProfileId → TlsCache → W → Negotiation W
  reused e p cache w = record {
    result =
        ok (record {
          host = e.host;
          port = e.port;
          profile_id = p;
          from_cache = true;
          probe = none;
        });
    cache = cache;
    world = w;
  }

  negotiate_at_hit :
      (e : Endpoint) (mode : TlsMode) (p : TlsProfileId) (cache : TlsCache) (w : W)
      → get_cached (endpoint_key cfg e mode) cache ≡ (ok (some p), cache)
      → negotiate_at lib cfg e mode false cache w ≡ reused e p cache w
  unfolding negotiate_at
  negotiate_at_hit e mode p cache w h = rw (ap (λ x. x.0) h, negotiate_at) (rw (ap (λ x. x.1) h))

  negotiate_at_miss :
      (e : Endpoint) (mode : TlsMode) (cache : TlsCache) (w : W)
      → (get_cached (endpoint_key cfg e mode) cache).0 ≡ ok none
      → negotiate_at lib cfg e mode false cache w ≡ negotiate_at lib cfg e mode true cache w
  unfolding negotiate_at
  negotiate_at_miss e mode cache w h =
      rw (h, negotiate_at) (rw (get_cached_miss (endpoint_key cfg e mode) cache h))

  negotiate_read :
      (e : Endpoint) (mode : TlsMode) (force_reprobe : Bool) (cache : TlsCache) (w : W)
      → read_endpoint lib cfg ≡ ok (e, mode)
      → negotiate lib cfg force_reprobe cache w ≡ negotiate_at lib cfg e mode force_reprobe cache w
  unfolding negotiate
  negotiate_read e mode force_reprobe cache w r = rw (r, negotiate)

  negotiate_unread :
      (x : Exception) (force_reprobe : Bool) (cache : TlsCache) (w : W)
      → read_endpoint lib cfg ≡ raise x
      → negotiate lib cfg force_reprobe cache w
        ≡ record { result = raise x; cache = cache; world = w }
  unfolding negotiate
  negotiate_unread x force_reprobe cache w r = rw (r, negotiate)

  invalidated :
      (e : Endpoint) (mode : TlsMode) (cache cache' : TlsCache)
      → read_endpoint lib cfg ≡ ok (e, mode)
      → invalidate_ews_tls lib cfg cache ≡ ok cache'
      → (get_cached (endpoint_key cfg e mode) cache').0 ≡ ok none
  unfolding invalidate_ews_tls
  invalidated e mode cache cache' r h =
      let same : Path (Result TlsCache) (ok (invalidate (endpoint_key cfg e mode) cache))
          (ok cache') =
        rw (r, invalidate_ews_tls) at h in
      cc (same, get_cached-invalidate (endpoint_key cfg e mode) cache)

  kept :
      (e : Endpoint) (mode : TlsMode) (force_reprobe : Bool) (cache : TlsCache) (w : W)
      (chosen : NegotiatedTls)
      → (negotiate_at lib cfg e mode force_reprobe cache w).result ≡ ok chosen
      → let cache' = (negotiate_at lib cfg e mode force_reprobe cache w).cache in
        get_cached (endpoint_key cfg e mode) cache' ≡ (ok (some chosen.profile_id), cache')
  kept e mode force_reprobe cache w chosen h =
      let key = endpoint_key cfg e mode in
      elim (negotiate_at-Negotiates lib cfg e mode force_reprobe cache w) [
        | inl (c, r, _, _, hit, same, _) ↦ cc (h, r, hit, same, get_cached_twice key cache)
        | inr (inl (x, r, _, _, _)) ↦ absurd (cc (h, r))
        | inr (inr (_, inl (c, r, _, _, put))) ↦
            cc (h, r, put, get_cached-put_cached key c.profile_id cache)
        | inr (inr (_, inr (x, r, _, _))) ↦ absurd (cc (h, r))
      ]

  -- After a negotiation that succeeds, forced or not, a later one that is not forced takes the same
  -- profile from the cache, whatever has become of the server: it makes no connection and leaves the
  -- cache as it is.
  pub negotiate-negotiate :
      (e : Endpoint) (mode : TlsMode) (force_reprobe : Bool) (cache : TlsCache) (w later : W)
      (chosen : NegotiatedTls)
      → read_endpoint lib cfg ≡ ok (e, mode)
      → (negotiate lib cfg force_reprobe cache w).result ≡ ok chosen
      → let cache' = (negotiate lib cfg force_reprobe cache w).cache in
        negotiate lib cfg false cache' later ≡ reused e chosen.profile_id cache' later
  negotiate-negotiate e mode force_reprobe cache w later chosen r h =
      rw (negotiate_read e mode force_reprobe cache w r) (
        negotiate_read e mode false _ later r
        ∙ negotiate_at_hit e mode chosen.profile_id _ later (
            kept e mode force_reprobe cache w chosen
              (ap (λ n. n.result) (sym (negotiate_read e mode force_reprobe cache w r)) ∙ h)))

  -- After the cached profile of a configuration is invalidated, a negotiation probes as a forced one
  -- does.
  pub negotiate-invalidate_ews_tls :
      (cache cache' : TlsCache) (w : W)
      → invalidate_ews_tls lib cfg cache ≡ ok cache'
      → negotiate lib cfg false cache' w ≡ negotiate lib cfg true cache' w
  negotiate-invalidate_ews_tls cache cache' w h = elim (Result-cases (read_endpoint lib cfg)) [
    | inr (x, r) ↦ negotiate_unread x false cache' w r ∙ sym (negotiate_unread x true cache' w r)
    | inl ((e, mode), r) ↦
        negotiate_read e mode false cache' w r
        ∙ (negotiate_at_miss e mode cache' w (invalidated e mode cache cache' r h)
            ∙ sym (negotiate_read e mode true cache' w r))
  ]
