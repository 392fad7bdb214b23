-- ===== src/Tls/Negotiate/Ladder.antt =====
-- The ladder of src/msgate/tls/negotiate.py is tried from its top, and the first profile that works
-- is taken.
use msgate.Prelude.{
  ◌≡◌, ◌⊎◌, inl, inr, refl, Bool, true, false, Option, none, some, List, [], ◌∷◌, Text, Bool-cases,
}
use msgate.Prelude.Results.{Exception, Result, ok, raise}
use msgate.Config.{EwsConfig}
use msgate.Tls.Profiles.{TlsMode, TlsProfileId, ladder_for_mode}
use msgate.Tls.Cache.{TlsCache, get_cached, put_cached, get_cached_miss}
use msgate.Tls.Negotiate.{
  TlsLibrary, Endpoint, NegotiatedTls, Negotiation, probe_profile, try_ladder, endpoint_key,
  negotiate_at, read_endpoint, negotiate,
}

module _ {W : Type 0} (lib : TlsLibrary W) (cfg : EwsConfig) (e : Endpoint) where
  -- From one world, probes of the profiles in their order end in another: with the first profile
  -- that works, or with none if each of them fails.
  pub data Tried : List TlsProfileId → W → Option TlsProfileId → W → Type 0 where
    exhausted : {w : W} → Tried [] w none w
    works :
        {p : TlsProfileId} {ps : List TlsProfileId} {w : W}
        → (probe_profile lib cfg e p w).0.succeeded ≡ true
        → Tried (p ∷ ps) w (some p) (probe_profile lib cfg e p w).1
    fails :
        {p : TlsProfileId} {ps : List TlsProfileId} {w w' : W} {o : Option TlsProfileId}
        → (probe_profile lib cfg e p w).0.succeeded ≡ false
        → Tried ps (probe_profile lib cfg e p w).1 o w'
        → Tried (p ∷ ps) w o w'

  abbrev pub Probed : Text → List TlsProfileId → TlsCache → W → Negotiation W → Type 0
  Probed key ps cache w n =
      ((chosen : NegotiatedTls) × (n.result ≡ ok chosen)
        × (chosen.from_cache ≡ false)
        × Tried ps w (some chosen.profile_id) n.world
        × (n.cache ≡ put_cached key chosen.profile_id cache))
      ⊎ ((x : Exception) × (n.result ≡ raise x) × Tried ps w none n.world × (n.cache ≡ cache))

  try_ladder-Probed :
      (mode : TlsMode) (key : Text) (ps : List TlsProfileId) (last : Option Text) (cache : TlsCache)
      (w : W)
      → Probed key ps cache w (try_ladder lib cfg e mode key ps last cache w)
  unfolding try_ladder
  try_ladder-Probed mode key [] last cache w = inr (_, refl, exhausted, refl)
  try_ladder-Probed mode key (p ∷ ps) last cache w =
      elim (Bool-cases (probe_profile lib cfg e p w).0.succeeded) [
        | inl f ↦ rw (f, try_ladder) (inl (_, refl, refl, works f, refl))
        | inr f ↦
            elim (try_ladder-Probed mode key ps (probe_profile lib cfg e p w).0.error_text cache
              (probe_profile lib cfg e p w).1) [
                | inl (chosen, r, fresh, t, c) ↦
                    rw (f, try_ladder) (inl (chosen, r, fresh, fails f t, c))
                | inr (x, r, t, c) ↦ rw (f, try_ladder) (inr (x, r, fails f t, c))
              ]
      ]

  abbrev pub Negotiates : TlsMode → Bool → TlsCache → W → Negotiation W → Type 0
  Negotiates mode force_reprobe cache w n =
      let key = endpoint_key cfg e mode in
      ((chosen : NegotiatedTls) × (n.result ≡ ok chosen)
        × (chosen.from_cache ≡ true)
        × (force_reprobe ≡ false)
        × ((get_cached key cache).0 ≡ ok (some chosen.profile_id))
        × (n.cache ≡ (get_cached key cache).1)
        × (n.world ≡ w))
      ⊎ ((x : Exception) × (n.result ≡ raise x)
          × (force_reprobe ≡ false)
          × ((get_cached key cache).0 ≡ raise x)
          × (n.world ≡ w))
      ⊎ (((force_reprobe ≡ true) ⊎ ((get_cached key cache).0 ≡ ok none))
          × Probed key (ladder_for_mode mode) cache w n)

  pub negotiate_at-Negotiates :
      (mode : TlsMode) (force_reprobe : Bool) (cache : TlsCache) (w : W)
      → Negotiates mode force_reprobe cache w (negotiate_at lib cfg e mode force_reprobe cache w)
  unfolding negotiate_at
  negotiate_at-Negotiates mode true cache w =
      inr (inr (inl refl, try_ladder-Probed mode _ _ _ cache w))
  negotiate_at-Negotiates mode false cache w =
      go (get_cached (endpoint_key cfg e mode) cache).0 refl
    where
      go :
          (found : Result (Option TlsProfileId))
          → (get_cached (endpoint_key cfg e mode) cache).0 ≡ found
          → Negotiates mode false cache w (negotiate_at lib cfg e mode false cache w)
      go (raise x) f = rw (f, negotiate_at) (inr (inl (x, refl, refl, refl, refl)))
      go (ok (some p)) f = rw (f, negotiate_at) (inl (_, refl, refl, refl, refl, refl, refl))
      go (ok none) f =
          rw (f, negotiate_at)
            (rw (get_cached_miss _ cache f)
              (inr (inr (inr refl, try_ladder-Probed mode _ _ _ cache w))))

  -- A negotiation for an endpoint and a mode that can be read. It takes the cached profile, or raises
  -- on an unknown one, without a connection, provided no new probe is forced. If one is forced or
  -- nothing is cached, the profiles of the mode are probed in their order: the first that works is
  -- taken and cached; if none works it raises, and the cache is as it was.
  pub negotiate-Negotiates :
      (mode : TlsMode) (force_reprobe : Bool) (cache : TlsCache) (w : W)
      → read_endpoint lib cfg ≡ ok (e, mode)
      → Negotiates mode force_reprobe cache w (negotiate lib cfg force_reprobe cache w)
  unfolding negotiate
  negotiate-Negotiates mode force_reprobe cache w r =
      rw (r, negotiate) (negotiate_at-Negotiates mode force_reprobe cache w)
