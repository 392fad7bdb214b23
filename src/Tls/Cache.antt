-- ===== src/Tls/Cache.antt =====
-- src/msgate/tls/cache.py: the profile that worked for an endpoint, in memory and in a file. Each
-- function runs under the module's lock. Writing the file does not fail here.
use msgate.Prelude.{
  ℕ, ◌≡◌, refl, Bool, Option, none, some, [], ◌++◌, Text, codes, text_eq_refl, if◌then◌else◌, arith,
  is_some, Option-cases, inl, inr,
}
use msgate.Prelude.Ints.{show_ℕ}
use msgate.Prelude.Maps.{Dict, lookup, assign, delete, lookup-assign, lookup-delete}
use msgate.Prelude.Results.{value_error, Result, ok, raise}
use msgate.Prelude.Texts.{is_empty, lower}
use msgate.Tls.Profiles.{
  TlsProfileId, modern_tls, legacy_tls1_1, legacy_tls1, profile_value, profile_of,
}

-- The file, which may be missing, or hold what is not a JSON object.
pub data CacheFile : Type 0 where
  absent : CacheFile
  unreadable : CacheFile
  stored : Dict Text → CacheFile

pub record TlsCache : Type 0 where
  pub memory : Dict Text
  pub file : CacheFile

abbrev text_or_blank : Option Text → Text
text_or_blank none = []
text_or_blank (some t) = t

unfoldable pub cache_key : Text → ℕ → Text → Option Text → Bool → Text
cache_key host port tls_mode ca_file trust_self_signed =
    lower host
    ++ (codes ":"
        ++ (show_ℕ port
            ++ (codes "|mode="
                ++ (tls_mode
                    ++ (codes "|ca="
                        ++ (text_or_blank ca_file
                            ++ (codes "|insecure="
                                ++ (if trust_self_signed then codes "1" else codes "0"))))))))

-- `_load`
unfoldable pub load : CacheFile → Dict Text
load (stored m) = m
load _ = []

-- `TlsProfileId(value)`
unfoldable pub as_profile : Text → Result (Option TlsProfileId)
unfolding profile_of
as_profile value = elim (profile_of value) [ none ↦ raise value_error | some p ↦ ok (some p) ]

unfoldable pub get_cached : Text → TlsCache → Result (Option TlsProfileId) × TlsCache
unfolding load as_profile
get_cached key c = elim (lookup key c.memory) [
  | some value ↦ (as_profile value, c)
  | none ↦ elim (lookup key (load c.file)) [
    | none ↦ (ok none, c)
    | some value ↦
        if is_empty value
        then (ok none, c)
        else (as_profile value, record c { memory = assign key value c.memory })
  ]
]

unfoldable pub put_cached : Text → TlsProfileId → TlsCache → TlsCache
unfolding load
put_cached key profile_id c = record {
  memory = assign key (profile_value profile_id) c.memory;
  file = stored (assign key (profile_value profile_id) (load c.file));
}

unfoldable pub invalidate : Text → TlsCache → TlsCache
unfolding load
invalidate key c = record {
  memory = delete key c.memory;
  file = if is_some (lookup key (load c.file)) then stored (delete key (load c.file)) else c.file;
}

unfoldable pub clear_memory : TlsCache → TlsCache
clear_memory c = record c { memory = [] }

as_profile-value : (p : TlsProfileId) → as_profile (profile_value p) ≡ ok (some p)
unfolding as_profile
as_profile-value modern_tls = refl
as_profile-value legacy_tls1_1 = refl
as_profile-value legacy_tls1 = refl

pub get_cached-put_cached :
    (key : Text) (p : TlsProfileId) (c : TlsCache)
    → get_cached key (put_cached key p c) ≡ (ok (some p), put_cached key p c)
unfolding get_cached put_cached
get_cached-put_cached key p c =
    ground (
      arith,
      lookup-assign key key (profile_value p) c.memory,
      text_eq_refl key,
      as_profile-value p,
    )

pub get_cached-invalidate :
    (key : Text) (c : TlsCache) → (get_cached key (invalidate key c)).0 ≡ ok none
unfolding get_cached invalidate
get_cached-invalidate key c =
    ground
      (arith, lookup-delete key key c.memory, lookup-delete key key (load c.file), text_eq_refl key)

-- A hit is a hit again, and a miss leaves the cache as it was.
pub get_cached_twice :
    (key : Text) (c : TlsCache) → get_cached key (get_cached key c).1 ≡ get_cached key c
unfolding get_cached
get_cached_twice key c = elim (Option-cases (lookup key c.memory)) [
  | inr (v, e) ↦ ground (arith, e)
  | inl e ↦ elim (Option-cases (lookup key (load c.file))) [
    | inl f ↦ ground (arith, e, f)
    | inr (v, f) ↦ ground (arith, e, f, lookup-assign key key v c.memory, text_eq_refl key)
  ]
]

pub get_cached_miss :
    (key : Text) (c : TlsCache) → (get_cached key c).0 ≡ ok none → (get_cached key c).1 ≡ c
unfolding get_cached as_profile
get_cached_miss key c h = ground arith
