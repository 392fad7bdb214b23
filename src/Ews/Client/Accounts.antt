-- ===== src/Ews/Client/Accounts.antt =====
-- The accounts that a thread keeps (src/msgate/ews/account_cache.py).
use msgate.Prelude.{
  ◌≡◌, ◌↔◌, refl, inl, inr, true, false, none, some, [], ◌∷◌, Text, text_eq, text_eq_iff,
  if◌then◌else◌, Option-cases, arith,
}
use msgate.Prelude.Results.{ok, Result-cases}
use msgate.Config.{EwsConfig}
use msgate.Tls.Cache.{TlsCache}
use msgate.Tls.Profiles.{profile_by_id}
use msgate.Tls.Negotiate.{
  NegotiatedTls, negotiate, prepare_ews_tls, invalidate_ews_tls, read_endpoint,
}
use msgate.Tls.Negotiate.Ladder.{negotiate-Negotiates}
use msgate.Ews.Client.{
  gives, ClientLibrary, ClientState, prepare, renew, AccountKey, key_eq, AccountStore, cache_get,
  cache_put, cache_invalidate,
}

pub key_eq_iff : (a b : AccountKey) → (key_eq a b ≡ true) ↔ (a ≡ b)
unfolding key_eq
key_eq_iff a b = ground (
  arith,
  text_eq_iff a.server_url b.server_url,
  text_eq_iff a.username b.username,
  text_eq_iff a.password b.password,
  text_eq_iff a.primary b.primary,
)

module _ {A : Type 0} where
  pub cache_get-cache_put :
      (j key : AccountKey) (a : A) (store : AccountStore A)
      → cache_get j (cache_put key a store) ≡ (if key_eq j key then some a else cache_get j store)
  unfolding cache_get cache_put
  cache_get-cache_put j key a [] = refl
  cache_get-cache_put j key a ((k, b) ∷ store) =
      ground (
        arith,
        key_eq_iff j key,
        key_eq_iff j k,
        key_eq_iff key k,
        cache_get-cache_put j key a store,
      )

  pub cache_get-cache_invalidate :
      (j : AccountKey) (username : Text) (store : AccountStore A)
      → cache_get j (cache_invalidate (some username) store)
        ≡ (if text_eq j.username username then none else cache_get j store)
  unfolding cache_get cache_invalidate
  cache_get-cache_invalidate j username [] = ground arith
  cache_get-cache_invalidate j username ((k, a) ∷ store) =
      ground (arith, key_eq_iff j k, cache_get-cache_invalidate j username store)

module _ {W A : Type 0} (lib : ClientLibrary W A) (cfg : EwsConfig) where
  forced_fresh :
      (cache : TlsCache) (w : W) (n : NegotiatedTls)
      → (negotiate lib.tls cfg true cache w).result ≡ ok n
      → n.from_cache ≡ false
  unfolding negotiate
  forced_fresh cache w n h = elim (Result-cases (read_endpoint lib.tls cfg)) [
    | inr (x, r) ↦ absurd (ground (arith, r, h))
    | inl ((e, mode), r) ↦ elim (negotiate-Negotiates lib.tls cfg e mode true cache w r) [
      | inl (c, q, _, f, _, _, _) ↦ absurd (cc)
      | inr (inl (x, q, f, _, _)) ↦ absurd (cc)
      | inr (inr (_, inl (c, q, fresh, _, _))) ↦ cc (h, q, fresh)
      | inr (inr (_, inr (x, q, _, _))) ↦ absurd (cc (h, q))
    ]
  ]

  prepared_fresh :
      (s s' : ClientState W A) (n : NegotiatedTls)
      → prepare lib cfg true s ≡ (gives n, s')
      → (n.from_cache ≡ false) × (s'.accounts ≡ s.accounts)
  unfolding prepare prepare_ews_tls
  prepared_fresh s s' n h =
      let m = negotiate lib.tls cfg true s.tls_cache s.world in
      elim (Result-cases m.result) [
        | inr (x, r) ↦ absurd (ground (arith, r, h))
        | inl (chosen, r) ↦
            let fresh = forced_fresh s.tls_cache s.world chosen r in
            let installed =
              lib.tls.install (profile_by_id chosen.profile_id) cfg.ca_file cfg.trust_self_signed
                m.world in
            elim (Option-cases installed.0) [
              | inl q ↦ ground (arith, r, q, h, fresh)
              | inr (x, q) ↦ absurd (ground (arith, r, q, h))
            ]
      ]

  -- A second attempt after a TLS failure starts afresh: if `renew` succeeds, the TLS profile is one
  -- that was probed just then, no account of this user name is left to be used again, and those of
  -- other user names are.
  pub renew_fresh :
      (username : Text) (s s' : ClientState W A) (n : NegotiatedTls)
      → renew lib username cfg s ≡ (gives n, s')
      → (n.from_cache ≡ false)
        × ((key : AccountKey)
            → cache_get key s'.accounts
              ≡ (if text_eq key.username username then none else cache_get key s.accounts))
  unfolding renew
  renew_fresh username s s' n h = elim (Result-cases (invalidate_ews_tls lib.tls cfg s.tls_cache)) [
    | inr (x, e) ↦ absurd (ground (arith, e, h))
    | inl (cache, e) ↦
        let t : ClientState W A = record s {
          tls_cache = cache;
          accounts = cache_invalidate (some username) s.accounts;
        } in
        let (fresh, same) = prepared_fresh t s' n (rw (e, renew) at h) in
        (fresh, λ key. rw same (cache_get-cache_invalidate key username s.accounts))
  ]
