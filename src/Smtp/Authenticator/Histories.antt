-- ===== src/Smtp/Authenticator/Histories.antt =====
-- What src/msgate/smtp/authenticator.py remembers after any number of AUTH commands of all its peers.
use msgate.Prelude.{
  ℕ, ◌≡◌, ◌↔◌, refl, sym, ap, ◌∙◌, ◌⊎◌, inl, inr, Option, none, some, List, [], ◌∷◌, Text, codes,
  text_eq, text_eq_iff, Bool-cases, arith, All,
}
use mathlib.Core.Option.{some-injective}
use msgate.Smtp.Sanitize.{SanitizedAuth, SanitizeError, accepted, refused, sanitize_username}
use msgate.Smtp.Authenticator.{
  SmtpAuthenticator, get, Login, Mechanism, plain, login_, other, try_login, authenticate,
}
use msgate.Smtp.Authenticator.Peers.{IsSupported, Sanitized-cases, authenticate_cases}

-- One AUTH command: whose it is and what it carries.
pub record AuthCall : Type 0 where
  pub ip : Text
  pub mechanism : Mechanism
  pub auth_data : Option Login
  pub now : ℕ

abbrev pub run_auth : (Text → Text) → AuthCall → SmtpAuthenticator → SmtpAuthenticator
run_auth repr a s = (authenticate repr a.ip a.mechanism a.auth_data a.now s).1

abbrev pub after_auths : (Text → Text) → List AuthCall → SmtpAuthenticator → SmtpAuthenticator
after_auths repr [] s = s
after_auths repr (a ∷ rest) s = after_auths repr rest (run_auth repr a s)

-- A command that goes through: PLAIN or LOGIN, with a name that can be sanitized.
abbrev pub Admits : Option Text → AuthCall → Type 0
Admits domain a =
    IsSupported a.mechanism
    × ((d : Login) × (x : SanitizedAuth) × (a.auth_data ≡ some d)
        × (sanitize_username d.login domain ≡ accepted x))

abbrev pub NotFrom : Option Text → Text → AuthCall → Type 0
NotFrom domain ip a = a.ip ≡ ip → ¬ Admits domain a

domain_kept :
    (repr : Text → Text) (a : AuthCall) (s : SmtpAuthenticator)
    → (run_auth repr a s).default_domain ≡ s.default_domain
unfolding authenticate try_login
domain_kept repr a s = kept a.mechanism a.auth_data
  where
    tried :
        (name : Text) (d : Login)
        → (try_login repr name a.ip d a.now s).1.default_domain ≡ s.default_domain
    tried name d = elim (Sanitized-cases (sanitize_username d.login s.default_domain)) [
      | inl (x, e) ↦ rw (e, try_login) refl
      | inr (x, e) ↦ rw (e, try_login) refl
    ]

    kept :
        (m : Mechanism) (o : Option Login)
        → (authenticate repr a.ip m o a.now s).1.default_domain ≡ s.default_domain
    kept (other name) o = refl
    kept plain none = refl
    kept login_ none = refl
    kept plain (some d) = tried (codes "PLAIN") d
    kept login_ (some d) = tried (codes "LOGIN") d

get-run_auth :
    (repr : Text → Text) (ip : Text) (a : AuthCall) (s : SmtpAuthenticator)
    → (get ip (run_auth repr a s) ≡ none) ↔ ((get ip s ≡ none) × NotFrom s.default_domain ip a)
get-run_auth repr ip a s = elim (authenticate_cases repr a.ip a.mechanism a.auth_data a.now s) [
  | inl (done, (d, x, data_, m, clean, found)) ↦ elim (Bool-cases (text_eq ip a.ip)) [
    | inl e ↦
        let known = found ip in
        let same = (text_eq_iff ip a.ip).0 e in
        (
          (λ h. absurd (let k = rw e at known in cc (k, h))),
          λ (h, never). absurd (never (sym same) (m, (d, x, data_, clean))),
        )
    | inr e ↦
        let known = rw e at (found ip) in
        let apart : ¬ (a.ip ≡ ip) = λ y. ground (arith, text_eq_iff ip a.ip) in
        ((λ h. (sym known ∙ h, λ y. absurd (apart y))), λ (h, never). known ∙ h)
  ]
  | inr (failed, kept, why) ↦
      ((λ h. (sym (kept ip) ∙ h, λ y admits. refuted why admits)), λ (h, never). kept ip ∙ h)
]
  where
    refuted :
        (¬ IsSupported a.mechanism)
          ⊎ (a.auth_data ≡ none)
          ⊎ ((d : Login) × (e : SanitizeError) × (a.auth_data ≡ some d)
              × (sanitize_username d.login s.default_domain ≡ refused e))
        → ¬ Admits s.default_domain a
    refuted (inl unsupported) (m, (d, x, data_, clean)) = unsupported m
    refuted (inr (inl e)) (m, (d, x, data_, clean)) = cc (e, data_)
    refuted (inr (inr (d', e, data', bad))) (m, (d, x, data_, clean)) =
        let y : some d ≡ some d' = sym data_ ∙ data' in
        let same : d ≡ d' = some-injective _ _ y in
        let again = ap (λ l. sanitize_username l.login s.default_domain) same in
        cc (again, clean, bad)

-- An address is remembered after a history just where it was before or some command of it went
-- through.
pub get-after_auths :
    (repr : Text → Text) (ip : Text) (history : List AuthCall) (s : SmtpAuthenticator)
    → (get ip (after_auths repr history s) ≡ none)
      ↔ ((get ip s ≡ none) × All (NotFrom s.default_domain ip) history)
get-after_auths repr ip [] s = ((λ h. (h, tt)), λ h. h.0)
get-after_auths repr ip (a ∷ rest) s =
    let later = get-after_auths repr ip rest (run_auth repr a s) in
    let first = get-run_auth repr ip a s in
    let same = domain_kept repr a s in
    (
      (λ h.
          let (g, never) = later.0 h in
          let (before, not_a) = first.0 g in (before, (not_a, rw same at never))),
      λ (before, (not_a, never)). later.1 (first.1 (before, not_a), rw same never),
    )
