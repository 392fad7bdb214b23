-- ===== src/Smtp/Authenticator/Peers.antt =====
-- The credentials that src/msgate/smtp/authenticator.py remembers.
use msgate.Prelude.{
  ℕ, ◌≡◌, ◌⊎◌, refl, inl, inr, Bool, true, false, Option, none, some, Text, codes, text_eq,
  if◌then◌else◌, arith,
}
use msgate.Prelude.Maps.{lookup-assign}
use msgate.Smtp.Sanitize.{
  SanitizedAuth, SanitizeError, Sanitized, accepted, refused, sanitize_username,
}
use msgate.Smtp.Authenticator.{
  SessionAuth, SmtpAuthenticator, remember, get, Login, Mechanism, plain, login_, other, try_login,
  authenticate,
}

pub get-remember :
    (j ip : Text) (a : SessionAuth) (s : SmtpAuthenticator)
    → get j (remember ip a s) ≡ (if text_eq j ip then some a else get j s)
unfolding get remember
get-remember j ip a s = lookup-assign j ip a s.by_peer

pub Sanitized-cases :
    (x : Sanitized)
    → ((a : SanitizedAuth) × (x ≡ accepted a)) ⊎ ((e : SanitizeError) × (x ≡ refused e))
Sanitized-cases (accepted a) = inl (a, refl)
Sanitized-cases (refused e) = inr (e, refl)

abbrev pub IsSupported : Mechanism → Type 0
IsSupported mech = (mech ≡ plain) ⊎ (mech ≡ login_)

-- AUTH has gone through, with the credentials remembered for this address alone.
abbrev pub Succeeds :
    Text → Mechanism → Option Login → SmtpAuthenticator → Bool × SmtpAuthenticator → Type 0
Succeeds ip mech auth_data s (success, s') =
    (success ≡ true)
    × ((d : Login) × (a : SanitizedAuth) × (auth_data ≡ some d)
        × IsSupported mech
        × (sanitize_username d.login s.default_domain ≡ accepted a)
        × ((j : Text)
            → get j s' ≡ (
                if text_eq j ip
                then some (record { sanitized = a; password = d.password })
                else get j s)))

-- AUTH has failed, for one of the reasons there are, and nothing is remembered or forgotten.
abbrev pub Fails : Mechanism → Option Login → SmtpAuthenticator → Bool × SmtpAuthenticator → Type 0
Fails mech auth_data s (success, s') =
    (success ≡ false)
    × ((j : Text) → get j s' ≡ get j s)
    × ((¬ IsSupported mech)
        ⊎ (auth_data ≡ none)
        ⊎ ((d : Login) × (e : SanitizeError) × (auth_data ≡ some d)
            × (sanitize_username d.login s.default_domain ≡ refused e)))

login_outcome :
    (repr : Text → Text) (name ip : Text) (mech : Mechanism) (d : Login) (now : ℕ)
    (s : SmtpAuthenticator)
    → IsSupported mech
    → Succeeds ip mech (some d) s (try_login repr name ip d now s)
      ⊎ Fails mech (some d) s (try_login repr name ip d now s)
unfolding try_login get
login_outcome repr name ip mech d now s m =
    elim (Sanitized-cases (sanitize_username d.login s.default_domain)) [
      | inl (a, e) ↦
          rw (e, try_login) (inl (refl, (d, a, refl, m, e, λ j. lookup-assign j ip _ s.by_peer)))
      | inr (x, e) ↦ rw (e, try_login) (inr (refl, (λ j. refl), inr (inr (d, x, refl, e))))
    ]

-- AUTH either succeeds: the mechanism is PLAIN or LOGIN, a name and a password came with it, the name
-- can be sanitized, and from then on the peer's address has these credentials and every other address
-- what it had. Or it fails, because one of the three is missing, and every address keeps what it had.
pub authenticate_cases :
    (repr : Text → Text) (ip : Text) (mech : Mechanism) (auth_data : Option Login) (now : ℕ)
    (s : SmtpAuthenticator)
    → Succeeds ip mech auth_data s (authenticate repr ip mech auth_data now s)
      ⊎ Fails mech auth_data s (authenticate repr ip mech auth_data now s)
unfolding authenticate get
authenticate_cases repr ip (other name) auth_data now s =
    inr (refl, (λ j. refl), inl (λ m. ground arith))
authenticate_cases repr ip plain none now s = inr (refl, (λ j. refl), inr (inl refl))
authenticate_cases repr ip login_ none now s = inr (refl, (λ j. refl), inr (inl refl))
authenticate_cases repr ip plain (some d) now s =
    login_outcome repr (codes "PLAIN") ip plain d now s (inl refl)
authenticate_cases repr ip login_ (some d) now s =
    login_outcome repr (codes "LOGIN") ip login_ d now s (inr refl)
