-- ===== src/Http/Paths.antt =====
-- The shape of the prefixes and paths of src/msgate/http/root_path.py.
use msgate.Prelude.{
  ◌≡◌, refl, Bool, true, false, ◌||◌, Option, none, some, [], ◌∷◌, ◌++◌, Text, codes, text_eq, ◌==◌,
  if◌then◌else◌, arith, Bool-cases, inl, inr, ◌⊎◌,
}
use msgate.Prelude.Ints.{Environ, get_env}
use msgate.Prelude.Texts.{is_empty, starts_with, strip}
use msgate.Http.{
  Request, rstrip_slash, normalize, configured_root_path, request_root_path, or_slash, join_root,
  cookie_path,
}

-- A text that starts with a slash.
abbrev pub Rooted : Text → Type 0
Rooted t = (rest : Text) × (t ≡ b'/' ∷ rest)

abbrev pub ends_in_slash : Text → Bool
ends_in_slash [] = false
ends_in_slash (c ∷ s) = if is_empty s then c == b'/' else ends_in_slash s

-- A prefix is blank, or starts with a slash and does not end in one.
abbrev pub Prefix : Text → Type 0
Prefix t = (t ≡ []) ⊎ (Rooted t × (ends_in_slash t ≡ false))

drop_tail-ends : (s : Text) → ends_in_slash (rstrip_slash s) ≡ false
drop_tail-ends [] = refl
drop_tail-ends (c ∷ s) = ground (arith, drop_tail-ends s)

rooted-Prefix : (s : Text) → Prefix (rstrip_slash (b'/' ∷ s))
rooted-Prefix s = elim (Bool-cases (is_empty (rstrip_slash s))) [
  | inl e ↦ rw e (inl refl)
  | inr e ↦
      let ends = drop_tail-ends (b'/' ∷ s) in rw e (inr ((rstrip_slash s, refl), rw e at ends))
]

starts-Rooted : (s : Text) → starts_with (codes "/") s ≡ true → Rooted s
starts-Rooted [] h = absurd (cc)
starts-Rooted (c ∷ s) h = (s, ground arith)

-- Whatever stands in the environment or the header, the prefix is blank or starts with a slash and
-- does not end in one.
pub normalize-Prefix : (prefix : Text) → Prefix (normalize prefix)
unfolding normalize
normalize-Prefix prefix =
    let p = strip prefix in
    elim (Bool-cases (is_empty p || text_eq p (codes "/"))) [
      | inl e ↦ rw e (inl refl)
      | inr e ↦ rw e (elim (Bool-cases (starts_with (codes "/") p)) [
        | inl f ↦ let r = starts-Rooted p f in rw (f, r.1) (rooted-Prefix r.0)
        | inr f ↦ rw f (rooted-Prefix p)
      ])
    ]

pub request_root_path-Prefix :
    (environ : Environ) (request : Option Request) → Prefix (request_root_path environ request)
unfolding request_root_path configured_root_path
request_root_path-Prefix environ none =
    normalize-Prefix (get_env environ (codes "MSGATE_ROOT_PATH") [])
request_root_path-Prefix environ (some request) =
    elim (Bool-cases (is_empty request.forwarded_prefix)) [
      | inl e ↦ rw e (normalize-Prefix (get_env environ (codes "MSGATE_ROOT_PATH") []))
      | inr e ↦ rw e (normalize-Prefix request.forwarded_prefix)
    ]

-- RFC 6265: a cookie with this path goes with a request for that one.
pub data PathMatch (cookie url : Text) : Type 0 where
  same : url ≡ cookie → PathMatch cookie url
  top : cookie ≡ codes "/" → Rooted url → PathMatch cookie url
  below : (rest : Text) → url ≡ cookie ++ (b'/' ∷ rest) → PathMatch cookie url

abbrev pub Covered : Text → Text → Type 0
Covered root url = Rooted url × PathMatch (or_slash root) url

root_Covered : (root : Text) → Prefix root → Covered root (or_slash root)
root_Covered root (inl e) = rw e (([], refl), same refl)
root_Covered root (inr ((rest, e), _)) = rw e ((rest, refl), same refl)

path_Covered : (root path : Text) → Prefix root → Rooted path → Covered root (root ++ path)
path_Covered root path (inl e) r = rw e (r, top refl r)
path_Covered root path (inr ((rest, e), _)) (p, f) =
    rw (e, f) ((rest ++ (b'/' ∷ p), refl), below p refl)

-- Every path that `join_root` builds starts with a slash, and the browser sends the cookies of
-- `cookie_path` with it.
pub join_root-Covered :
    (environ : Environ) (request : Option Request) (path : Text)
    → Rooted (join_root environ request path)
      × PathMatch (cookie_path environ request) (join_root environ request path)
unfolding join_root cookie_path
join_root-Covered environ request path =
    let root = request_root_path environ request in
    let prefix = request_root_path-Prefix environ request in
    elim (Bool-cases (is_empty path)) [
      | inl e ↦ rw e (root_Covered root prefix)
      | inr e ↦ rw e (elim (Bool-cases (starts_with (codes "/") path)) [
        | inl f ↦ rw f (path_Covered root path prefix (starts-Rooted path f))
        | inr f ↦ rw f (path_Covered root (codes "/" ++ path) prefix (path, refl))
      ])
    ]
