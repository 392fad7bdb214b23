-- ===== src/Ews/Compose/Parts.antt =====
-- Which part of a message src/msgate/ews/client.py takes for its body.
use mathlib.Core.Option
use msgate.Prelude.{
  ◌≡◌, ap, inl, inr, Bool, true, false, ◌&&◌, Option, none, some, List, [], ◌∷◌, map, Text, codes,
  text_eq, text_eq_iff, if◌then◌else◌, Bool-cases, arith, filter, head?,
}
use msgate.Prelude.Texts.{is_empty}
use msgate.Ews.Compose.{
  MimePart, MimeMessage, EmailLibrary, Body, is_body_part, text_of_part, read_part, read_parts,
  read_body, body_of,
}

abbrev pub is_html_body : MimePart → Bool
is_html_body p = is_body_part p && text_eq p.content_type (codes "text/html")

abbrev pub is_plain_body : MimePart → Bool
is_plain_body p = is_body_part p && text_eq p.content_type (codes "text/plain")

abbrev pub first_text : List Text → Text
first_text [] = []
first_text (t ∷ ts) = if is_empty t then first_text ts else t

-- The first HTML part, or else the first plain part that has a text.
abbrev pub chosen_body : EmailLibrary → List MimePart → Body
chosen_body lib ps = body_of (
  first_text (map (text_of_part lib) (filter is_plain_body ps)),
  Option.map (text_of_part lib) (head? (filter is_html_body ps)),
)

abbrev or_later : Option Text → Option Text → Option Text
or_later none later = later
or_later (some t) later = some t

two_types :
    (t : Text) → text_eq t (codes "text/html") ≡ true → text_eq t (codes "text/plain") ≡ false
two_types t h = let e = (text_eq_iff t (codes "text/html")).0 h in rw e

module _ (lib : EmailLibrary) where
  abbrev plain_texts : List MimePart → List Text
  plain_texts ps = map (text_of_part lib) (filter is_plain_body ps)

  abbrev html_text : List MimePart → Option Text
  html_text ps = Option.map (text_of_part lib) (head? (filter is_html_body ps))

  read_parts_found :
      (ps : List MimePart) (t : Text) (h : Option Text)
      → read_parts lib ps (t, h) ≡ (first_text (t ∷ plain_texts ps), or_later h (html_text ps))
  unfolding read_parts read_part
  read_parts_found [] t none = ground arith
  read_parts_found [] t (some x) = ground arith
  read_parts_found (p ∷ ps) t h = elim (Bool-cases (is_body_part p)) [
    | inr e ↦ ground (arith, read_parts_found ps t h)
    | inl e ↦ elim (Bool-cases (text_eq p.content_type (codes "text/html"))) [
      | inl f ↦ ground (
        arith,
        two_types p.content_type f,
        read_parts_found ps t h,
        read_parts_found ps t (some (text_of_part lib p)),
      )
      | inr f ↦ ground (arith, read_parts_found ps t h, read_parts_found ps (text_of_part lib p) h)
    ]
  ]

  -- The body of a message of several parts is its first HTML part that is no attachment, whatever
  -- comes before it; without one, it is the first plain part that is no attachment and has a text.
  pub read_body-chosen :
      (msg : MimeMessage) → msg.is_multipart ≡ true → read_body lib msg ≡ chosen_body lib msg.walk
  unfolding read_body
  read_body-chosen msg m = rw m (ap body_of (read_parts_found msg.walk [] none))
