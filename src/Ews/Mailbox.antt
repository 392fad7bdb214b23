-- ===== src/Ews/Mailbox.antt =====
-- src/msgate/ews/mailbox.py: the mailbox that a message is sent from. The address that
-- `email.utils.parseaddr` finds in a text is a parameter; it is blank where there is none.
use msgate.Prelude.{
  Bool, true, false, not, ◌&&◌, Option, none, some, List, [], ◌∷◌, Text, codes, text_eq,
  if◌then◌else◌,
}
use msgate.Prelude.Texts.{strip, is_empty, has_char}
use msgate.Config.{EwsConfig}
pub mod Choice

abbrev pub AddressParser : Type 0
AddressParser = Text → Text

abbrev pub ends_with : Text → Text → Bool
ends_with p [] = is_empty p
ends_with p (c ∷ s) = if text_eq p (c ∷ s) then true else ends_with p s

-- `(addr or value).strip()`
unfoldable pub address_of : AddressParser → Text → Text
unfolding strip
address_of parse value = let addr = parse value in strip (if is_empty addr then value else addr)

unfoldable pub looks_like_email : AddressParser → Text → Bool
unfolding address_of
looks_like_email parse value =
    let addr = address_of parse value in
    has_char b'@' addr && not (has_char b' ' addr) && not (ends_with (codes "@localhost") addr)

abbrev with_at : Option Text → Option Text
with_at none = none
with_at (some t) = if has_char b'@' t then some t else none

-- In the order in which they are tried.
unfoldable pub candidates : Text → Option Text → EwsConfig → Option Text → List (Option Text)
candidates ews_username mail_from cfg default_sender =
    cfg.primary_smtp
    ∷ default_sender
    ∷ mail_from
    ∷ with_at (some ews_username)
    ∷ with_at cfg.username
    ∷ []

-- One round of the loop: the address that a candidate gives, if it gives one.
unfoldable pub usable : AddressParser → Option Text → Option Text
unfolding looks_like_email address_of
usable parse none = none
usable parse (some raw) =
    if is_empty raw
    then none
    else if looks_like_email parse (address_of parse raw)
    then some (address_of parse raw)
    else none

unfoldable pub first_usable : AddressParser → List (Option Text) → Option Text
unfolding usable
first_usable parse [] = none
first_usable parse (c ∷ cs) = elim (usable parse c) [
  | some addr ↦ some addr
  | none ↦ first_usable parse cs
]

-- `none` is its ValueError.
unfoldable pub resolve_primary_smtp :
    AddressParser → Text → Option Text → EwsConfig → Option Text → Option Text
unfolding first_usable candidates
resolve_primary_smtp parse ews_username mail_from cfg default_sender =
    first_usable parse (candidates ews_username mail_from cfg default_sender)
