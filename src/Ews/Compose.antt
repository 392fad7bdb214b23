-- ===== src/Ews/Compose.antt =====
-- The part of src/msgate/ews/client.py that makes an Exchange message of MIME bytes. Parsing is
-- Python's `email` package: what it finds in the bytes is a record, and `decode` is the decoding of
-- a payload by the name of its character set.
use msgate.Prelude.{
  ℕ, Bool, true, false, not, ◌&&◌, ◌||◌, Option, none, some, List, [], ◌∷◌, ◌++◌, Text, codes,
  text_eq, if◌then◌else◌, is_some,
}
use msgate.Prelude.Base64.{Bytes}
use msgate.Prelude.Texts.{is_empty, contains, lower, partition}
use msgate.Drivers.{text_or}
use msgate.Ews.Mailbox.{AddressParser}
pub mod Parts

pub record MimePart : Type 0 where
  pub content_type : Text
  pub filename : Option Text
  pub disposition : Option Text
  -- Decoded; `none` for a multipart.
  pub payload : Option Bytes
  pub charset : Option Text

-- The message itself is the first of its parts.
pub record MimeMessage : Type 0 where
  pub subject : Option Text
  pub from_header : Option Text
  pub is_multipart : Bool
  pub whole : MimePart
  pub walk : List MimePart

pub record EmailLibrary : Type 0 where
  pub message_from_bytes : Bytes → MimeMessage
  pub parseaddr : AddressParser
  pub decode : Bytes → Text → Text

pub data Body : Type 0 where
  html : Text → Body
  plain_text : Text → Body

pub record FileAttachment : Type 0 where
  pub name : Text
  pub content : Bytes
  pub content_type : Text

pub record EwsMessage : Type 0 where
  pub subject : Text
  pub body : Body
  pub to_recipients : List Text
  pub author : Option Text
  pub attachments : List FileAttachment
  -- `ews_msg.folder = account.drafts`
  pub in_drafts : Bool

-- `a or b`
abbrev or_else : Option Text → Text → Text
or_else none b = b
or_else (some a) b = if is_empty a then b else a

abbrev pub is_blank : Option Text → Bool
is_blank none = true
is_blank (some t) = is_empty t

unfoldable pub is_body_part : MimePart → Bool
is_body_part p =
    if text_eq p.content_type (codes "text/plain") || text_eq p.content_type (codes "text/html")
    then is_blank p.filename && not (contains (codes "attachment") (lower (text_or p.disposition)))
    else false

-- `get_content_maintype() == "multipart"`
abbrev pub is_container : MimePart → Bool
is_container p = text_eq (partition b'/' p.content_type).0 (codes "multipart")

-- A part that is no body and has a payload.
unfoldable pub is_attached : MimePart → Bool
unfolding is_body_part
is_attached p = not (is_container p) && not (is_body_part p) && not (is_blank p.payload)

abbrev attachment_of : MimePart → FileAttachment
attachment_of p = record {
  name = or_else p.filename (codes "attachment");
  content = text_or p.payload;
  content_type = or_else (some p.content_type) (codes "application/octet-stream");
}

unfoldable pub mime_file_attachments : List MimePart → List FileAttachment
unfolding is_attached
mime_file_attachments [] = []
mime_file_attachments (p ∷ ps) =
    if is_attached p then attachment_of p ∷ mime_file_attachments ps else mime_file_attachments ps

-- `payload.decode(charset, errors="replace")`, UTF-8 where none is named.
abbrev pub text_of_part : EmailLibrary → MimePart → Text
text_of_part lib p = lib.decode (text_or p.payload) (or_else p.charset (codes "utf-8"))

-- One round of the loop over the parts: the plain text and the HTML so far.
unfoldable pub read_part : EmailLibrary → MimePart → Text × Option Text → Text × Option Text
read_part lib p (body_text, body_html) =
    if is_body_part p
    then if text_eq p.content_type (codes "text/html") && not (is_some body_html)
      then (body_text, some (text_of_part lib p))
      else if text_eq p.content_type (codes "text/plain") && is_empty body_text
      then (text_of_part lib p, body_html)
      else (body_text, body_html)
    else (body_text, body_html)

unfoldable pub read_parts : EmailLibrary → List MimePart → Text × Option Text → Text × Option Text
read_parts lib [] found = found
read_parts lib (p ∷ ps) found = read_parts lib ps (read_part lib p found)

abbrev pub body_of : Text × Option Text → Body
body_of (body_text, none) = plain_text body_text
body_of (body_text, some body_html) = html body_html

unfoldable pub read_body : EmailLibrary → MimeMessage → Body
unfolding read_parts
read_body lib msg =
    if msg.is_multipart
    then body_of (read_parts lib msg.walk ([], none))
    else if text_eq msg.whole.content_type (codes "text/html")
    then html (text_of_part lib msg.whole)
    else plain_text (text_of_part lib msg.whole)

unfoldable pub recipients_from_envelope : AddressParser → List Text → List Text
recipients_from_envelope parse [] = []
recipients_from_envelope parse (rcpt ∷ rest) =
    let addr = or_else (some (parse rcpt)) rcpt in
    if is_empty addr
    then recipients_from_envelope parse rest
    else addr ∷ recipients_from_envelope parse rest

abbrev pub author_of : AddressParser → Text → MimeMessage → Option Text
author_of parse mail_from msg =
    let addr = parse (or_else (some mail_from) (text_or msg.from_header)) in
    if is_empty addr then none else some addr

-- `_build_ews_message`, with the folder that `_attempt` sets; `none` is the ValueError "no recipients".
unfoldable pub build_ews_message : EmailLibrary → Text → List Text → Bytes → Option EwsMessage
unfolding read_body recipients_from_envelope mime_file_attachments
build_ews_message lib mail_from rcpt_tos mime_bytes =
    let msg = lib.message_from_bytes mime_bytes in
    let recipients = recipients_from_envelope lib.parseaddr rcpt_tos in
    let attached = mime_file_attachments msg.walk in
    elim recipients [
      | [] ↦ none
      | first ∷ others ↦ some (record {
        subject = text_or msg.subject;
        body = read_body lib msg;
        to_recipients = first ∷ others;
        author = author_of lib.parseaddr mail_from msg;
        attachments = attached;
        in_drafts = elim attached [ [] ↦ false | a ∷ rest ↦ true ];
      })
    ]
