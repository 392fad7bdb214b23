-- ===== src/Ops/Digest/Pdf.antt =====
-- src/msgate/ops/digest_pdf.py: a document of one page. Bytes are numbers below 256.
use msgate.Prelude.{
  ℕ, zero, suc, ◌+◌, ◌-◌, ◌/◌, ◌%◌, Bool, List, [], ◌∷◌, ◌++◌, map, Text, codes, ltb, take, length,
  if◌then◌else◌,
}
use msgate.Prelude.Base64.{Bytes}
use msgate.Prelude.Ints.{show_ℕ}
use msgate.Prelude.Texts.{replace}
use msgate.Ops.AlertMail.{join_lines}
pub mod Offsets

-- `_esc`
unfoldable pub esc : Text → Text
esc text = take 200 (
    replace (10 ∷ []) (b' ' ∷ []) (
      replace (13 ∷ []) (b' ' ∷ []) (
        replace (codes ")") (b'\\' ∷ codes ")") (
          replace (codes "(") (b'\\' ∷ codes "(")
            (replace (b'\\' ∷ []) (b'\\' ∷ b'\\' ∷ []) text)))))

-- `encode("latin-1", errors="replace")` of one character.
abbrev pub latin_1 : ℕ → ℕ
latin_1 c = if ltb c 256 then c else b'?'

abbrev pub shown_at : Text → ℕ → Text → Text
shown_at font y line =
    codes "BT /F1 "
    ++ (font ++ (codes " Tf 50 " ++ (show_ℕ y ++ (codes " Td (" ++ (esc line ++ codes ") Tj ET")))))

-- The lines from the height y on, of which those below 50 are left out.
unfoldable pub page_lines : ℕ → List Text → List Text
unfolding esc
page_lines y [] = []
page_lines y (line ∷ lines) =
    let rest = page_lines (y - 14) lines in
    if ltb y 50 then [] else shown_at (codes "10") y line ∷ rest

unfoldable pub stream_of : Text → List Text → Bytes
unfolding esc page_lines
stream_of title lines =
    map latin_1 (join_lines (shown_at (codes "14") 742 title ∷ page_lines 712 lines))

abbrev pub line_end : Text → Text
line_end t = t ++ (10 ∷ [])

abbrev pub content_object : Bytes → Bytes
content_object stream =
    codes "4 0 obj<< /Length "
    ++ (show_ℕ (length stream)
        ++ (line_end (codes " >>stream")
            ++ (stream ++ (10 ∷ (line_end (codes "endstream") ++ line_end (codes "endobj"))))))

abbrev pub page_object : Bytes
page_object = line_end (
    codes "3 0 obj<< /Type /Page /Parent 2 0 R /MediaBox [0 0 612 792] "
    ++ codes "/Contents 4 0 R /Resources << /Font << /F1 5 0 R >> >> >>endobj")

unfoldable pub objects_of : Bytes → List Bytes
objects_of stream =
    line_end (codes "1 0 obj<< /Type /Catalog /Pages 2 0 R >>endobj")
    ∷ line_end (codes "2 0 obj<< /Type /Pages /Kids [3 0 R] /Count 1 >>endobj")
    ∷ page_object
    ∷ content_object stream
    ∷ line_end (codes "5 0 obj<< /Type /Font /Subtype /Type1 /BaseFont /Helvetica >>endobj")
    ∷ []

-- What is written so far, and the offsets of the objects.
abbrev pub Written : Type 0
Written = Bytes × List ℕ

-- The loop over the objects.
unfoldable pub write_objects : List Bytes → Bytes → Written
write_objects [] out = (out, [])
write_objects (obj ∷ objs) out =
    let (out', offsets) = write_objects objs (out ++ obj) in (out', length out ∷ offsets)

-- `f"{n:010d}"`
unfoldable pub zeros : ℕ → Text
zeros zero = []
zeros (suc n) = b'0' ∷ zeros n

abbrev pub ten_digits : ℕ → Text
ten_digits n = let t = show_ℕ n in zeros (10 - length t) ++ t

abbrev pub xref_entry : ℕ → Text
xref_entry off = line_end (ten_digits off ++ codes " 00000 n ")

abbrev pub join_texts : List Text → Text
join_texts [] = []
join_texts (t ∷ ts) = t ++ join_texts ts

unfoldable pub xref_table : ℕ → List ℕ → Text
unfolding zeros
xref_table count offsets =
    line_end (codes "xref")
    ++ (line_end (codes "0 " ++ show_ℕ (count + 1))
        ++ (line_end (codes "0000000000 65535 f ") ++ join_texts (map xref_entry offsets)))

unfoldable pub trailer : ℕ → ℕ → Text
trailer count xref_pos =
    line_end (codes "trailer<< /Size " ++ (show_ℕ (count + 1) ++ codes " /Root 1 0 R >>"))
    ++ (line_end (codes "startxref") ++ (line_end (show_ℕ xref_pos) ++ line_end (codes "%%EOF")))

unfoldable pub assemble : List Bytes → Bytes
unfolding write_objects xref_table trailer
assemble objects =
    let (out, offsets) = write_objects objects (line_end (codes "%PDF-1.4")) in
    out ++ (xref_table (length objects) offsets ++ trailer (length objects) (length out))

unfoldable pub text_pdf : Text → List Text → Bytes
unfolding assemble objects_of stream_of
text_pdf title lines = assemble (objects_of (stream_of title lines))
