-- ===== src/Ops/Digest/Pdf/Offsets.antt =====
-- Where the objects of a document of src/msgate/ops/digest_pdf.py stand in it.
use msgate.Prelude.{
  ℕ, ◌≡◌, refl, ap, ◌∙◌, sym, List, [], ◌∷◌, ◌++◌, append_assoc, append-nil, Text, codes, length,
}
use msgate.Prelude.Base64.{Bytes}
use msgate.Ops.Digest.Pdf.{
  line_end, objects_of, stream_of, write_objects, join_texts, xref_table, trailer, assemble,
  text_pdf,
}

-- The part stands in the document at this offset.
abbrev pub StandsAt : Bytes → ℕ → Bytes → Type 0
StandsAt document offset part =
    (before : Bytes) × (after : Bytes) × (document ≡ before ++ (part ++ after))
    × (length before ≡ offset)

-- Each object at the offset listed for it.
abbrev pub Placed : Bytes → List Bytes → List ℕ → Type 0
Placed document [] [] = Unit
Placed document (obj ∷ objs) (off ∷ offs) = StandsAt document off obj × Placed document objs offs
Placed document _ _ = ¬ Unit

written_all :
    (objs : List Bytes) (out : Bytes) → (write_objects objs out).0 ≡ out ++ join_texts objs
unfolding write_objects
written_all [] out = sym (append-nil out)
written_all (obj ∷ objs) out =
    written_all objs (out ++ obj) ∙ append_assoc out obj (join_texts objs)

write_objects-Placed :
    (objs : List Bytes) (out rest : Bytes)
    → Placed ((write_objects objs out).0 ++ rest) objs (write_objects objs out).1
unfolding write_objects
write_objects-Placed [] out rest = tt
write_objects-Placed (obj ∷ objs) out rest =
    let tail = join_texts objs in
    let place : (write_objects (obj ∷ objs) out).0 ++ rest ≡ out ++ (obj ++ (tail ++ rest)) =
      ap (λ d. d ++ rest) (written_all (obj ∷ objs) out)
      ∙ append_assoc out (obj ++ tail) rest
      ∙ ap (λ t. out ++ t) (append_assoc obj tail rest) in
    ((out, tail ++ rest, place, refl), write_objects-Placed objs (out ++ obj) rest)

-- In the document that is made of a report, the cross-reference table gives each object the offset
-- at which it stands, and `startxref` the offset at which the table stands, whatever the title and
-- the lines are; the document ends with the trailer.
pub text_pdf-Placed :
    (title : Text) (lines : List Text)
    → let objects = objects_of (stream_of title lines) in
      (offsets : List ℕ) × (body : Bytes) × (text_pdf title lines
        ≡ body ++ (xref_table (length objects) offsets ++ trailer (length objects) (length body)))
      × Placed (text_pdf title lines) objects offsets
unfolding text_pdf assemble
text_pdf-Placed title lines =
    let objects = objects_of (stream_of title lines) in
    let written = write_objects objects (line_end (codes "%PDF-1.4")) in
    (
      written.1,
      written.0,
      refl,
      write_objects-Placed objects (line_end (codes "%PDF-1.4"))
          (xref_table (length objects) written.1 ++ trailer (length objects) (length written.0)),
    )
