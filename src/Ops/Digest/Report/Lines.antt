-- ===== src/Ops/Digest/Report/Lines.antt =====
-- The subject and the lines of a digest: the methods of src/msgate/ops/digest_report.py.
use msgate.Prelude.{Option, none, some, List, [], ◌∷◌, ◌++◌, map, Text, codes, if◌then◌else◌}
use msgate.Prelude.Ints.{show_ℕ}
use msgate.Prelude.Texts.{is_empty, replace}
use msgate.Ops.AlertMail.{given_or}
use msgate.Ops.Capacity.{rounded}
use msgate.Ops.Digest.{Calendar, day_of}
use msgate.Ops.Digest.Report.{DigestReport}

-- `DigestReport.subject`
unfoldable pub render_subject : Calendar → DigestReport → Text → Text
render_subject calendar r template =
    replace (codes "{to}") (calendar.date_text (day_of r.window_end)) (
      replace (codes "{from}") (calendar.date_text (day_of r.window_start))
        (replace (codes "{period}") r.period template))

abbrev pub dash : Text
dash = 0x2014 ∷ []

abbrev pub why_lines : Option Text → List Text
why_lines none = []
why_lines (some why) = if is_empty why then [] else (codes "  why: " ++ why) ∷ []

unfoldable pub delay_lines : DigestReport → List Text
unfolding rounded
delay_lines r = elim r.max_delay [
  | none ↦ (codes "Max delivery delay: " ++ dash) ∷ []
  | some delay ↦
      (codes "Max delivery delay: "
        ++ (show_ℕ (rounded delay)
            ++ (codes "s (id=" ++ (given_or r.max_delay_message_id dash ++ codes ")"))))
      ∷ why_lines r.max_delay_why
]

abbrev pub item : Text → Text
item t = codes "- " ++ t

abbrev pub note_lines : List Text → List Text
note_lines [] = []
note_lines (n ∷ ns) = codes "Critical / notable:" ∷ (map item (n ∷ ns) ++ ([] ∷ []))

abbrev pub error_lines : List Text → List Text
error_lines [] = []
error_lines (e ∷ es) = codes "Top failure reasons:" ∷ map item (e ∷ es)

-- `DigestReport.body_lines`
unfoldable pub body_lines : Calendar → DigestReport → List Text
unfolding delay_lines
body_lines calendar r =
    (codes "msgate " ++ (r.period ++ codes " digest"))
    ∷ (codes "Window (UTC): "
        ++ (calendar.isoformat r.window_start
            ++ (codes " " ++ (0x2192 ∷ (codes " " ++ calendar.isoformat r.window_end)))))
    ∷ []
    ∷ (codes "Sent: " ++ show_ℕ r.sent_count)
    ∷ (codes "Failed: " ++ show_ℕ r.failed_count)
    ∷ (codes "Pending now: " ++ show_ℕ r.pending)
    ∷ (codes "Retrying now: " ++ show_ℕ r.retrying_count)
    ∷ []
    ∷ (delay_lines r ++ ([] ∷ (note_lines r.critical_notes ++ error_lines r.top_errors)))
