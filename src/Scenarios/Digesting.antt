-- ===== src/Scenarios/Digesting.antt =====
-- A scheduler that ticks through two days, and the digest of a table with two deliveries.
use msgate.Prelude.{
  ℕ, ◌+◌, ◌*◌, ◌≡◌, refl, false, Option, none, some, List, [], ◌∷◌, ◌++◌, Text, codes, filter, take,
  length, All, arith, if◌then◌else◌, ◌⊎◌, ◌==◌,
}
use msgate.Prelude.Base64.{Bytes}
use msgate.Prelude.Ints.{show_ℕ}
use msgate.Prelude.Results.{ok}
use msgate.Prelude.Texts.{is_empty, strip}
use msgate.Ops.Digest.{Calendar, day_length}
use msgate.Ops.Digest.Mail.{Attaching}
use msgate.Ops.Digest.Pdf.{text_pdf, objects_of, stream_of, xref_table, trailer}
use msgate.Ops.Digest.Pdf.Offsets.{Placed, text_pdf-Placed}
use msgate.Ops.Digest.Report.{is_in, max_sent_delay, count_status, count_or_zero, count_keys}
use msgate.Prelude.Maps.{lookup}
use msgate.Ops.Digest.Report.Counting.{count_status_adjacent, lookup-count_keys}
use msgate.Ops.Digest.Report.Delays.{Within, DelayOf, max_sent_delay-longest}
use msgate.Ops.Digest.Schedule.{
  DigestState, StateFields, StateJson, daily, weekly, Reading, Scheduler,
}
use msgate.Ops.Digest.Schedule.Once.{sent_stamps, Onward, Rising, sent_stamps-Rising}
use msgate.Queue.Repository.{Table, MessageRow, sent}
use msgate.Scenarios.Alerting.{settings}
use msgate.Scenarios.Samples.{config, sending, delivered, waiting}

-- Numbers stand for their dates.
abbrev pub calendar : Calendar
calendar = record { date_text = show_ℕ; week_text = show_ℕ; isoformat = show_ℕ }

-- The body of the message stands for it.
abbrev attach : Attaching
attach = record { as_bytes = λ sender recipient subject body pdf name. ok body }

-- The first marker with a comma before each character, a closing brace, and the second marker.
abbrev pair_text : Text → Text → Text
pair_text [] w = b'}' ∷ w
pair_text (c ∷ s) w = b',' ∷ c ∷ pair_text s w

abbrev pair_of : Text → Text × Text
pair_of [] = ([], [])
pair_of (c ∷ []) = ([], [])
pair_of (c ∷ d ∷ s) = let (a, b) = pair_of s in if c == b',' then (d ∷ a, b) else ([], d ∷ s)

pair_of-pair_text : (s w : Text) → pair_of (pair_text s w) ≡ (s, w)
pair_of-pair_text [] [] = refl
pair_of-pair_text [] (d ∷ w) = refl
pair_of-pair_text (c ∷ s) w = rw (pair_of-pair_text s w) refl

abbrev print : DigestState → Text
print st = b'{' ∷ pair_text st.last_daily st.last_weekly

abbrev read : Text → Option StateFields
read [] = none
read (c ∷ s) = let (a, b) = pair_of s in some (record { last_daily = some a; last_weekly = some b })

print_nonblank : (st : DigestState) → is_empty (strip (print st)) ≡ false
unfolding strip
print_nonblank st = refl

read-print :
    (st : DigestState)
    → read (print st)
      ≡ some (record { last_daily = some st.last_daily; last_weekly = some st.last_weekly })
read-print st = rw (pair_of-pair_text st.last_daily st.last_weekly) refl

abbrev json : StateJson
json = record {
  print = print;
  read = read;
  print_nonblank = print_nonblank;
  read-print = read-print;
}

-- An hour of a day; day 4 is a Monday.
abbrev at_hour : ℕ → ℕ → Reading
at_hour day hour = record {
  now = day * day_length + hour * 3600000000;
  daily_table = delivered ∷ [];
  weekly_table = delivered ∷ [];
  config = config;
  ops = settings;
}

abbrev hours : List Reading
hours = at_hour 4 5 ∷ at_hour 4 6 ∷ at_hour 4 7 ∷ at_hour 4 23 ∷ at_hour 5 5 ∷ at_hour 5 9 ∷ []

abbrev scheduler : Scheduler ℕ
scheduler = record { row = none; world = 0 }

abbrev hours_pass : Onward 0 hours
hours_pass =
    (omega arith, (omega arith, (omega arith, (omega arith, (omega arith, (omega arith, tt))))))

sent_stamps-Rising_example : Rising (sent_stamps calendar attach sending json daily hours scheduler)
sent_stamps-Rising_example =
    sent_stamps-Rising calendar attach sending json daily 0 hours scheduler hours_pass

two_days : sent_stamps calendar attach sending json daily hours scheduler ≡ 4 ∷ 5 ∷ []
unfolding sent_stamps show_ℕ
two_days = refl

one_week : sent_stamps calendar attach sending json weekly hours scheduler ≡ 1 ∷ []
unfolding sent_stamps show_ℕ
one_week = refl

abbrev slow : MessageRow
slow = record delivered { id = codes "msg_z"; updated_at = 905 }

abbrev deliveries : Table
deliveries = delivered ∷ slow ∷ waiting ∷ []

max_sent_delay-longest_example :
    All
      (Within (max_sent_delay 0 1000 deliveries))
      (take 5000 (filter (is_in sent 0 1000) deliveries))
    × ((max_sent_delay 0 1000 deliveries ≡ none)
        ⊎ DelayOf
            (take 5000 (filter (is_in sent 0 1000) deliveries))
            (max_sent_delay 0 1000 deliveries))
max_sent_delay-longest_example = max_sent_delay-longest 0 1000 deliveries

text_pdf-Placed_example :
    (offsets : List ℕ) × (body : Bytes) × (text_pdf (codes "digest") (codes "Sent: 2" ∷ [])
      ≡ body ++ (xref_table 5 offsets ++ trailer 5 (length body)))
    × Placed
        (text_pdf (codes "digest") (codes "Sent: 2" ∷ []))
        (objects_of (stream_of (codes "digest") (codes "Sent: 2" ∷ [])))
        offsets
unfolding objects_of
text_pdf-Placed_example = text_pdf-Placed (codes "digest") (codes "Sent: 2" ∷ [])

two_windows :
    count_status sent 0 100 deliveries + count_status sent 100 1000 deliveries
    ≡ count_status sent 0 1000 deliveries
two_windows = count_status_adjacent sent 0 100 1000 deliveries (omega arith) (omega arith)

timeouts :
    count_or_zero
      (lookup (codes "timeout") (count_keys [] (codes "timeout" ∷ codes "refused" ∷ [])))
    ≡ 1
timeouts = lookup-count_keys (codes "timeout") [] (codes "timeout" ∷ codes "refused" ∷ [])
