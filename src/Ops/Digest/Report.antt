-- ===== src/Ops/Digest/Report.antt =====
-- src/msgate/ops/digest_report.py over the table of messages. Where a query has no ORDER BY, the order
-- of insertion decides. The texts `→` and `—` are written by their code points.
use msgate.Prelude.{
  ℕ, suc, ◌+◌, ◌-◌, ◌*◌, Bool, true, false, not, ◌&&◌, Option, none, some, List, [], ◌∷◌, ◌++◌, map,
  Text, codes, text_eq, leb, ltb, ◌==◌, if◌then◌else◌, filter, take, length,
}
use msgate.Prelude.Ints.{show_ℕ}
use msgate.Prelude.Maps.{Dict, lookup, assign}
use msgate.Prelude.Sort.{sort}
use msgate.Prelude.Texts.{is_empty, strip, replace}
use msgate.Ops.Capacity.{rounded}
use msgate.Ops.Digest.{Calendar, day_of}
use msgate.Queue.Repository.{
  MessageStatus, queued, sent, failed, retrying, MessageRow, Table, status_eq, microseconds,
}
pub mod Counting
pub mod Delays
pub mod Lines

pub record DigestReport : Type 0 where
  pub period : Text
  pub window_start : ℕ
  pub window_end : ℕ
  pub sent_count : ℕ
  pub failed_count : ℕ
  pub pending : ℕ
  pub retrying_count : ℕ
  pub max_delay : Option ℕ
  pub max_delay_message_id : Option Text
  pub max_delay_why : Option Text
  pub top_errors : List Text
  pub critical_notes : List Text

-- `status = … AND updated_at >= start AND updated_at < end`
abbrev pub is_in : MessageStatus → ℕ → ℕ → MessageRow → Bool
is_in status start end r =
    status_eq r.status status && leb start r.updated_at && ltb r.updated_at end

unfoldable pub count_status : MessageStatus → ℕ → ℕ → Table → ℕ
count_status status start end table = length (filter (is_in status start end) table)

abbrev pub has_now : MessageStatus → MessageRow → Bool
has_now status r = status_eq r.status status

unfoldable pub count_now : MessageStatus → Table → ℕ
count_now status table = length (filter (has_now status) table)

-- The longest delay so far, with the row's identifier and reason.
pub record Delay : Type 0 where
  pub delay : ℕ
  pub id : Text
  pub why : Text

-- `(row.last_error or "delivered after queue wait").strip()[:200]`
unfoldable pub why_of : Option Text → Text
unfolding strip
why_of none = codes "delivered after queue wait"
why_of (some e) = if is_empty e then codes "delivered after queue wait" else take 200 (strip e)

abbrev pub delay_of : MessageRow → ℕ
delay_of r = r.updated_at - r.created_at

-- `best is None or delay > best`
abbrev pub beats : ℕ → Option Delay → Bool
beats delay none = true
beats delay (some best) = ltb best.delay delay

-- One turn of the loop; a negative delay is passed over.
unfoldable pub longer : Option Delay → MessageRow → Option Delay
unfolding why_of
longer best r =
    if leb r.created_at r.updated_at && beats (delay_of r) best
    then some (record { delay = delay_of r; id = r.id; why = why_of r.last_error })
    else best

unfoldable pub longest : Option Delay → List MessageRow → Option Delay
unfolding longer
longest best [] = best
longest best (r ∷ rs) = longest (longer best r) rs

unfoldable pub max_sent_delay : ℕ → ℕ → Table → Option Delay
unfolding longest
max_sent_delay start end table = longest none (take 5000 (filter (is_in sent start end) table))

abbrev pub unknown_if_blank : Text → Text
unknown_if_blank t = if is_empty t then codes "unknown" else t

-- `(err or "unknown").strip()[:120] or "unknown"`
unfoldable pub error_key : Text → Text
unfolding strip
error_key err = unknown_if_blank (take 120 (strip (unknown_if_blank err)))

-- `last_error IS NOT NULL`
abbrev pub errors_of : List MessageRow → List Text
errors_of [] = []
errors_of (r ∷ rs) = elim r.last_error [ none ↦ errors_of rs | some e ↦ e ∷ errors_of rs ]

abbrev pub count_or_zero : Option ℕ → ℕ
count_or_zero none = 0
count_or_zero (some n) = n

-- `counts[key] = counts.get(key, 0) + 1`
unfoldable pub count_keys : Dict ℕ → List Text → Dict ℕ
count_keys counts [] = counts
count_keys counts (key ∷ keys) =
    count_keys (assign key (count_or_zero (lookup key counts) + 1) counts) keys

-- The order of texts by code points.
abbrev pub text_leb : Text → Text → Bool
text_leb [] t = true
text_leb (c ∷ s) [] = false
text_leb (c ∷ s) (d ∷ t) = let rest = text_leb s t in if c == d then rest else ltb c d

-- The order of the sorting key `(-count, text)`.
abbrev pub ranks : Text × ℕ → Text × ℕ → Bool
ranks (s, m) (t, n) = if m == n then text_leb s t else ltb n m

-- `f"{n}× {msg}"`
abbrev pub error_line : Text × ℕ → Text
error_line (msg, n) = show_ℕ n ++ (0xd7 ∷ b' ' ∷ msg)

unfoldable pub error_counts : ℕ → ℕ → Table → Dict ℕ
unfolding error_key count_keys
error_counts start end table =
    count_keys [] (map error_key (take 200 (errors_of (filter (is_in failed start end) table))))

unfoldable pub top_errors_of : ℕ → ℕ → Table → List Text
unfolding error_counts
top_errors_of start end table = map error_line (take 5 (sort ranks (error_counts start end table)))

abbrev pub optional : Bool → Text → List Text
optional b t = if b then t ∷ [] else []

abbrev pub is_long : Option Delay → Bool
is_long none = false
is_long (some d) = leb (microseconds 300) d.delay

abbrev pub long_note : Option Delay → Text
long_note none = []
long_note (some d) =
    codes "max delay " ++ (0x2265 ∷ codes " 5 minutes (" ++ show_ℕ (rounded d.delay) ++ codes "s)")

unfoldable pub notes_of : ℕ → ℕ → Option Delay → List Text
unfolding rounded
notes_of failures left best =
    optional (ltb 0 failures)
      (show_ℕ failures ++ codes " message(s) ended in failed during the window")
    ++ (optional (ltb 0 left) (show_ℕ left ++ codes " still queued/retrying at report time")
        ++ optional (is_long best) (long_note best))

abbrev pub of_delay {ℓ} : {A : Type ℓ} → (Delay → A) → Option Delay → Option A
of_delay f none = none
of_delay f (some d) = some (f d)

unfoldable pub collect_digest : Text → ℕ → ℕ → Table → DigestReport
unfolding count_status count_now max_sent_delay top_errors_of notes_of
collect_digest period start end table =
    let failures = count_status failed start end table in
    let waiting = count_now queued table in
    let again = count_now retrying table in
    let best = max_sent_delay start end table in
    record {
      period = period;
      window_start = start;
      window_end = end;
      sent_count = count_status sent start end table;
      failed_count = failures;
      pending = waiting;
      retrying_count = again;
      max_delay = of_delay (λ d. d.delay) best;
      max_delay_message_id = of_delay (λ d. d.id) best;
      max_delay_why = of_delay (λ d. d.why) best;
      top_errors = top_errors_of start end table;
      critical_notes = notes_of failures (waiting + again) best;
    }
