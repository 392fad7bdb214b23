-- ===== src/Ops/Digest/Report/Delays.antt =====
-- The longest delay of a digest of src/msgate/ops/digest_report.py.
use msgate.Prelude.{
  ℕ, suc, ◌+◌, ◌≤◌, ◌<◌, ◌≡◌, refl, ◌∙◌, ◌&&◌, Option, none, some, List, [], ◌∷◌, leb, ltb, leb→le,
  filter, take, All, Has, here, there, arith, Bool-cases, ◌⊎◌, inl, inr,
}
use msgate.Queue.Repository.{sent, MessageRow, Table}
use msgate.Ops.Digest.Report.{Delay, is_in, why_of, delay_of, longer, longest, max_sent_delay}

-- Above the delays that are at most the one given; nothing is above the negative ones.
abbrev pub level : Option Delay → ℕ
level none = 0
level (some d) = suc d.delay

-- The row took no longer than this delay, or, where there is none, a negative time.
abbrev pub Within : Option Delay → MessageRow → Type 0
Within best r = r.updated_at < r.created_at + level best

abbrev pub delay_entry : MessageRow → Delay
delay_entry r = record { delay = delay_of r; id = r.id; why = why_of r.last_error }

longer_cases :
    (best : Option Delay) (r : MessageRow)
    → (longer best r ≡ best) × Within best r
      ⊎ (longer best r ≡ some (delay_entry r))
        × (level best ≤ level (some (delay_entry r)))
        × (r.created_at ≤ r.updated_at)
unfolding longer
longer_cases none r = elim (Bool-cases (leb r.created_at r.updated_at)) [
  | inl e ↦ inr (rw (e, longer) refl, omega arith, leb→le r.created_at r.updated_at e)
  | inr e ↦ inl (rw (e, longer) refl, ground arith)
]
longer_cases (some b) r =
    elim (Bool-cases (leb r.created_at r.updated_at && ltb b.delay (delay_of r))) [
      | inl e ↦ inr (rw (e, longer) refl, ground arith, ground arith)
      | inr e ↦ inl (rw (e, longer) refl, ground arith)
    ]

longer_level :
    (best : Option Delay) (r : MessageRow)
    → (level best ≤ level (longer best r)) × Within (longer best r) r
longer_level best r = elim (longer_cases best r) [
  | inl (e, w) ↦ rw e (omega arith, w)
  | inr (e, g, le) ↦ rw e (g, omega (arith, le))
]

longest_level :
    (best : Option Delay) (rs : List MessageRow)
    → (level best ≤ level (longest best rs)) × All (Within (longest best rs)) rs
unfolding longest
longest_level best [] = (omega arith, tt)
longest_level best (r ∷ rs) =
    let (above, within) = longer_level best r in
    let (rest, all) = longest_level (longer best r) rs in
    (omega (arith, above, rest), (omega (arith, within, rest), all))

-- The delay of one of the rows, with that row's identifier and reason.
abbrev pub DelayOf : List MessageRow → Option Delay → Type 0
DelayOf rows best =
    (r : MessageRow) × Has r rows × (r.created_at ≤ r.updated_at) × (best ≡ some (delay_entry r))

longest_attained :
    (best : Option Delay) (rs : List MessageRow)
    → (longest best rs ≡ best) ⊎ DelayOf rs (longest best rs)
unfolding longest
longest_attained best [] = inl refl
longest_attained best (r ∷ rs) = elim (longest_attained (longer best r) rs) [
  | inr (s, h, le, e) ↦ inr (s, there h, le, e)
  | inl same ↦ elim (longer_cases best r) [
    | inl (e, w) ↦ inl (same ∙ e)
    | inr (e, g, le) ↦ inr (r, here, le, same ∙ e)
  ]
]

-- The delay that a digest reports is the longest of the rows it looks at, the first 5000 that were
-- sent in the window: none of them took longer, and one of them took just that long and gives the
-- identifier and the reason. It reports none only where no row took a time that is not negative.
pub max_sent_delay-longest :
    (start end : ℕ) (table : Table)
    → let rows = take 5000 (filter (is_in sent start end) table) in
      All (Within (max_sent_delay start end table)) rows
      × ((max_sent_delay start end table ≡ none) ⊎ DelayOf rows (max_sent_delay start end table))
unfolding max_sent_delay
max_sent_delay-longest start end table =
    let rows = take 5000 (filter (is_in sent start end) table) in
    ((longest_level none rows).1, longest_attained none rows)
