-- ===== src/Ops/Digest/Report/Counting.antt =====
-- The counts of a digest of src/msgate/ops/digest_report.py.
use msgate.Prelude.{
  ℕ, ◌+◌, ◌≤◌, ◌≡◌, refl, ap, List, [], ◌∷◌, Text, text_eq, text_eq_iff, arith, if◌then◌else◌,
  Bool-cases, inl, inr,
}
use msgate.Prelude.Maps.{Dict, lookup, assign, lookup-assign}
use msgate.Queue.Repository.{MessageStatus, Table}
use msgate.Ops.Digest.Report.{count_status, count_or_zero, count_keys}

-- Of two windows of which one begins where the other ends, each message counts in exactly one: the
-- digests of consecutive windows add up to that of the whole time.
pub count_status_adjacent :
    (status : MessageStatus) (start mid end : ℕ) (table : Table)
    → start ≤ mid
    → mid ≤ end
    → count_status status start mid table + count_status status mid end table
      ≡ count_status status start end table
unfolding count_status
count_status_adjacent status start mid end [] h k = refl
count_status_adjacent status start mid end (r ∷ rs) h k =
    ground (arith, count_status_adjacent status start mid end rs h k)

-- How often a text occurs.
abbrev pub occurrences : Text → List Text → ℕ
occurrences key [] = 0
occurrences key (k ∷ ks) = let n = occurrences key ks in if text_eq key k then n + 1 else n

pub lookup-count_keys :
    (key : Text) (counts : Dict ℕ) (keys : List Text)
    → count_or_zero (lookup key (count_keys counts keys))
      ≡ count_or_zero (lookup key counts) + occurrences key keys
unfolding count_keys
lookup-count_keys key counts [] = omega arith
lookup-count_keys key counts (k ∷ ks) =
    let n = count_or_zero (lookup k counts) + 1 in
    let rest = lookup-count_keys key (assign k n counts) ks in
    elim (Bool-cases (text_eq key k)) [
      | inl e ↦
          let same = (text_eq_iff key k).0 e in
          let seen = rw (lookup-assign key k n counts, e) at rest in
          rw e (omega (arith, seen, ap (λ t. count_or_zero (lookup t counts)) same))
      | inr e ↦
          let seen = rw (lookup-assign key k n counts, e) at rest in rw e (omega (arith, seen))
    ]
