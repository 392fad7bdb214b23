-- ===== src/Logs/Retention.antt =====
-- src/msgate/observability/log_retention.py: how long log files are kept. Times are microseconds since
-- 1970; a `datetime` counts them from its least value, the beginning of the year 1.
use msgate.Prelude.{
  ℕ, suc, ◌+◌, ◌-◌, ◌*◌, ◌≤◌, ◌≡◌, refl, sym, subst, ◌∙◌, Bool, true, false, not, ◌&&◌, ◌||◌,
  Option, none, some, List, [], ◌∷◌, codes, ltb, leb, text_eq, length, All, All-Has, Has, here,
  there, leb→le, ltb→lt, ◌<◌, ◌⊎◌, arith, Bool-cases, Option-cases, inl, inr, if◌then◌else◌,
}
use msgate.Prelude.Results.{Result, ok, raise, raised}
use msgate.Prelude.Ints.{ℤ, pos, negsuc, Environ, get_env, parse_int, at_least}
use msgate.Prelude.Texts.{lower}
use msgate.Logs.{LogFile, is_log}

-- A file as the purge sees it: when it was changed, where `stat` tells, and whether it can be
-- deleted.
pub record OldFile : Type 0 where
  pub file : LogFile
  pub mtime : Option ℕ
  pub deletable : Bool

abbrev pub default_retention_days : ℕ
default_retention_days = 14

-- `max(1, int(raw))`
abbrev pub days_of : Option ℤ → ℕ
days_of none = default_retention_days
days_of (some n) = at_least 1 n

unfoldable pub retention_days : Environ → ℕ
unfolding parse_int
retention_days environ =
    days_of (parse_int (get_env environ (codes "MSGATE_LOG_RETENTION_DAYS") (codes "14")))

-- Whether file logging is asked for: the beginning of `setup_file_logging`.
unfoldable pub file_logging : Environ → Bool
file_logging environ =
    let value = lower (get_env environ (codes "MSGATE_FILE_LOGGING") (codes "true")) in
    not (text_eq value (codes "0") || text_eq value (codes "false") || text_eq value (codes "no"))

abbrev pub one_day : ℕ
one_day = 86400000000

-- The time from the beginning of the year 1 to 1970.
abbrev pub since_year_one : ℕ
since_year_one = 719162 * 86400000000

-- A time of modification as a `datetime`, against the cutoff.
abbrev pub is_before : ℕ → Option ℕ → Bool
is_before cutoff none = false
is_before cutoff (some t) = ltb (t + since_year_one) cutoff

-- `now - timedelta(days=days)`, which raises where the difference is before the year 1.
unfoldable pub cutoff_of : ℕ → ℕ → Result ℕ
cutoff_of days now =
    if ltb (now + since_year_one) (days * one_day)
    then raise (raised (codes "OverflowError"))
    else ok (now + since_year_one - days * one_day)

-- Whether the turn of the loop deletes the file.
abbrev pub is_purged : ℕ → OldFile → Bool
is_purged cutoff f = is_log f.file && is_before cutoff f.mtime && f.deletable

-- The loop of `purge_old_logs`, with what is left of the directory.
unfoldable pub purge_files : ℕ → List OldFile → ℕ × List OldFile
purge_files cutoff [] = (0, [])
purge_files cutoff (f ∷ fs) =
    let (removed, left) = purge_files cutoff fs in
    if is_purged cutoff f then (suc removed, left) else (removed, f ∷ left)

-- The directory may be missing.
abbrev pub purge_directory : ℕ → Option (List OldFile) → ℕ × Option (List OldFile)
purge_directory cutoff none = (0, none)
purge_directory cutoff (some files) =
    let (removed, left) = purge_files cutoff files in (removed, some left)

unfoldable pub purge_old_logs :
    Environ → ℕ → Option (List OldFile) → Result ℕ × Option (List OldFile)
unfolding retention_days purge_files cutoff_of
purge_old_logs environ now directory = elim (cutoff_of (retention_days environ) now) [
  | raise e ↦ (raise e, directory)
  | ok cutoff ↦ let (removed, left) = purge_directory cutoff directory in (ok removed, left)
]

-- Changed within the last day.
abbrev pub is_recent : ℕ → Option ℕ → Bool
is_recent now none = false
is_recent now (some t) = leb now (t + one_day)

days_positive : (n : Option ℤ) → 1 ≤ days_of n
days_positive none = omega arith
days_positive (some (pos n)) = omega arith
days_positive (some (negsuc n)) = omega arith

recent_stays :
    (days now cutoff : ℕ) (f : OldFile)
    → 1 ≤ days
    → cutoff + days * one_day ≡ now + since_year_one
    → is_recent now f.mtime ≡ true
    → is_purged cutoff f ≡ false
recent_stays days now cutoff f h c r = elim (Option-cases f.mtime) [
  | inl e ↦ absurd (let k : false ≡ true = rw e at r in cc)
  | inr (t, e) ↦
      let k : leb now (t + one_day) ≡ true = rw e at r in
      let le = leb→le now (t + one_day) k in
      let before : ltb (t + since_year_one) cutoff ≡ false = ground (arith, le, h, c) in
      rw e (ground (arith, before))
]

-- What a purge promises: its count and what it leaves.
abbrev pub Purges : ℕ → List OldFile → ℕ × List OldFile → Type 0
Purges cutoff files (removed, left) =
    (removed + length left ≡ length files)
    × All (λ f. is_purged cutoff f ≡ false) left
    × All (λ f. is_purged cutoff f ≡ false → Has f left) files

All-there :
    (cutoff : ℕ) (g : OldFile) (fs left : List OldFile)
    → All (λ f. is_purged cutoff f ≡ false → Has f left) fs
    → All (λ f. is_purged cutoff f ≡ false → Has f (g ∷ left)) fs
All-there cutoff g [] left h = tt
All-there cutoff g (f ∷ fs) left h = ((λ k. there (h.0 k)), All-there cutoff g fs left h.1)

purge_files-Purges :
    (cutoff : ℕ) (files : List OldFile) → Purges cutoff files (purge_files cutoff files)
unfolding purge_files
purge_files-Purges cutoff [] = (refl, tt, tt)
purge_files-Purges cutoff (f ∷ fs) =
    let (count, kept, all) = purge_files-Purges cutoff fs in
    let rest = purge_files cutoff fs in
    elim (Bool-cases (is_purged cutoff f)) [
      | inl e ↦
          let turn : purge_files cutoff (f ∷ fs) ≡ (suc rest.0, rest.1) =
            rw (e, purge_files) refl in
          let purged : Purges cutoff (f ∷ fs) (suc rest.0, rest.1) = (
            omega (arith, count),
            kept,
            ((λ k. absurd (let c : true ≡ false = sym e ∙ k in cc)), all),
          ) in
          subst (Purges cutoff (f ∷ fs)) (sym turn) purged
      | inr e ↦
          let turn : purge_files cutoff (f ∷ fs) ≡ (rest.0, f ∷ rest.1) =
            rw (e, purge_files) refl in
          let purged : Purges cutoff (f ∷ fs) (rest.0, f ∷ rest.1) =
            (omega (arith, count), (e, kept), ((λ k. here), All-there cutoff f fs rest.1 all)) in
          subst (Purges cutoff (f ∷ fs)) (sym turn) purged
    ]

module _ (environ : Environ) (now : ℕ) (files : List OldFile) where
  -- What the statement of `purge_old_logs-Purges` says of the two cases.
  abbrev pub Overflows : Type 0
  Overflows =
      (now + since_year_one < retention_days environ * one_day)
      × (purge_old_logs environ now (some files)
          ≡ (raise (raised (codes "OverflowError")), some files))

  abbrev pub Removes : Type 0
  Removes =
      (cutoff : ℕ) × (removed : ℕ) × (left : List OldFile) × (cutoff
          + retention_days environ * one_day
        ≡ now + since_year_one)
      × (purge_old_logs environ now (some files) ≡ (ok removed, some left))
      × Purges cutoff files (removed, left)
      × ((f : OldFile) → Has f files → is_recent now f.mtime ≡ true → Has f left)

-- Where the days set in the environment reach back beyond the year 1, a purge raises OverflowError and
-- deletes nothing. Otherwise it deletes just the log files that are older than those days and can be
-- deleted, counts them, and leaves every other file of the directory. Whatever else the environment
-- says, even nonsense, a file that was changed within the last day stays.
pub purge_old_logs-Purges :
    (environ : Environ) (now : ℕ) (files : List OldFile)
    → Overflows environ now files ⊎ Removes environ now files
unfolding purge_old_logs retention_days cutoff_of
purge_old_logs-Purges environ now files =
    let days = retention_days environ in
    let given = parse_int (get_env environ (codes "MSGATE_LOG_RETENTION_DAYS") (codes "14")) in
    let cutoff = now + since_year_one - days * one_day in
    let done = purge_files-Purges cutoff files in
    elim (Bool-cases (ltb (now + since_year_one) (days * one_day))) [
      | inl e ↦ inl (ltb→lt (now + since_year_one) (days * one_day) e, rw (e, purge_old_logs) refl)
      | inr e ↦
          let fits : cutoff + days * one_day ≡ now + since_year_one = ground (arith, e) in
          inr (
            cutoff,
            (purge_files cutoff files).0,
            (purge_files cutoff files).1,
            fits,
            rw (e, purge_old_logs) refl,
            done,
            λ f h r.
                All-Has (λ g. is_purged cutoff g ≡ false → Has g (purge_files cutoff files).1) h
                  done.2 (recent_stays days now cutoff f (days_positive given) fits r),
          )
    ]
