-- ===== src/Logs/Searching.antt =====
-- What a search of src/msgate/observability/log_reader.py finds.
use msgate.Prelude.{
  ℕ, zero, suc, ◌≤◌, ◌<◌, ◌≡◌, refl, sym, ap, ◌∙◌, subst, Bool, Option, none, some, List, [], ◌∷◌,
  ◌++◌, append_assoc, append-nil, Text, leb, leb→le, leb_false→lt, take, length, length-append,
  arith, Bool-cases, Option-cases, inl, inr, if◌then◌else◌,
}
use msgate.Prelude.Ints.{ℤ, pos, negsuc, at_least, at_most}
use msgate.Logs.{
  LogEntry, LogFile, Unicode, Query, reversed, splitlines, limit_of, entry_of, scan_lines,
  scan_files, searched_files, list_log_files, search_logs,
}

module _ (unicode : Unicode) (q : Query) where
  -- The entries that a list of lines holds for the search.
  unfoldable pub entries : Text → List Text → List LogEntry
  entries source [] = []
  entries source (raw ∷ raws) = elim (entry_of unicode q source raw) [
    | none ↦ entries source raws
    | some entry ↦ entry ∷ entries source raws
  ]

  -- Those of a list of files, the last line of each first; files that cannot be read hold none.
  unfoldable pub all_entries : List LogFile → List LogEntry
  unfolding entries splitlines
  all_entries [] = []
  all_entries (f ∷ files) = elim f.text [
    | none ↦ all_entries files
    | some text ↦ entries f.name (reversed (splitlines text)) ++ all_entries files
  ]

take_short {ℓ} : {A : Type ℓ} (n : ℕ) (xs : List A) → length xs ≤ n → take n xs ≡ xs
take_short zero [] h = refl
take_short (suc n) [] h = refl
take_short (suc n) (x ∷ xs) h = ap (λ l. x ∷ l) (take_short n xs (omega (arith, h)))
take_short zero (x ∷ xs) h = absurd (omega (arith, h))

take_exactly {ℓ} : {A : Type ℓ} (xs ys : List A) → take (length xs) (xs ++ ys) ≡ xs
take_exactly [] ys = refl
take_exactly (x ∷ xs) ys = ap (λ l. x ∷ l) (take_exactly xs ys)

take_prefix {ℓ} :
    {A : Type ℓ} (n : ℕ) (xs rest all : List A) → length xs ≡ n → all ≡ xs ++ rest → take n all ≡ xs
take_prefix n xs rest all h e = subst (λ m. take m all ≡ xs) h (rw e (take_exactly xs rest))

some_limit : (z : ℤ) → 1 ≤ at_least 1 z
some_limit (pos n) = omega arith
some_limit (negsuc n) = omega arith

module _ (unicode : Unicode) (q : Query) where
  -- What a scan leaves: the limit's worth of all there is, with whether the limit is reached, given
  -- that it is not reached before.
  abbrev Scanned : List LogEntry → Bool × List LogEntry → Type 0
  Scanned all (done, out) =
      if done
      then (length out ≡ limit_of unicode q) × ((rest : List LogEntry) × (all ≡ out ++ rest))
      else (length out < limit_of unicode q) × (all ≡ out)

  scan_lines-Scanned :
      (source : Text) (raws : List Text) (out : List LogEntry)
      → length out < limit_of unicode q
      → Scanned (out ++ entries unicode q source raws) (scan_lines unicode q source raws out)
  unfolding scan_lines entries
  scan_lines-Scanned source [] out h = (h, append-nil out)
  scan_lines-Scanned source (raw ∷ raws) out h =
      elim (Option-cases (entry_of unicode q source raw)) [
        | inl e ↦ rw (e, scan_lines, entries) (scan_lines-Scanned source raws out h)
        | inr (entry, e) ↦
            let out' = out ++ (entry ∷ []) in
            let all = append_assoc out (entry ∷ []) (entries unicode q source raws) in
            let longer = length-append out (entry ∷ []) in
            elim (Bool-cases (leb (limit_of unicode q) (length out'))) [
              | inl f ↦
                  rw (e, scan_lines, entries)
                    (rw f (
                      omega (arith, longer, h, leb→le (limit_of unicode q) (length out') f),
                      (entries unicode q source raws, sym all),
                    ))
              | inr f ↦
                  rw (e, scan_lines, entries)
                    (rw f (
                      subst (λ a. Scanned a (scan_lines unicode q source raws out')) all
                        (scan_lines-Scanned source raws out'
                          (leb_false→lt (limit_of unicode q) (length out') f))))
            ]
      ]

  scan_files-take :
      (files : List LogFile) (out : List LogEntry)
      → length out < limit_of unicode q
      → scan_files unicode q files out
        ≡ take (limit_of unicode q) (out ++ all_entries unicode q files)
  unfolding scan_files all_entries
  scan_files-take [] out h =
      sym (rw (append-nil out) (take_short (limit_of unicode q) out (omega (arith, h))))
  scan_files-take (f ∷ files) out h = elim (Option-cases f.text) [
    | inl e ↦ rw (e, scan_files, all_entries) (scan_files-take files out h)
    | inr (text, e) ↦
        let lines = reversed (splitlines text) in
        let scan = scan_lines unicode q f.name lines out in
        let scanned = scan_lines-Scanned f.name lines out h in
        let here = entries unicode q f.name lines in
        let later = all_entries unicode q files in
        let split = append_assoc out here later in
        elim (Bool-cases scan.0) [
          | inl d ↦
              let full : (length scan.1 ≡ limit_of unicode q)
                  × ((rest : List LogEntry) × (out ++ here ≡ scan.1 ++ rest)) =
                rw d at scanned in
              rw (e, scan_files, all_entries)
                (rw d (
                  sym (
                    take_prefix (limit_of unicode q) scan.1 (full.1.0 ++ later)
                      (out ++ (here ++ later)) full.0
                      (sym split
                        ∙ ap (λ a. a ++ later) full.1.1
                        ∙ append_assoc scan.1 full.1.0 later))))
          | inr d ↦
              let more : (length scan.1 < limit_of unicode q) × (out ++ here ≡ scan.1) =
                rw d at scanned in
              rw (e, scan_files, all_entries)
                (rw d (
                  scan_files-take files scan.1 more.0
                  ∙ ap (λ a. take (limit_of unicode q) a)
                      (sym (ap (λ a. a ++ later) more.1) ∙ split)))
        ]
  ]

  -- A search gives the first entries, as many as its limit allows, of all that match in the files
  -- that it looks at: the files of the day asked for, the latest name first, each from its last line
  -- back; what stops the search early leaves out nothing else.
  pub search_logs-take :
      (directory : Option (List LogFile))
      → search_logs unicode q directory
        ≡ take
            (limit_of unicode q)
            (all_entries unicode q (searched_files unicode q (list_log_files directory)))
  unfolding search_logs
  search_logs-take directory =
      scan_files-take (searched_files unicode q (list_log_files directory)) []
        (some_limit (at_most 2000 q.limit))
