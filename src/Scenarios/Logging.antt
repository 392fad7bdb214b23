-- ===== src/Scenarios/Logging.antt =====
-- A directory with two log files, one of which cannot be read.
use msgate.Prelude.{
  ◌≡◌, ◌⊎◌, refl, true, ◌&&◌, Option, none, some, List, [], ◌∷◌, ◌++◌, Text, codes, leb, take,
}
use msgate.Prelude.Results.{ok, raise, raised}
use msgate.Prelude.Ints.{Environ, pos}
use msgate.Prelude.Texts.{lower}
use msgate.Logs.{
  LogEntry, LogFile, Unicode, Query, search_logs, limit_of, searched_files, list_log_files,
  parse_line,
}
use msgate.Logs.Searching.{all_entries, search_logs-take}
use msgate.Logs.Lines.{format_line, parse_line-format_line}
use msgate.Logs.Retention.{OldFile, purge_old_logs, Overflows, Removes, purge_old_logs-Purges}

abbrev ascii : Unicode
ascii = record { is_decimal = λ c. leb b'0' c && leb c b'9'; lower = lower; upper = λ t. t }

abbrev first_line : Text
first_line = codes "2026-01-02T03:04:05 INFO [msgate.queue] delivered"

abbrev last_line : Text
last_line = codes "2026-01-02T03:04:06 ERROR [msgate.queue] [x] failed"

abbrev today : LogFile
today = record {
  name = codes "msgate-20260102.log";
  text = some (first_line ++ (10 ∷ (last_line ++ (10 ∷ []))));
}

abbrev unreadable : LogFile
unreadable = record { name = codes "msgate-20260101.log"; text = none }

abbrev directory : Option (List LogFile)
directory = some (unreadable ∷ today ∷ [])

abbrev search : Query
search = record { query = []; level = []; logger = codes "queue"; day = []; limit = pos 1 }

search_logs-take_example :
    search_logs ascii search directory
    ≡ take
        (limit_of ascii search)
        (all_entries ascii search (searched_files ascii search (list_log_files directory)))
search_logs-take_example = search_logs-take ascii search directory

abbrev last_entry : LogEntry
last_entry = record {
  ts = codes "2026-01-02T03:04:06";
  level = codes "ERROR";
  logger = codes "msgate.queue";
  message = codes "[x] failed";
  source = codes "msgate-20260102.log";
  raw = last_line;
}

last_found : search_logs ascii search directory ≡ last_entry ∷ []
unfolding search_logs
last_found = refl

parse_line-format_line_example :
    parse_line ascii
      (format_line (codes "2026-01-02T03:04:06") (codes "INFO") (codes "msgate") (codes "[x] y"))
      (codes "a.log")
    ≡ record {
      ts = codes "2026-01-02T03:04:06";
      level = codes "INFO";
      logger = codes "msgate";
      message = codes "[x] y";
      source = codes "a.log";
      raw =
          format_line (codes "2026-01-02T03:04:06") (codes "INFO") (codes "msgate") (codes "[x] y");
    }
parse_line-format_line_example =
    parse_line-format_line ascii (codes "2026-01-02T03:04:06") (codes "INFO") (codes "msgate")
      (codes "[x] y") (codes "a.log")
      (
        refl,
        (
          refl,
          (
            refl,
            (
              refl,
              (
                refl,
                (
                  refl,
                  (
                    refl,
                    (
                      refl,
                      (
                        refl,
                        (
                          refl,
                          (
                            refl,
                            (refl, (refl, (refl, (refl, (refl, (refl, (refl, (refl, tt)))))))),
                          ),
                        ),
                      ),
                    ),
                  ),
                ),
              ),
            ),
          ),
        ),
      )
      refl (refl, (refl, (refl, (refl, tt)))) refl
      (refl, (refl, (refl, (refl, (refl, (refl, tt)))))) (refl, (refl, (refl, (refl, (refl, tt)))))

-- A line break in the message: the line is not read as one.
broken_line :
    (parse_line ascii
      (format_line
        (codes "2026-01-02T03:04:06")
        (codes "INFO")
        (codes "msgate")
        (codes "x" ++ (10 ∷ codes "y")))
      (codes "a.log")).ts
    ≡ []
unfolding parse_line format_line
broken_line = refl

abbrev old_files : List OldFile
old_files =
    (record { file = today; mtime = some 5; deletable = true })
    ∷ (record { file = unreadable; mtime = some 3000000000000; deletable = true })
    ∷ []

abbrev nonsense : Environ
nonsense name = some (codes "-3")

purge_old_logs-Purges_example :
    Overflows nonsense 3000000000001 old_files ⊎ Removes nonsense 3000000000001 old_files
purge_old_logs-Purges_example = purge_old_logs-Purges nonsense 3000000000001 old_files

purges_both : purge_old_logs nonsense 300000000000000 (some old_files) ≡ (ok 2, some [])
unfolding purge_old_logs
purges_both = refl

abbrev for_ever : Environ
for_ever name = some (codes "1000000")

-- A million days of retention: nothing is purged, and the exception reaches the start.
out_of_range :
    purge_old_logs for_ever 1000000000 (some old_files)
    ≡ (raise (raised (codes "OverflowError")), some old_files)
unfolding purge_old_logs
out_of_range = refl
