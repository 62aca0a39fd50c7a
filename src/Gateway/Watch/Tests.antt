-- ===== src/Gateway/Watch/Tests.antt =====
-- apps/gateway/src/file-watch.ts: scans of a folder with one case and one file that is hidden.
use qev_platform.Base.{ℕ, List, ◌≡◌, refl, true, none, some, [], ◌∷◌, ◌<>◌, decimal}
use qev_platform.Ops.Matching.{match_case, decide_match, ranked_candidates}
use qev_platform.Gateway.Watch.{
  Stat, FileNode, Entries, plain_file, directory, no_more, entry, FileWatch, ended, stopped,
  WatchOptions, watch_of, then_walk, send, send_matched, file_event, ingest_file, visit_stat, visit,
  walk, scan_once,
}
use qev_platform.Gateway.Watch.Scans.{IsSettled, AreSettled, scan_once-twice}
use qev_platform.Gateway.Watch.Captured.{Captured, ingest_file-Captured, scans, failed-passed_over}

abbrev options : WatchOptions
options = record {
  watch_dir = "/in";
  tenant_id = "t1";
  known_case_ids = [];
  accepts = λ e. true;
  sha256_of = λ s. "d";
  lower = λ s. s;
  new_id = λ n. "fwatch_" <> decimal n;
  iso = decimal;
}

abbrev stat : Stat
stat = record { size = 3; mtime_ms = 100 }

abbrev picture : FileNode
picture = record { name = "a.jpg"; stat = some stat; content = some "abc" }

abbrev hidden : FileNode
hidden = record { name = ".part"; stat = none; content = none }

abbrev folder : Entries
folder =
    entry (directory "JOB-1" (entry (plain_file picture) no_more))
      (entry (plain_file hidden) no_more)

abbrev blank : FileWatch
blank = record { seen = []; sent = [] }

settled : AreSettled 5000 folder
unfolding AreSettled IsSettled
settled = (
  (λ shown. ((λ seen st e. let same : stat ≡ st = cc in rw (← same) refl), tt)),
  ((λ shown. absurd cc), tt),
)

folder_scanned :
    walk options 5000 "/in" "" folder blank ≡ ended (scan_once options 5000 folder blank)
unfolding walk visit visit_stat ingest_file send_matched send file_event then_walk scan_once
    match_case decide_match ranked_candidates
folder_scanned = refl

scan_once-twice_example :
    scan_once options 9000 folder (scan_once options 5000 folder blank)
    ≡ scan_once options 5000 folder blank
scan_once-twice_example =
    scan_once-twice options 5000 9000 folder blank (scan_once options 5000 folder blank) settled
      folder_scanned

ingest_file-Captured_example : Captured options "JOB-1/a.jpg" "a.jpg" blank (
    watch_of
      (ingest_file options 5000 "/in/JOB-1/a.jpg" "JOB-1/a.jpg" "a.jpg" 3 (some "abc") blank))
ingest_file-Captured_example =
    ingest_file-Captured options 5000 "/in/JOB-1/a.jpg" "JOB-1/a.jpg" "a.jpg" 3 "abc" blank

abbrev unread : FileNode
unread = record picture { content = none }

abbrev after : FileWatch
after = record { seen = "/in/JOB-1/a.jpg:3:100" ∷ []; sent = [] }

unread_stopped :
    visit_stat options 5000 "/in/JOB-1/a.jpg" "JOB-1/a.jpg" unread (some stat) blank ≡ stopped after
unfolding visit_stat ingest_file decimal
unread_stopped = refl

abbrev both_scans : List (ℕ × Entries)
both_scans = (6000, folder) ∷ (7000, no_more) ∷ []

failed-passed_over_example :
    visit_stat options 9000 "/in/JOB-1/a.jpg" "JOB-1/a.jpg" unread
      (some stat)
      (scans options both_scans after)
    ≡ ended (scans options both_scans after)
failed-passed_over_example =
    failed-passed_over options 5000 "/in/JOB-1/a.jpg" "JOB-1/a.jpg" unread stat blank after
      unread_stopped both_scans 9000
