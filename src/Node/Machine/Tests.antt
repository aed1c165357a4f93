-- ===== src/Node/Machine/Tests.antt =====
-- Runs of a node. One shows what two resumes of a transfer at the same time come to.
use triptorrent.Base.{◌≤◌, ◌≡◌, refl, true, false, List, [], ◌∷◌, Option, none, some, ok}
use triptorrent.Base.Bytes.{Bytes}
use triptorrent.Base.Text.{ascii}
use triptorrent.Node.Transfers.{
  Status, running, paused, failed, Transfer, VerifiedProgress, new_transfer, count_active, get_row,
  get_transfer,
}
use triptorrent.Node.Held.{is_busy}
use triptorrent.Node.Runtime.{
  Runtime, fetch_returned, finish, unusable, stopped, new_worker, pause_transfer, find_worker,
  resume_transfer,
}
use triptorrent.Node.Tasks.{
  Event, fetch, resume, pause, returned, move, progress, finished, run, resumes_apart, first_node,
}
use triptorrent.Node.Handlers.{working}
use triptorrent.Node.Pause.{pause_transfer-finish}
use triptorrent.Node.Machine.Runs.{transfers_final, transfers_single, workers_busy}

abbrev content : Bytes
content = ascii "aa"

-- A download begins, and its handler ends.
abbrev start : List Event
start = fetch content true ∷ move ∷ move ∷ move ∷ move ∷ []

abbrev fetching : Runtime
fetching = (run start (first_node true 2)).runtime

-- Its fetch returns, and what it fetched is of no use.
abbrev to_end : List Event
to_end =
    fetch content true
    ∷ move
    ∷ move
    ∷ move
    ∷ move
    ∷ returned 1
    ∷ finished 1 (unusable (ascii "no"))
    ∷ []

abbrev some_progress : VerifiedProgress
some_progress = record {
  bytes_total = 9;
  verified_bytes = 3;
  verified_chunks = 1;
  total_chunks = 3;
  provider_count = 1;
  retry_count = 0;
  rejected_chunks = 0;
}

-- A download of the same content begins while the observer of the first has a report to write.
abbrev again : List Event
again = fetch content true ∷ move ∷ progress 1 some_progress 0 ∷ move ∷ []

abbrev failed_row : Transfer
failed_row = record (new_transfer 1 content true) { status = failed; error = some (ascii "no") }

apart_to_end : resumes_apart to_end (first_node true 2) ≡ true
unfolding resumes_apart
apart_to_end = refl

apart_again : resumes_apart again (run to_end (first_node true 2)) ≡ true
unfolding resumes_apart run
apart_again = refl

apart_start : resumes_apart start (first_node true 2) ≡ true
unfolding resumes_apart
apart_start = refl

has_failed : get_transfer 1 (run to_end (first_node true 2)).runtime.table ≡ some failed_row
unfolding run get_row
has_failed = refl

transfers_final_example :
    get_transfer 1 (run again (run to_end (first_node true 2))).runtime.table ≡ some failed_row
transfers_final_example =
    transfers_final true 2 to_end again 1 failed_row apart_to_end apart_again has_failed refl

transfers_single_example : count_active content fetching.table.rows ≤ 1
transfers_single_example = transfers_single true 2 start content apart_start

is_there : get_transfer 1 fetching.table ≡ some (new_transfer 1 content true)
unfolding run get_row
is_there = refl

at_work : working fetching 1 ≡ true
unfolding run find_worker get_row
at_work = refl

workers_busy_example : is_busy running ≡ true
workers_busy_example =
    workers_busy true 2 start 1 (new_transfer 1 content true) apart_start is_there at_work

-- Two resumes of a paused transfer, both past the check: the first one's download ends, and then
-- the second writes `running` over the end.
abbrev overlapping : List Event
overlapping =
    fetch content true
    ∷ move
    ∷ move
    ∷ move
    ∷ move
    ∷ pause 1
    ∷ returned 1
    ∷ finished 1 (stopped (ascii "cut"))
    ∷ resume 1
    ∷ resume 1
    ∷ move
    ∷ move
    ∷ returned 1
    ∷ finished 1 (unusable (ascii "no"))
    ∷ []

abbrev status_of : Option Transfer → Option Status
status_of none = none
status_of (some transfer) = some transfer.status

overlaps : resumes_apart overlapping (first_node true 2) ≡ false
unfolding resumes_apart get_row
overlaps = refl

ended_first :
    status_of (get_transfer 1 (run overlapping (first_node true 2)).runtime.table) ≡ some failed
unfolding run get_row
ended_first = refl

runs_again :
    status_of (get_transfer 1 (run (move ∷ []) (run overlapping (first_node true 2))).runtime.table)
    ≡ some running
unfolding run get_row
runs_again = refl

thread : find_worker 1 fetching.downloads ≡ some (new_worker (new_transfer 1 content true))
unfolding run find_worker get_row
thread = refl

pause_transfer-finish_example :
    get_transfer 1
      (finish 1 (stopped (ascii "cut")) (fetch_returned 1 (pause_transfer 1 fetching).1)).table
    ≡ some (record (new_transfer 1 content true) {
      status = paused;
      error = none;
      current_rate_bps = 0;
    })
pause_transfer-finish_example =
    pause_transfer-finish 1 fetching (new_worker (new_transfer 1 content true))
      (new_transfer 1 content true) (ascii "cut") is_there refl thread

-- A resume and a fetch by themselves.
abbrev to_pause : List Event
to_pause =
    fetch content true
    ∷ move
    ∷ move
    ∷ move
    ∷ move
    ∷ pause 1
    ∷ returned 1
    ∷ finished 1 (stopped (ascii "cut"))
    ∷ []

abbrev at_rest : Runtime
at_rest = (run to_pause (first_node true 2)).runtime

resumes : (resume_transfer 1 at_rest).0 ≡ ok tt
unfolding resume_transfer run get_row
resumes = refl

abbrev at_first : Runtime
at_first = (first_node true 2).runtime
