-- ===== src/Node/Runtime.antt =====
-- `NodeRuntime` and `FetchControl`: how transfers are started, paused, resumed and finished. The map
-- `downloads` and the threads are one list of workers: an entry of the map and its thread share one
-- `FetchControl`. A worker whose fetch has returned has taken its entry out of the map and has yet
-- to record the outcome. Each handler is given as a whole; another may come between its parts, which
-- Node.Tasks has one by one. A content id in the table is taken to parse, a progress report comes with
-- the rate that the observer has worked out, and what concerns uploads is left out.
use triptorrent.Base.{
  ℕ, ◌+◌, ◌-◌, ◌%◌, ◌^◌, Bool, true, false, not, ◌||◌, List, [], ◌∷◌, Option, none, some, leb, ◌==◌,
  if◌then◌else◌, Result, ok, err, guard, ◌>>◌,
}
use triptorrent.Base.Bytes.{Bytes, bytes_eq}
use triptorrent.Node.Transfers.{
  Status, running, pausing, paused, interrupted, failed, Transfer, Table, VerifiedProgress,
  PersistentFetchStats, NodeError, no_bootstrap, already_stored, too_many_transfers,
  missing_transfer, active_worker, unknown_transfer, not_running, no_worker, not_paused, is_working,
  get_transfer, create_transfer, update_transfer, update_progress, set_transfer_status,
  complete_transfer, mark_running_interrupted, recoverable_transfers,
}

-- The states of a `FetchControl`.
pub data FetchState : Type 0 where
  fetch_running fetch_paused fetch_interrupted : FetchState

pub data FetchStopReason : Type 0 where
  by_pause by_interrupt : FetchStopReason

abbrev pub stop_reason : FetchState → Option FetchStopReason
stop_reason fetch_running = none
stop_reason fetch_paused = some by_pause
stop_reason fetch_interrupted = some by_interrupt

abbrev pub should_continue : FetchState → Bool
should_continue fetch_running = true
should_continue fetch_paused = false
should_continue fetch_interrupted = false

pub record Worker : Type 0 where
  pub transfer_id : ℕ
  pub content_id : Bytes
  pub control : FetchState

-- `content` holds the ids of the stored content.
pub record Runtime : Type 0 where
  pub bootstrap : Bool
  pub max_concurrent_transfers : ℕ
  pub content : List Bytes
  pub table : Table
  pub downloads : List Worker
  pub returned : List Worker
  pub active_downloads : ℕ
  pub bytes_downloaded : ℕ
  pub completed_transfers : ℕ
  pub failed_transfers : ℕ
  pub stopping : Bool

unfoldable pub find_worker : ℕ → List Worker → Option Worker
find_worker id [] = none
find_worker id (w ∷ ws) = if w.transfer_id == id then some w else find_worker id ws

unfoldable pub remove_worker : ℕ → List Worker → List Worker
remove_worker id [] = []
remove_worker id (w ∷ ws) =
    let rest = remove_worker id ws in if w.transfer_id == id then rest else w ∷ rest

-- `control.pause()` of the entry of a transfer, and `control.interrupt()` of all of them.
unfoldable pub pause_worker : ℕ → List Worker → List Worker
pause_worker id [] = []
pause_worker id (w ∷ ws) =
    (if w.transfer_id == id then record w { control = fetch_paused } else w) ∷ pause_worker id ws

unfoldable pub interrupt_workers : List Worker → List Worker
interrupt_workers [] = []
interrupt_workers (w ∷ ws) = record w { control = fetch_interrupted } ∷ interrupt_workers ws

unfoldable pub is_stored : Bytes → List Bytes → Bool
is_stored content_id [] = false
is_stored content_id (c ∷ cs) = bytes_eq c content_id || is_stored content_id cs

-- `fetch_add(1)` and `fetch_sub(1)`, which wrap around.
abbrev pub add_one : ℕ → ℕ
add_one n = (n + 1) % 2 ^ 64

abbrev pub sub_one : ℕ → ℕ
sub_one n = (n + (2 ^ 64 - 1)) % 2 ^ 64

-- A handler's answer, and the state that it leaves.
abbrev pub Answer : Type 0 → Type 0
Answer A = Result NodeError A × Runtime

unfoldable pub prepare_download : Transfer → Runtime → Result NodeError Table
unfolding update_transfer
prepare_download transfer r = do
  guard r.bootstrap no_bootstrap
  update_transfer transfer.id running transfer.bytes_total transfer.bytes_transferred
      transfer.resumed_chunks none r.table

abbrev pub new_worker : Transfer → Worker
new_worker transfer = record {
  transfer_id = transfer.id;
  content_id = transfer.content_id;
  control = fetch_running;
}

-- The entry of the map, and the thread. The source replaces the entry of a worker that is there
-- before it fails.
unfoldable pub insert_download : Transfer → Runtime → Answer (Unit {0})
unfolding find_worker remove_worker
insert_download transfer r =
    let w = new_worker transfer in
    elim (find_worker transfer.id r.downloads) [
      | some _ ↦
          (err active_worker, record r { downloads = w ∷ remove_worker transfer.id r.downloads })
      | none ↦ (
        ok tt,
        record r { downloads = w ∷ r.downloads; active_downloads = add_one r.active_downloads },
      )
    ]

unfoldable pub spawn_download : Transfer → Runtime → Answer (Unit {0})
unfolding prepare_download insert_download
spawn_download transfer r = elim (prepare_download transfer r) [
  | err why ↦ (err why, r)
  | ok table ↦ insert_download transfer (record r { table = table })
]

unfoldable pub start_fetch : Bytes → Bool → Runtime → Answer ℕ
unfolding is_stored create_transfer spawn_download
start_fetch content_id share r =
    if not r.bootstrap
    then (err no_bootstrap, r)
    else if is_stored content_id r.content
    then (err already_stored, r)
    else if leb r.max_concurrent_transfers r.active_downloads
    then (err too_many_transfers, r)
    else elim (create_transfer content_id share r.table) [
      | err why ↦ (err why, r)
      | ok made ↦
          let created = record r { table = made.1 } in
          elim (get_transfer made.0 made.1) [
            | none ↦ (err missing_transfer, created)
            | some transfer ↦
                let spawned = spawn_download transfer created in
                ((do spawned.0; ok made.0), spawned.1)
          ]
    ]

-- The part of `pause_transfer` that holds the lock of the map.
unfoldable pub pause_locked : ℕ → Runtime → Answer (Unit {0})
unfolding find_worker pause_worker set_transfer_status
pause_locked id r = elim (find_worker id r.downloads) [
  | none ↦ (err no_worker, r)
  | some w ↦ (
    ok tt,
    record r {
      downloads = pause_worker id r.downloads;
      table = set_transfer_status id pausing none r.table;
    },
  )
]

unfoldable pub pause_transfer : ℕ → Runtime → Answer (Unit {0})
unfolding pause_locked
pause_transfer id r = elim (get_transfer id r.table) [
  | none ↦ (err unknown_transfer, r)
  | some transfer ↦
      if not (is_working transfer.status) then (err not_running, r) else pause_locked id r
]

abbrev pub is_paused : Status → Bool
is_paused paused = true
is_paused Status.running = false
is_paused Status.pausing = false
is_paused Status.interrupted = false
is_paused Status.completed = false
is_paused Status.failed = false

unfoldable pub resume_transfer : ℕ → Runtime → Answer (Unit {0})
unfolding spawn_download
resume_transfer id r =
    if leb r.max_concurrent_transfers r.active_downloads
    then (err too_many_transfers, r)
    else elim (get_transfer id r.table) [
      | none ↦ (err unknown_transfer, r)
      | some transfer ↦
          if not (is_paused transfer.status) then (err not_paused, r) else spawn_download transfer r
    ]

-- What `fetch` and `complete_download` came to.
pub data Outcome : Type 0 where
  stored : ℕ → ℕ → PersistentFetchStats → Outcome
  unusable : Bytes → Outcome
  stopped : Bytes → Outcome

unfoldable pub fail_transfer : ℕ → Bytes → Runtime → Runtime
unfolding set_transfer_status
fail_transfer id message r = record r {
  table = set_transfer_status id failed (some message) r.table;
  failed_transfers = add_one r.failed_transfers;
}

-- `let _ = ..`: an error leaves the table as it is.
abbrev pub or_same : Table → Result NodeError Table → Table
or_same t (ok t') = t'
or_same t (err why) = t

unfoldable pub finish_download : Worker → ℕ → ℕ → PersistentFetchStats → Runtime → Runtime
unfolding complete_transfer
finish_download w content_length chunks stats r = record r {
  content = w.content_id ∷ r.content;
  table = or_same r.table (complete_transfer w.transfer_id content_length chunks stats r.table);
  bytes_downloaded = (r.bytes_downloaded + content_length) % 2 ^ 64;
  completed_transfers = add_one r.completed_transfers;
}

unfoldable pub finish_stopped_download : Worker → Bytes → Runtime → Runtime
unfolding set_transfer_status fail_transfer
finish_stopped_download w message r = elim (stop_reason w.control) [
  | none ↦ fail_transfer w.transfer_id message r
  | some reason ↦ elim reason [
    | by_pause ↦ record r { table = set_transfer_status w.transfer_id paused none r.table }
    | by_interrupt ↦ record r { table = set_transfer_status w.transfer_id interrupted none r.table }
  ]
]

abbrev pub record_outcome : Worker → Outcome → Runtime → Runtime
unfolding finish_download finish_stopped_download fail_transfer
record_outcome w (stored content_length chunks stats) r =
    finish_download w content_length chunks stats r
record_outcome w (unusable message) r = fail_transfer w.transfer_id message r
record_outcome w (stopped message) r = finish_stopped_download w message r

-- The thread of `run_download`, once `fetch` has returned, takes its entry out of the map.
unfoldable pub fetch_returned : ℕ → Runtime → Runtime
unfolding find_worker remove_worker
fetch_returned id r = elim (find_worker id r.downloads) [
  | none ↦ r
  | some w ↦ record r { downloads = remove_worker id r.downloads; returned = w ∷ r.returned }
]

-- It records the outcome and ends.
unfoldable pub finish : ℕ → Outcome → Runtime → Runtime
unfolding finish_download finish_stopped_download fail_transfer find_worker remove_worker
finish id outcome r = elim (find_worker id r.returned) [
  | none ↦ r
  | some w ↦
      let recorded = record_outcome w outcome r in
      record recorded {
        returned = remove_worker id recorded.returned;
        active_downloads = sub_one recorded.active_downloads;
      }
]

-- The observer of a transfer's `FetchControl`, with the rate that it has worked out.
unfoldable pub report : ℕ → VerifiedProgress → ℕ → Runtime → Runtime
unfolding update_progress
report id progress rate r = record r {
  table = or_same r.table (update_progress id progress rate r.table);
}

-- The two parts of `shutdown`: the lock of the map, and the statement.
unfoldable pub interrupt_downloads : Runtime → Runtime
unfolding interrupt_workers
interrupt_downloads r = record r { stopping = true; downloads = interrupt_workers r.downloads }

unfoldable pub mark_interrupted : Runtime → Runtime
unfolding mark_running_interrupted
mark_interrupted r = record r { table = mark_running_interrupted r.table }

unfoldable pub shutdown : Runtime → Runtime
unfolding interrupt_downloads mark_interrupted
shutdown r = mark_interrupted (interrupt_downloads r)

unfoldable pub spawn_all : List Transfer → Runtime → Result NodeError Runtime
unfolding spawn_download
spawn_all [] r = ok r
spawn_all (transfer ∷ rest) r =
    let spawned = spawn_download transfer r in do spawned.0; spawn_all rest spawned.1

abbrev pub fresh_runtime : Bool → ℕ → List Bytes → Table → Runtime
fresh_runtime bootstrap max_concurrent content table = record {
  bootstrap = bootstrap;
  max_concurrent_transfers = max_concurrent;
  content = content;
  table = table;
  downloads = [];
  returned = [];
  active_downloads = 0;
  bytes_downloaded = 0;
  completed_transfers = 0;
  failed_transfers = 0;
  stopping = false;
}

-- `create` on the index that an earlier run has left, and its part before the downloads of the
-- interrupted transfers.
unfoldable pub recover : Bool → ℕ → List Bytes → Table → List Transfer × Runtime
unfolding recoverable_transfers
recover bootstrap max_concurrent content table =
    let recovered = recoverable_transfers table in
    (
      if bootstrap then recovered.0 else [],
      fresh_runtime bootstrap max_concurrent content recovered.1,
    )

unfoldable pub create : Bool → ℕ → List Bytes → Table → Result NodeError Runtime
unfolding recover spawn_all
create bootstrap max_concurrent content table =
    let started = recover bootstrap max_concurrent content table in spawn_all started.0 started.1
