-- ===== src/Node/Tasks.antt =====
-- The handlers of `start_fetch`, `resume_transfer` and `create` cut at the places where another thread
-- may come between: a task is what a handler that has begun has yet to do, and it advances by one
-- statement of the store or one use of the lock at a time.
use triptorrent.Base.{
  ℕ, Bool, true, false, not, ◌&&◌, List, [], ◌∷◌, ◌++◌, Option, none, some, ◌==◌, if◌then◌else◌, ok,
  err,
}
use triptorrent.Base.Bytes.{Bytes}
use triptorrent.Node.Transfers.{Transfer, VerifiedProgress, get_transfer, create_transfer}
use triptorrent.Node.Runtime.{
  Runtime, Outcome, prepare_download, insert_download, is_paused, pause_locked, fetch_returned,
  report, finish, interrupt_downloads, mark_interrupted, recover, fresh_runtime,
}

-- A handler that is about to insert the row of a content, to read the row that it has inserted, to
-- write `running`, or to insert the entry of the map.
pub data Task : Type 0 where
  creating : Bytes → Bool → Task
  created : ℕ → Task
  preparing entering : Transfer → Task

-- One step of a task, and what it has yet to do after it.
unfoldable pub advance : Task → Runtime → Option Task × Runtime
unfolding create_transfer prepare_download insert_download
advance (creating content_id share) r = elim (create_transfer content_id share r.table) [
  | err why ↦ (none, r)
  | ok made ↦ (some (created made.0), record r { table = made.1 })
]
advance (created id) r = elim (get_transfer id r.table) [
  | none ↦ (none, r)
  | some transfer ↦ (some (preparing transfer), r)
]
advance (preparing transfer) r = elim (prepare_download transfer r) [
  | err why ↦ (none, r)
  | ok table ↦ (some (entering transfer), record r { table = table })
]
advance (entering transfer) r = (none, (insert_download transfer r).1)

-- A task is at work on a transfer.
abbrev pub holds : ℕ → Task → Bool
holds id (creating content_id share) = false
holds id (created j) = j == id
holds id (preparing transfer) = transfer.id == id
holds id (entering transfer) = transfer.id == id

unfoldable pub held_by : ℕ → List Task → Bool
held_by id [] = false
held_by id (task ∷ tasks) = if holds id task then true else held_by id tasks

-- A node with the handlers that are under way. The one that moves next is the first.
pub record Node : Type 0 where
  pub runtime : Runtime
  pub tasks : List Task

-- What may happen to a node: a request begins, the first handler moves on or fails, another becomes
-- the first, a thread reports or ends, the process ends, and starts on the index that is left.
pub data Event : Type 0 where
  fetch : Bytes → Bool → Event
  resume pause returned : ℕ → Event
  move give_up switch : Event
  progress : ℕ → VerifiedProgress → ℕ → Event
  finished : ℕ → Outcome → Event
  interrupt mark : Event
  restart : Bool → ℕ → Event

abbrev pub and_then : Option Task → List Task → List Task
and_then none tasks = tasks
and_then (some task) tasks = task ∷ tasks

unfoldable pub begin_all : List Transfer → List Task
begin_all [] = []
begin_all (transfer ∷ rest) = preparing transfer ∷ begin_all rest

-- The checks of `resume_transfer` on the row that it has read.
abbrev pub begin_resume : Option Transfer → List Task → List Task
begin_resume none tasks = tasks
begin_resume (some transfer) tasks =
    if is_paused transfer.status then preparing transfer ∷ tasks else tasks

unfoldable pub move_first : List Task → Runtime → Node
unfolding advance
move_first [] r = record { runtime = r; tasks = [] }
move_first (task ∷ tasks) r =
    let moved = advance task r in record { runtime = moved.1; tasks = and_then moved.0 tasks }

abbrev pub drop_first : List Task → List Task
drop_first [] = []
drop_first (task ∷ tasks) = tasks

abbrev pub rotate : List Task → List Task
rotate [] = []
rotate (task ∷ tasks) = tasks ++ task ∷ []

-- The checks of `start_fetch`, the check of the limit in `resume_transfer` and the status that
-- `pause_transfer` reads may have any answer, since the reads may be long past when the handler goes
-- on. After a restart the recovered transfers are taken up in any order, and one may fail alone.
unfoldable pub step : Event → Node → Node
unfolding begin_all move_first recover pause_locked fetch_returned report finish interrupt_downloads
    mark_interrupted
step (fetch content_id share) n = record n { tasks = creating content_id share ∷ n.tasks }
step (resume id) n = record n { tasks = begin_resume (get_transfer id n.runtime.table) n.tasks }
step move n = move_first n.tasks n.runtime
step give_up n = record n { tasks = drop_first n.tasks }
step switch n = record n { tasks = rotate n.tasks }
step (pause id) n = record n { runtime = (pause_locked id n.runtime).1 }
step (returned id) n = record n { runtime = fetch_returned id n.runtime }
step (progress id verified rate) n = record n { runtime = report id verified rate n.runtime }
step (finished id outcome) n = record n { runtime = finish id outcome n.runtime }
step interrupt n = record n { runtime = interrupt_downloads n.runtime }
step mark n = record n { runtime = mark_interrupted n.runtime }
step (restart bootstrap max_concurrent) n =
    let started = recover bootstrap max_concurrent n.runtime.content n.runtime.table in
    record { runtime = started.1; tasks = begin_all started.0 }

unfoldable pub run : List Event → Node → Node
unfolding step
run [] n = n
run (e ∷ es) n = run es (step e n)

-- No resume begins while a handler is at work on the same transfer.
unfoldable pub alone : Event → Node → Bool
unfolding held_by
alone (resume id) n = not (held_by id n.tasks)
alone e n = true

unfoldable pub resumes_apart : List Event → Node → Bool
unfolding step alone
resumes_apart [] n = true
resumes_apart (e ∷ es) n = alone e n && resumes_apart es (step e n)

-- A node with a new index.
abbrev pub first_node : Bool → ℕ → Node
first_node bootstrap max_concurrent = record {
  runtime = fresh_runtime bootstrap max_concurrent [] (record { rows = []; next_id = 1 });
  tasks = [];
}
