-- ===== src/Node/Machine/Runs.antt =====
-- The runs of a node on which no resume of a transfer begins while a handler is at work on it.
use triptorrent.Base.{
  ℕ, ◌≤◌, ◌≡◌, ◌≢◌, inl, inr, refl, sym, ◌∙◌, subst, Bool, true, false, not, List, [], ◌∷◌, All,
  Option, none, some, arith, Bool-cases,
}
use triptorrent.Base.Bytes.{Bytes}
use triptorrent.Node.Transfers.{Transfer, is_active, count_active, get_transfer}
use triptorrent.Node.Rows.{Unique, get_row_id}
use triptorrent.Node.Held.{is_busy, Final, All-get_row}
use triptorrent.Node.Runtime.{Runtime, find_worker, recover, is_paused}
use triptorrent.Node.Tasks.{
  preparing, held_by, Node, Event, fetch, resume, pause, returned, move, give_up, switch, progress,
  finished, interrupt, mark, restart, begin_all, begin_resume, step, run, alone, resumes_apart,
  first_node,
}
use triptorrent.Node.Handlers.{
  working, pause_locked-Leads, interrupt_downloads-Leads, mark_interrupted-Leads,
}
use triptorrent.Node.Handlers.Finish.{report-Leads, fetch_returned-Leads, finish-Leads}
use triptorrent.Node.Handlers.Idle.{
  Idle, pause_locked-Calm, interrupt_downloads-Calm, mark_interrupted-Calm, fetch_returned-Calm,
  report-Calm, finish-Calm,
}
use triptorrent.Node.Handlers.Spawn.{Fit}
use triptorrent.Node.Handlers.Start.{paused-Idle}
use triptorrent.Node.Handlers.Recover.{recover-Leads, recover-Idle}
use triptorrent.Node.Machine.{
  Apart, Distinct, IsNode, other_step, move_first-IsNode, rotate-IsNode, drop_first-IsNode,
  tasks_map, no_rival,
}

first_node-IsNode :
    (bootstrap : Bool) (max_concurrent : ℕ) → IsNode (first_node bootstrap max_concurrent)
unfolding find_worker count_active Distinct
first_node-IsNode bootstrap max_concurrent = record {
  well = record {
    held = record {
      unique = tt;
      below = tt;
      workers_below = λ id v. cc;
      busy = tt;
      single = λ c. omega arith;
    };
    apart = λ id v. refl;
  };
  fit = tt;
  distinct = tt;
}

-- The tasks of a new start.
begin_all-Fit :
    (r : Runtime) (transfers : List Transfer)
    → All (λ transfer. Idle r false transfer.id) transfers
    → All (Fit r) (begin_all transfers)
unfolding begin_all
begin_all-Fit r [] h = tt
begin_all-Fit r (transfer ∷ rest) (i, h) = (i, begin_all-Fit r rest h)

begin_all-Apart :
    (transfer : Transfer) (rest : List Transfer)
    → All (λ other. other.id ≢ transfer.id) rest
    → All (Apart (preparing transfer)) (begin_all rest)
unfolding begin_all
begin_all-Apart transfer [] h = tt
begin_all-Apart transfer (other ∷ rest) (away, h) = (
  λ id here there.
      let this : transfer.id ≡ id = ground arith in
      let that : other.id ≡ id = ground arith in away (that ∙ sym this),
  begin_all-Apart transfer rest h,
)

begin_all-Distinct : (transfers : List Transfer) → Unique transfers → Distinct (begin_all transfers)
unfolding begin_all Distinct
begin_all-Distinct [] u = tt
begin_all-Distinct (transfer ∷ rest) (apart, u) =
    (begin_all-Apart transfer rest apart, begin_all-Distinct rest u)

resumed-IsNode :
    (id : ℕ) (n : Node) (o : Option Transfer)
    → get_transfer id n.runtime.table ≡ o
    → IsNode n
    → held_by id n.tasks ≡ false
    → IsNode (record n { tasks = begin_resume o n.tasks })
unfolding Distinct
resumed-IsNode id n none e h free = record { well = h.well; fit = h.fit; distinct = h.distinct }
resumed-IsNode id n (some transfer) found h free = elim (Bool-cases (is_paused transfer.status)) [
  | inl stopped ↦ rw stopped (record {
    well = h.well;
    fit = (paused-Idle id n.runtime transfer h.well found stopped, h.fit);
    distinct = (
      no_rival transfer id n.tasks (get_row_id id n.runtime.table.rows transfer found) free,
      h.distinct,
    );
  })
  | inr other ↦ rw other (record { well = h.well; fit = h.fit; distinct = h.distinct })
]

-- A step keeps what holds of a node, and leaves finished transfers alone.
step-IsNode :
    (e : Event) (n : Node)
    → IsNode n
    → alone e n ≡ true
    → IsNode (step e n) × Final n.runtime.table (step e n).runtime.table
unfolding step Distinct alone held_by
step-IsNode (fetch content_id share) n h a = (
  record {
    well = h.well;
    fit = (tt, h.fit);
    distinct = (tasks_map n.tasks (λ task _ id here there. cc) h.fit, h.distinct);
  },
  λ id row found _. found,
)
step-IsNode (resume id) n h a =
    let others : not (held_by id n.tasks) ≡ true = a in
    let free : held_by id n.tasks ≡ false = ground arith in
    (resumed-IsNode id n (get_transfer id n.runtime.table) refl h free, λ j row found _. found)
step-IsNode move n h a =
    let (well, leads) = move_first-IsNode n.tasks n.runtime h in (well, leads.1)
step-IsNode give_up n h a = (drop_first-IsNode n.tasks n.runtime h, λ id row found _. found)
step-IsNode switch n h a = (rotate-IsNode n.tasks n.runtime h, λ id row found _. found)
step-IsNode (pause id) n h a =
    let leads = pause_locked-Leads id n.runtime h.well in
    (other_step n _ h leads (pause_locked-Calm id n.runtime), leads.1)
step-IsNode (returned id) n h a =
    let leads = fetch_returned-Leads id n.runtime h.well in
    (other_step n _ h leads (fetch_returned-Calm id n.runtime), leads.1)
step-IsNode (progress id verified rate) n h a =
    let leads = report-Leads id verified rate n.runtime h.well in
    (other_step n _ h leads (report-Calm id verified rate n.runtime), leads.1)
step-IsNode (finished id outcome) n h a =
    let leads = finish-Leads id outcome n.runtime h.well in
    (other_step n _ h leads (finish-Calm id outcome n.runtime), leads.1)
step-IsNode interrupt n h a =
    let leads = interrupt_downloads-Leads n.runtime h.well in
    (other_step n _ h leads (interrupt_downloads-Calm n.runtime), leads.1)
step-IsNode mark n h a =
    let leads = mark_interrupted-Leads n.runtime h.well in
    (other_step n _ h leads (mark_interrupted-Calm n.runtime), leads.1)
step-IsNode (restart bootstrap max_concurrent) n h a =
    let started = recover bootstrap max_concurrent n.runtime.content n.runtime.table in
    let (well, final) = recover-Leads bootstrap max_concurrent n.runtime h.well in
    let (idle, unique) = recover-Idle bootstrap max_concurrent n.runtime h.well in
    (
      record {
        well = well;
        fit = begin_all-Fit started.1 started.0 idle;
        distinct = begin_all-Distinct started.0 unique;
      },
      final,
    )

run-IsNode :
    (es : List Event) (n : Node)
    → IsNode n
    → resumes_apart es n ≡ true
    → IsNode (run es n) × Final n.runtime.table (run es n).runtime.table
unfolding run resumes_apart
run-IsNode [] n h a = (h, λ id row found _. found)
run-IsNode (e ∷ es) n h a =
    let now : alone e n ≡ true = ground (arith, a) in
    let later : resumes_apart es (step e n) ≡ true = ground (arith, a) in
    let (next, final) = step-IsNode e n h now in
    let (last, finals) = run-IsNode es (step e n) next later in
    (last, λ id row found ended. finals id row (final id row found ended) ended)

-- Take any run of a node with a new index, its handlers cut at every statement and lock and mixed in
-- any order with threads, shutdowns and restarts, on which no resume begins while a handler is at
-- work on the same transfer. A transfer that is completed or has failed keeps its whole row.
pub transfers_final :
    (bootstrap : Bool) (max_concurrent : ℕ) (before after : List Event) (id : ℕ) (row : Transfer)
    → resumes_apart before (first_node bootstrap max_concurrent) ≡ true
    → resumes_apart after (run before (first_node bootstrap max_concurrent)) ≡ true
    → get_transfer id (run before (first_node bootstrap max_concurrent)).runtime.table ≡ some row
    → is_active row.status ≡ false
    → get_transfer id (run after (run before (first_node bootstrap max_concurrent))).runtime.table
      ≡ some row
transfers_final bootstrap max_concurrent before after id row a b found ended =
    let (well, _) =
      run-IsNode before (first_node bootstrap max_concurrent)
        (first_node-IsNode bootstrap max_concurrent) a in
    (run-IsNode after _ well b).1 id row found ended

-- On the same runs no content has two active transfers.
pub transfers_single :
    (bootstrap : Bool) (max_concurrent : ℕ) (es : List Event) (content_id : Bytes)
    → resumes_apart es (first_node bootstrap max_concurrent) ≡ true
    → count_active content_id (run es (first_node bootstrap max_concurrent)).runtime.table.rows ≤ 1
transfers_single bootstrap max_concurrent es content_id a =
    (run-IsNode es _ (first_node-IsNode bootstrap max_concurrent) a).0.well.held.single content_id

-- On the same runs the transfer of every thread, whether its entry is still in the map or not, is
-- running, pausing or interrupted: a paused transfer has no thread, nor has one that is completed
-- or has failed.
pub workers_busy :
    (bootstrap : Bool) (max_concurrent : ℕ) (es : List Event) (id : ℕ) (row : Transfer)
    → resumes_apart es (first_node bootstrap max_concurrent) ≡ true
    → get_transfer id (run es (first_node bootstrap max_concurrent)).runtime.table ≡ some row
    → working (run es (first_node bootstrap max_concurrent)).runtime id ≡ true
    → is_busy row.status ≡ true
workers_busy bootstrap max_concurrent es id row a found works =
    let (well, _) = run-IsNode es _ (first_node-IsNode bootstrap max_concurrent) a in
    let r = (run es (first_node bootstrap max_concurrent)).runtime in
    All-get_row (λ row'. working r row'.id ≡ true → is_busy row'.status ≡ true) r.table.rows id row
      well.well.held.busy found
      (subst (λ i. working r i ≡ true) (sym (get_row_id id r.table.rows row found)) works)
