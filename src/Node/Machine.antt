-- ===== src/Node/Machine.antt =====
-- What holds of a node with the handlers that are under way, and that every step keeps it.
mod Runs
mod Alone
mod Tests
use triptorrent.Base.{
  ℕ, ◌+◌, ◌≤◌, ◌<◌, ◌≡◌, ◌⊎◌, inl, inr, refl, sym, ap, ◌∙◌, subst, Bool, true, false, not, ◌&&◌,
  List, [], ◌∷◌, ◌++◌, All, All-snoc, Option, none, some, ◌==◌, if◌then◌else◌, arith, Bool-cases,
}
use triptorrent.Node.Transfers.{Transfer, get_transfer}
use triptorrent.Node.Rows.{Unique}
use triptorrent.Node.Runtime.{Runtime, is_paused, recover}
use triptorrent.Node.Tasks.{
  Task, creating, created, preparing, entering, advance, holds, held_by, Node, Event, fetch, resume,
  pause, returned, move, give_up, switch, progress, finished, interrupt, mark, restart, and_then,
  begin_all, begin_resume, move_first, drop_first, rotate, step, alone,
}
use triptorrent.Node.Handlers.{
  if-cases, option-cases, working, WellFormed, Leads, Leads-same, pause_locked-Leads,
  interrupt_downloads-Leads, mark_interrupted-Leads,
}
use triptorrent.Node.Handlers.Finish.{report-Leads, fetch_returned-Leads, finish-Leads}
use triptorrent.Node.Handlers.Idle.{
  Idle, Stays, Idle-Stays, Calm, pause_locked-Calm, interrupt_downloads-Calm, mark_interrupted-Calm,
  fetch_returned-Calm, report-Calm, finish-Calm,
}
use triptorrent.Node.Handlers.Spawn.{Fit, Next, Advanced, preparing-Advanced, created-Advanced}
use triptorrent.Node.Handlers.Insert.{entering-Advanced}
use triptorrent.Node.Handlers.Start.{paused-Idle, creating-Advanced}
use triptorrent.Node.Handlers.Recover.{recover-Leads, recover-Idle}

-- Two tasks are not at work on the same transfer.
abbrev pub Apart : Task → Task → Type 0
Apart a b = (id : ℕ) → holds id a ≡ true → holds id b ≡ true → ⊥

unfoldable pub Distinct : List Task → Type 0
Distinct [] = Unit
Distinct (task ∷ tasks) = All (Apart task) tasks × Distinct tasks

pub record IsNode (n : Node) : Type 0 where
  pub well : WellFormed n.runtime
  pub fit : All (Fit n.runtime) n.tasks
  pub distinct : Distinct n.tasks

tasks_map :
    {P : Task → Type 0} {Q : Task → Type 0} (tasks : List Task)
    → ((task : Task) → P task → Q task)
    → All P tasks
    → All Q tasks
tasks_map [] f h = tt
tasks_map (task ∷ tasks) f (q, h) = (f task q, tasks_map tasks f h)

tasks_both :
    (P : Task → Type 0) (Q : Task → Type 0) (tasks : List Task)
    → All P tasks
    → All Q tasks
    → All (λ task. P task × Q task) tasks
tasks_both P Q [] h k = tt
tasks_both P Q (task ∷ tasks) (p, h) (q, k) = ((p, q), tasks_both P Q tasks h k)

-- A task stays fit in a step that leaves its transfer alone.
Fit-Stays :
    (task : Task) (r r' : Runtime)
    → ((id : ℕ) → holds id task ≡ true → working r id ≡ false → Stays id r r')
    → Fit r task
    → Fit r' task
Fit-Stays (creating content_id share) r r' s i = tt
Fit-Stays (created id) r r' s i = Idle-Stays false id r r' i (s id (ground arith) i.unworked)
Fit-Stays (preparing transfer) r r' s i =
    Idle-Stays false transfer.id r r' i (s transfer.id (ground arith) i.unworked)
Fit-Stays (entering transfer) r r' s i =
    Idle-Stays true transfer.id r r' i (s transfer.id (ground arith) i.unworked)

Fit-below :
    (task : Task) (r : Runtime) (id : ℕ) → Fit r task → holds id task ≡ true → id < r.table.next_id
Fit-below (creating content_id share) r id i here = cc
Fit-below (created j) r id i here = let same : j ≡ id = ground arith in omega (arith, same, i.below)
Fit-below (preparing transfer) r id i here =
    let same : transfer.id ≡ id = ground arith in omega (arith, same, i.below)
Fit-below (entering transfer) r id i here =
    let same : transfer.id ≡ id = ground arith in omega (arith, same, i.below)

-- A step that is no handler's.
other_step :
    (n : Node) (r' : Runtime)
    → IsNode n
    → Leads n.runtime r'
    → Calm n.runtime r'
    → IsNode (record n { runtime = r' })
other_step n r' h (well, _) calm = record {
  well = well;
  fit = tasks_map n.tasks (λ task. Fit-Stays task n.runtime r' (λ id _. calm id)) h.fit;
  distinct = h.distinct;
}

advance-Advanced :
    (task : Task) (r : Runtime) → WellFormed r → Fit r task → Advanced task r (advance task r)
advance-Advanced (creating content_id share) r h i = creating-Advanced content_id share r h
advance-Advanced (created id) r h i = created-Advanced id r h i
advance-Advanced (preparing transfer) r h i = preparing-Advanced transfer r h i
advance-Advanced (entering transfer) r h i = entering-Advanced transfer r h i

not_held : (id : ℕ) (a b : Task) → Apart a b → holds id b ≡ true → holds id a ≡ false
not_held id a b apart here = elim (Bool-cases (holds id a)) [
  | inl there ↦ absurd (apart id there here)
  | inr gone ↦ gone
]

-- What is left of the task that moved, before the others.
left_over :
    (task : Task) (tasks : List Task) (r r' : Runtime) (next : Option Task)
    → WellFormed r'
    → All (λ other. Fit r other × Apart task other) tasks
    → All (Fit r') tasks
    → Distinct tasks
    → Next task r r' next
    → IsNode (record { runtime = r'; tasks = and_then next tasks })
unfolding Distinct
left_over task tasks r r' none well was fit distinct h = record {
  well = well;
  fit = fit;
  distinct = distinct;
}
left_over task tasks r r' (some next) well was fit distinct (now, from) = record {
  well = well;
  fit = (now, fit);
  distinct = (
    tasks_map tasks
        (λ other (fits, apart) id here there. elim (from id here) [
          | inl held ↦ apart id held there
          | inr new ↦ absurd (omega (arith, new, Fit-below other r id fits there))
        ])
        was,
    distinct,
  );
}

move_first-IsNode :
    (tasks : List Task) (r : Runtime)
    → IsNode (record { runtime = r; tasks = tasks })
    → IsNode (move_first tasks r) × Leads r (move_first tasks r).runtime
unfolding Distinct move_first
move_first-IsNode [] r h = (h, Leads-same r h.well)
move_first-IsNode (task ∷ tasks) r h =
    let (fits, others) = h.fit in
    let (apart, distinct) = h.distinct in
    let a = advance-Advanced task r h.well fits in
    let r' = (advance task r).1 in
    let was = tasks_both (Fit r) (Apart task) tasks others apart in
    (
      left_over task tasks r r' (advance task r).0 a.leads.0 was
          (tasks_map tasks
            (λ other (fit, away).
              Fit-Stays other r r'
                (λ id here free. a.others id (not_held id task other away here) free) fit)
            was)
          distinct a.next,
      a.leads,
    )

Distinct-snoc :
    (tasks : List Task) (task : Task)
    → All (Apart task) tasks
    → Distinct tasks
    → Distinct (tasks ++ task ∷ [])
unfolding Distinct
Distinct-snoc [] task h k = (tt, tt)
Distinct-snoc (other ∷ tasks) task (away, h) (apart, k) = (
  All-snoc (Apart other) tasks task apart (λ id here there. away id there here),
  Distinct-snoc tasks task h k,
)

rotate-IsNode :
    (tasks : List Task) (r : Runtime)
    → IsNode (record { runtime = r; tasks = tasks })
    → IsNode (record { runtime = r; tasks = rotate tasks })
unfolding Distinct
rotate-IsNode [] r h = h
rotate-IsNode (task ∷ tasks) r h = record {
  well = h.well;
  fit = All-snoc (Fit r) tasks task h.fit.1 h.fit.0;
  distinct = Distinct-snoc tasks task h.distinct.0 h.distinct.1;
}

drop_first-IsNode :
    (tasks : List Task) (r : Runtime)
    → IsNode (record { runtime = r; tasks = tasks })
    → IsNode (record { runtime = r; tasks = drop_first tasks })
unfolding Distinct
drop_first-IsNode [] r h = h
drop_first-IsNode (task ∷ tasks) r h = record {
  well = h.well;
  fit = h.fit.1;
  distinct = h.distinct.1;
}

-- A resume on its own.
no_rival :
    (transfer : Transfer) (id : ℕ) (tasks : List Task)
    → transfer.id ≡ id
    → held_by id tasks ≡ false
    → All (Apart (preparing transfer)) tasks
unfolding held_by
no_rival transfer id [] same h = tt
no_rival transfer id (task ∷ tasks) same h = elim (Bool-cases (holds id task)) [
  | inl here ↦ let no : true ≡ false = rw here at h in absurd cc
  | inr gone ↦ (
    λ j this that.
        let is_j : transfer.id ≡ j = ground arith in
        let there = subst (λ i. holds i task ≡ true) (sym is_j ∙ same) that in absurd cc,
    no_rival transfer id tasks same (rw gone at h),
  )
]
