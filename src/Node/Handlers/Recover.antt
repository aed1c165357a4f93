-- ===== src/Node/Handlers/Recover.antt =====
-- The first part of `create`, on the index of an earlier run.
use triptorrent.Base.{
  ℕ, ◌<◌, ◌≡◌, ◌≢◌, inl, inr, Bool-cases, refl, sym, subst, Bool, true, false, List, [], ◌∷◌, All,
}
use triptorrent.Node.Transfers.{
  Status, running, pausing, paused, interrupted, completed, failed, Transfer, Table, is_active,
  is_working, is_interrupted, recoverable_transfers, mark_running_interrupted, select,
}
use triptorrent.Node.Rows.{All-map, All-both, Unique, Only, Unique-Only, All-select}
use triptorrent.Node.Held.{busy_active, working_busy, Held-update}
use triptorrent.Node.Runtime.{Runtime, find_worker, recover, fresh_runtime}
use triptorrent.Node.Handlers.{if-cases, working, WellFormed, Leads}
use triptorrent.Node.Handlers.Idle.{Suits, Idle}

-- A transfer that may be given a worker: its rows are active.
abbrev Startable : Table → Transfer → Type 0
Startable t transfer = Suits false transfer.id t × (transfer.id < t.next_id)

Unique-select : (p : Transfer → Bool) (rows : List Transfer) → Unique rows → Unique (select p rows)
unfolding select
Unique-select p [] u = tt
Unique-select p (row ∷ rows) (apart, u) = elim (Bool-cases (p row)) [
  | inl here ↦ rw here (
    All-map (select p rows) (λ other (away, _). away)
        (All-select (λ other. other.id ≢ row.id) p rows apart),
    Unique-select p rows u,
  )
  | inr there ↦ rw there (Unique-select p rows u)
]

interrupted_active : (s : Status) → is_interrupted s ≡ true → is_active s ≡ true
interrupted_active interrupted h = refl
interrupted_active running h = refl
interrupted_active pausing h = refl
interrupted_active paused h = refl
interrupted_active completed h = cc
interrupted_active failed h = cc

recovered-Startable :
    (t : Table)
    → Unique t.rows
    → All (λ row. row.id < t.next_id) t.rows
    → All (Startable t) (select (λ row. is_interrupted row.status) t.rows)
recovered-Startable t unique below =
    All-map (select (λ row. is_interrupted row.status) t.rows)
      (λ row ((only, less), stopped). (
        All-map t.rows
            (λ other same e.
              subst (λ (x : Transfer). is_active x.status ≡ true) (sym (same e))
                (interrupted_active row.status stopped))
            only,
        less,
      ))
      (All-select (λ row. Only t.rows row × (row.id < t.next_id)) (λ row. is_interrupted row.status)
        t.rows
        (All-both (Only t.rows) (λ row. row.id < t.next_id) t.rows (Unique-Only t.rows unique)
          below))

-- A node that starts on the table of an earlier one, whose workers are gone.
pub recover-Leads :
    (bootstrap : Bool) (max_concurrent : ℕ) (r : Runtime)
    → WellFormed r
    → Leads r (recover bootstrap max_concurrent r.content r.table).1
unfolding recover recoverable_transfers mark_running_interrupted find_worker
recover-Leads bootstrap max_concurrent r h =
    let t = r.table in
    let (held, final) =
      Held-update (working r) (λ _. false) (λ row. is_working row.status)
        (λ row. record row { status = interrupted; current_rate_bps = 0 }) t
        (record { keeps_id = λ row. refl; keeps_content = λ row. refl }) h.held
        (All-map t.rows
          (λ row was here. (busy_active row.status (working_busy row.status here), λ _. refl))
          h.held.busy)
        (λ row _ v. cc) (λ j v. cc) in
    (record { held = held; apart = λ j v. refl }, final)

-- The transfers that it takes up.
pub recover-Idle :
    (bootstrap : Bool) (max_concurrent : ℕ) (r : Runtime)
    → WellFormed r
    → let started = recover bootstrap max_concurrent r.content r.table in
      All (λ transfer. Idle started.1 false transfer.id) started.0 × Unique started.0
unfolding recover recoverable_transfers find_worker
recover-Idle bootstrap max_concurrent r h =
    let marked = mark_running_interrupted r.table in
    let started : Runtime = fresh_runtime bootstrap max_concurrent r.content marked in
    let held = (recover-Leads bootstrap max_concurrent r h).0.held in
    if-cases
      (λ (ts : List Transfer). All (λ transfer. Idle started false transfer.id) ts × Unique ts)
      bootstrap
      (λ _. (
        All-map (select (λ row. is_interrupted row.status) marked.rows)
            (λ row (active, less). record { unworked = refl; below = less; suits = active })
            (recovered-Startable marked held.unique held.below),
        Unique-select (λ row. is_interrupted row.status) marked.rows held.unique,
      ))
      (λ _. (tt, tt))
