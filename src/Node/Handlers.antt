-- ===== src/Node/Handlers.antt =====
-- Each part of a handler of the runtime keeps the invariant, and leaves finished transfers alone.
pub mod Finish
pub mod Idle
pub mod Spawn
pub mod Insert
pub mod Start
pub mod Recover
use triptorrent.Base.{
  ℕ, zero, suc, ◌+◌, ◌-◌, ◌%◌, ◌^◌, ◌≤◌, ◌<◌, ◌≡◌, ◌≢◌, ◌⊎◌, inl, inr, refl, sym, ap, ◌∙◌, subst,
  Bool, true, false, not, ◌&&◌, ◌||◌, List, [], ◌∷◌, ◌++◌, All, Option, none, some, ltb, leb, ◌==◌,
  if◌then◌else◌, Result, ok, err, guard, ◌>>=◌, ◌>>◌, arith, Bool-cases,
}
use triptorrent.Base.Bytes.{Bytes}
use triptorrent.Node.Transfers.{
  Status, running, pausing, paused, interrupted, completed, failed, Transfer, Table,
  VerifiedProgress, PersistentFetchStats, NodeError, is_active, is_working, update_where, get_row,
  get_transfer, on_rows, set_transfer_status, complete_transfer, update_progress,
  mark_running_interrupted, progress_fits,
}
use triptorrent.Node.Rows.{Keeps, All-map}
use triptorrent.Node.Held.{is_busy, busy_active, working_busy, Held, Final, Goes, Held-update}
use triptorrent.Node.Runtime.{
  Runtime, Worker, FetchState, fetch_paused, fetch_interrupted, find_worker, remove_worker,
  pause_worker, interrupt_workers, pause_locked, Answer, Outcome, stored, unusable, stopped,
  or_same, fail_transfer, finish_download, finish_stopped_download, record_outcome, finish,
  interrupt_downloads, mark_interrupted, stop_reason, FetchStopReason, by_pause, by_interrupt,
}

-- Reasoning on a test, an option and a result.
pub if-cases :
    {A : Type 0} {x y : A} (P : A → Type 0) (t : Bool)
    → (t ≡ true → P x)
    → (t ≡ false → P y)
    → P (if t then x else y)
if-cases P true h k = h refl
if-cases P false h k = k refl

pub option-cases :
    {A : Type 0} {B : Type 0} {x : B} {f : A → B} (P : B → Type 0) (o : Option A)
    → (o ≡ none → P x)
    → ((a : A) → o ≡ some a → P (f a))
    → P (elim o [ none ↦ x | some a ↦ f a ])
option-cases P none h k = h refl
option-cases P (some a) h k = k a refl

pub result-cases :
    {A : Type 0} {B : Type 0} {E : Type 0} {f : E → B} {g : A → B} (P : B → Type 0) (o : Result E A)
    → ((e : E) → o ≡ err e → P (f e))
    → ((a : A) → o ≡ ok a → P (g a))
    → P (elim o [ err e ↦ f e | ok a ↦ g a ])
result-cases P (err e) h k = h e refl
result-cases P (ok a) h k = k a refl

abbrev pub has_worker : ℕ → List Worker → Bool
has_worker id ws = elim (find_worker id ws) [ none ↦ false | some w ↦ true ]

-- A thread works at a transfer, with its entry in the map or without.
abbrev pub working : Runtime → ℕ → Bool
working r id = has_worker id r.downloads || has_worker id r.returned

pub record WellFormed (r : Runtime) : Type 0 where
  pub held : Held (working r) r.table
  pub apart : (id : ℕ) → has_worker id r.returned ≡ true → has_worker id r.downloads ≡ false

-- What a step leads to.
abbrev pub Leads : Runtime → Runtime → Type 0
Leads r r' = WellFormed r' × Final r.table r'.table

pub Leads-same : (r : Runtime) → WellFormed r → Leads r r
Leads-same r h = (h, λ id row found finished. found)

pub Leads-then : (r r' r'' : Runtime) → Leads r r' → Leads r' r'' → Leads r r''
Leads-then r r' r'' (_, f) (h, g) =
    (h, λ id row found finished. g id row (f id row found finished) finished)

pub found_worker :
    (id : ℕ) (ws : List Worker) (w : Worker) → find_worker id ws ≡ some w → has_worker id ws ≡ true
found_worker id ws w h = ap (λ o. elim o [ none ↦ false | some w' ↦ true ]) h

pub find_worker_id :
    (id : ℕ) (ws : List Worker) (w : Worker) → find_worker id ws ≡ some w → w.transfer_id ≡ id
unfolding find_worker
find_worker_id id [] w h = cc
find_worker_id id (x ∷ ws) w h = elim (Bool-cases (x.transfer_id == id)) [
  | inl here ↦
      let found : some x ≡ some w = rw here at h in
      let same : x ≡ w = cc in
      let is_id : x.transfer_id ≡ id = ground arith in ap (λ y. y.transfer_id) (sym same) ∙ is_id
  | inr there ↦ find_worker_id id ws w (rw there at h)
]

pub has_worker-remove_self :
    (id : ℕ) (ws : List Worker) → has_worker id (remove_worker id ws) ≡ false
unfolding find_worker remove_worker
has_worker-remove_self id [] = refl
has_worker-remove_self id (w ∷ ws) = ground (arith, has_worker-remove_self id ws)

pub has_worker-remove_worker :
    (id j : ℕ) (ws : List Worker)
    → has_worker j (remove_worker id ws) ≡ true
    → has_worker j ws ≡ true
unfolding find_worker remove_worker
has_worker-remove_worker id j [] h = h
has_worker-remove_worker id j (w ∷ ws) h = ground (arith, has_worker-remove_worker id j ws)

pub has_worker_cons :
    (j : ℕ) (w : Worker) (ws : List Worker)
    → has_worker j (w ∷ ws) ≡ true
    → (w.transfer_id ≡ j) ⊎ (has_worker j ws ≡ true)
unfolding find_worker
has_worker_cons j w ws h = elim (Bool-cases (w.transfer_id == j)) [
  | inl here ↦ inl (ground arith)
  | inr there ↦ inr (rw (there, has_worker) at h)
]

pub not_removed :
    (id j : ℕ) (ws : List Worker)
    → has_worker j ws ≡ false
    → has_worker j (remove_worker id ws) ≡ false
not_removed id j ws h = elim (Bool-cases (has_worker j (remove_worker id ws))) [
  | inl there ↦ let was = has_worker-remove_worker id j ws there in absurd cc
  | inr gone ↦ gone
]

pub has_worker-pause_worker :
    (id j : ℕ) (ws : List Worker) → has_worker j (pause_worker id ws) ≡ has_worker j ws
unfolding find_worker pause_worker
has_worker-pause_worker id j [] = refl
has_worker-pause_worker id j (w ∷ ws) = ground (arith, has_worker-pause_worker id j ws)

pub has_worker-interrupt_workers :
    (j : ℕ) (ws : List Worker) → has_worker j (interrupt_workers ws) ≡ has_worker j ws
unfolding find_worker interrupt_workers
has_worker-interrupt_workers j [] = refl
has_worker-interrupt_workers j (w ∷ ws) = ground (arith, has_worker-interrupt_workers j ws)

-- A write to the rows of a worker: they are busy before it, and after it if the worker goes on.
pub write-Goes :
    (w w' : ℕ → Bool) (id : ℕ) (s : Status) (f : Transfer → Transfer) (t : Table)
    → Keeps f
    → ((row : Transfer) → (f row).status ≡ s)
    → Held w t
    → w id ≡ true
    → ((j : ℕ) → w' j ≡ true → w j ≡ true)
    → (w' id ≡ true → is_busy s ≡ true)
    → Goes w' t (on_rows (update_where (λ row. row.id == id) f) t)
write-Goes w w' id s f t k sets h worked fewer fits =
    Held-update w w' (λ row. row.id == id) f t k h
      (All-map t.rows
        (λ row was here.
          let same : row.id ≡ id = ground arith in
          (
            busy_active row.status (was (subst (λ j. w j ≡ true) (sym same) worked)),
            λ v.
                subst (λ x. is_busy x ≡ true) (sym (sets row))
                  (fits (subst (λ j. w' j ≡ true) same v)),
          ))
        h.busy)
      (λ row _ j. fewer row.id j) (λ j here. h.workers_below j (fewer j here))

pub set_status-Goes :
    (w w' : ℕ → Bool) (id : ℕ) (s : Status) (why : Option Bytes) (t : Table)
    → Held w t
    → w id ≡ true
    → ((j : ℕ) → w' j ≡ true → w j ≡ true)
    → (w' id ≡ true → is_busy s ≡ true)
    → Goes w' t (set_transfer_status id s why t)
unfolding set_transfer_status
set_status-Goes w w' id s why t =
    write-Goes w w' id s (λ row. record row { status = s; error = why; current_rate_bps = 0 }) t
      (record { keeps_id = λ row. refl; keeps_content = λ row. refl }) (λ row. refl)

-- Fewer workers on the same table.
pub Held-fewer :
    (w w' : ℕ → Bool) (t : Table) → Held w t → ((j : ℕ) → w' j ≡ true → w j ≡ true) → Held w' t
Held-fewer w w' t h fewer = record {
  unique = h.unique;
  below = h.below;
  workers_below = λ id here. h.workers_below id (fewer id here);
  busy = All-map t.rows (λ row was here. was (fewer row.id here)) h.busy;
  single = h.single;
}

pub or_cases : (a b : Bool) → (a || b) ≡ true → (a ≡ true) ⊎ (b ≡ true)
or_cases true b h = inl refl
or_cases false b h = inr h

pub or_left : (a b : Bool) → a ≡ true → (a || b) ≡ true
or_left true b h = refl
or_left false b h = cc

pub or_right : (a b : Bool) → b ≡ true → (a || b) ≡ true
or_right true b h = refl
or_right false b h = h

pub pause_locked-Leads : (id : ℕ) (r : Runtime) → WellFormed r → Leads r (pause_locked id r).1
unfolding pause_locked
pause_locked-Leads id r h =
    option-cases (λ (a : Answer (Unit {0})). Leads r a.1) (find_worker id r.downloads)
      (λ _. Leads-same r h)
      (λ w here.
        let has = found_worker id r.downloads w here in
        let kept : (j : ℕ) → has_worker j (pause_worker id r.downloads) ≡ has_worker j r.downloads =
          λ j. has_worker-pause_worker id j r.downloads in
        let (held, final) =
          set_status-Goes (working r)
            (λ j. has_worker j (pause_worker id r.downloads) || has_worker j r.returned) id pausing
            none r.table h.held (or_left _ (has_worker id r.returned) has) (λ j v. rw (kept j) at v)
            (λ _. refl) in
        (record { held = held; apart = λ j back. kept j ∙ h.apart j back }, final))

pub interrupt_downloads-Leads : (r : Runtime) → WellFormed r → Leads r (interrupt_downloads r)
unfolding interrupt_downloads
interrupt_downloads-Leads r h =
    let kept : (j : ℕ) → has_worker j (interrupt_workers r.downloads) ≡ has_worker j r.downloads =
      λ j. has_worker-interrupt_workers j r.downloads in
    (
      record {
        held = Held-fewer (working r) _ r.table h.held (λ j v. rw (kept j) at v);
        apart = λ j back. kept j ∙ h.apart j back;
      },
      λ id row found finished. found,
    )

pub mark_interrupted-Leads : (r : Runtime) → WellFormed r → Leads r (mark_interrupted r)
unfolding mark_interrupted mark_running_interrupted
mark_interrupted-Leads r h =
    let (held, final) =
      Held-update (working r) (working r) (λ row. is_working row.status)
        (λ row. record row { status = interrupted; current_rate_bps = 0 }) r.table
        (record { keeps_id = λ row. refl; keeps_content = λ row. refl }) h.held
        (All-map r.table.rows
          (λ row was here. (busy_active row.status (working_busy row.status here), λ _. refl))
          h.held.busy)
        (λ row _ v. v) h.held.workers_below in
    (record { held = held; apart = h.apart }, final)
