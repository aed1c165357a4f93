-- ===== src/Node/Handlers/Finish.antt =====
-- Progress, and the end of a worker.
use triptorrent.Base.{
  ℕ, ◌≡◌, inl, inr, refl, sym, ◌∙◌, subst, Bool, true, false, ◌&&◌, ◌||◌, ◌∷◌, Option, none, some,
  ◌==◌, ok, guard, ◌>>◌, arith,
}
use triptorrent.Node.Transfers.{
  paused, interrupted, completed, failed, Table, VerifiedProgress, NodeError, is_working,
  complete_transfer, update_progress, progress_fits,
}
use triptorrent.Node.Rows.{All-map}
use triptorrent.Node.Held.{busy_active, working_busy, Goes, Held-update}
use triptorrent.Node.Runtime.{
  Runtime, Worker, find_worker, remove_worker, Outcome, stored, unusable, stopped, or_same,
  fail_transfer, finish_download, finish_stopped_download, record_outcome, finish, stop_reason,
  FetchStopReason, by_pause, by_interrupt, fetch_returned, report,
}
use triptorrent.Node.Handlers.{
  option-cases, has_worker, working, WellFormed, Leads, Leads-same, found_worker, find_worker_id,
  has_worker-remove_self, has_worker-remove_worker, has_worker_cons, not_removed, write-Goes,
  set_status-Goes, Held-fewer, or_cases, or_left, or_right,
}

-- A checked statement either writes the table or leaves it.
pub guarded :
    (t t' : Table) (test : Bool) (e : NodeError) (P : Table → Type 0)
    → P t'
    → P t
    → P (or_same t (guard test e >> ok t'))
guarded t t' true e P h k = h
guarded t t' false e P h k = k

pub report-Leads :
    (id : ℕ) (progress : VerifiedProgress) (rate : ℕ) (r : Runtime)
    → WellFormed r
    → Leads r (report id progress rate r)
unfolding report update_progress
report-Leads id progress rate r h =
    let (held, final) =
      guarded r.table _ (progress_fits progress rate) NodeError.out_of_range
        (Goes (working r) r.table)
        (Held-update (working r) (working r) (λ row. row.id == id && is_working row.status)
          (λ row. record row {
            bytes_total = progress.bytes_total;
            bytes_transferred = progress.verified_bytes;
            verified_chunks = progress.verified_chunks;
            total_chunks = progress.total_chunks;
            current_rate_bps = rate;
            provider_count = progress.provider_count;
            retry_count = progress.retry_count;
            rejected_chunks = progress.rejected_chunks;
          })
          r.table (record { keeps_id = λ row. refl; keeps_content = λ row. refl }) h.held
          (All-map r.table.rows
            (λ row was here.
              let going : is_working row.status ≡ true = ground arith in
              let now = working_busy row.status going in (busy_active row.status now, λ _. now))
            h.held.busy)
          (λ row _ v. v) h.held.workers_below)
        (h.held, λ j row found finished. found) in
    (record { held = held; apart = h.apart }, final)

-- A worker that leaves the map is still one.
pub returned_fewer :
    (id : ℕ) (r : Runtime) (w : Worker)
    → find_worker id r.downloads ≡ some w
    → (j : ℕ)
    → (has_worker j (remove_worker id r.downloads) || has_worker j (w ∷ r.returned)) ≡ true
    → working r j ≡ true
returned_fewer id r w here j v =
    let is_id = find_worker_id id r.downloads w here in
    let has = found_worker id r.downloads w here in
    elim (or_cases (has_worker j (remove_worker id r.downloads)) (has_worker j (w ∷ r.returned))
      v) [
        | inl left ↦
            or_left _ (has_worker j r.returned) (has_worker-remove_worker id j r.downloads left)
        | inr right ↦ elim (has_worker_cons j w r.returned right) [
          | inl this ↦
              or_left _ (has_worker j r.returned)
                (subst (λ i. has_worker i r.downloads ≡ true) (sym is_id ∙ this) has)
          | inr that ↦ or_right (has_worker j r.downloads) _ that
        ]
      ]

pub fetch_returned-Leads : (id : ℕ) (r : Runtime) → WellFormed r → Leads r (fetch_returned id r)
unfolding fetch_returned
fetch_returned-Leads id r h =
    option-cases (Leads r) (find_worker id r.downloads) (λ _. Leads-same r h)
      (λ w here.
        let is_id = find_worker_id id r.downloads w here in
        let fewer = returned_fewer id r w here in
        let apart : (j : ℕ)
            → has_worker j (w ∷ r.returned) ≡ true
            → has_worker j (remove_worker id r.downloads) ≡ false =
          λ j v. elim (has_worker_cons j w r.returned v) [
            | inl this ↦
                subst (λ i. has_worker i (remove_worker id r.downloads) ≡ false) (sym is_id ∙ this)
                  (has_worker-remove_self id r.downloads)
            | inr that ↦ not_removed id j r.downloads (h.apart j that)
          ] in
        (
          record { held = Held-fewer (working r) _ r.table h.held fewer; apart = apart },
          λ j row found finished. found,
        ))

-- Reasoning on the stop reason.
pub stop_cases :
    {B : Type 0} {x y z : B} (P : B → Type 0) (o : Option FetchStopReason)
    → P x
    → P y
    → P z
    → P (elim o [ none ↦ x | some reason ↦ elim reason [ by_pause ↦ y | by_interrupt ↦ z ] ])
stop_cases P none p q s = p
stop_cases P (some by_pause) p q s = q
stop_cases P (some by_interrupt) p q s = s

-- The recording leaves the workers as they are.
pub record_outcome_workers :
    (w : Worker) (outcome : Outcome) (r : Runtime)
    → ((record_outcome w outcome r).downloads ≡ r.downloads)
      × ((record_outcome w outcome r).returned ≡ r.returned)
unfolding finish_download fail_transfer finish_stopped_download
record_outcome_workers w (stored n chunks stats) r = (refl, refl)
record_outcome_workers w (unusable message) r = (refl, refl)
record_outcome_workers w (stopped message) r =
    stop_cases (λ (r' : Runtime). (r'.downloads ≡ r.downloads) × (r'.returned ≡ r.returned))
      (stop_reason w.control) (refl, refl) (refl, refl) (refl, refl)

-- The table once the outcome is recorded and the worker is gone.
gone-Goes :
    (w : Worker) (outcome : Outcome) (r : Runtime)
    → WellFormed r
    → working r w.transfer_id ≡ true
    → (w' : ℕ → Bool) → ((j : ℕ) → w' j ≡ true → working r j ≡ true)
    → w' w.transfer_id ≡ false
    → Goes w' r.table (record_outcome w outcome r).table
unfolding finish_download fail_transfer finish_stopped_download complete_transfer
gone-Goes w (stored n chunks stats) r h worked w' fewer gone =
    guarded r.table _ _ NodeError.out_of_range (Goes w' r.table)
      (write-Goes (working r) w' w.transfer_id completed
        (λ row. record row {
          status = completed;
          bytes_total = n;
          bytes_transferred = n;
          verified_chunks = chunks;
          total_chunks = chunks;
          current_rate_bps = 0;
          retry_count = stats.retry_count;
          rejected_chunks = stats.rejected_chunks;
          provider_contributions = stats.provider_contributions;
          resumed_chunks = stats.resumed_chunks;
          error = none;
        })
        r.table (record { keeps_id = λ row. refl; keeps_content = λ row. refl }) (λ row. refl)
        h.held worked fewer (λ v. cc))
      (Held-fewer (working r) w' r.table h.held fewer, λ j row found finished. found)
gone-Goes w (unusable message) r h worked w' fewer gone =
    set_status-Goes (working r) w' w.transfer_id failed (some message) r.table h.held worked fewer
      (λ v. cc)
gone-Goes w (stopped message) r h worked w' fewer gone =
    stop_cases (λ (r' : Runtime). Goes w' r.table r'.table) (stop_reason w.control)
      (set_status-Goes (working r) w' w.transfer_id failed (some message) r.table h.held worked
        fewer (λ v. cc))
      (set_status-Goes (working r) w' w.transfer_id paused none r.table h.held worked fewer
        (λ v. cc))
      (set_status-Goes (working r) w' w.transfer_id interrupted none r.table h.held worked fewer
        (λ v. cc))

-- A worker fewer.
pub finished_fewer :
    (id : ℕ) (r : Runtime) (j : ℕ)
    → (has_worker j r.downloads || has_worker j (remove_worker id r.returned)) ≡ true
    → working r j ≡ true
finished_fewer id r j v =
    elim (or_cases (has_worker j r.downloads) (has_worker j (remove_worker id r.returned)) v) [
      | inl left ↦ or_left _ (has_worker j r.returned) left
      | inr right ↦
          or_right (has_worker j r.downloads) _ (has_worker-remove_worker id j r.returned right)
    ]

pub finish-Leads :
    (id : ℕ) (outcome : Outcome) (r : Runtime) → WellFormed r → Leads r (finish id outcome r)
unfolding finish
finish-Leads id outcome r h =
    option-cases (Leads r) (find_worker id r.returned) (λ _. Leads-same r h)
      (λ w here.
        let is_id = find_worker_id id r.returned w here in
        let has = found_worker id r.returned w here in
        let away : has_worker id r.downloads ≡ false = h.apart id has in
        let w' : ℕ → Bool =
          λ j. has_worker j r.downloads || has_worker j (remove_worker id r.returned) in
        let fewer = finished_fewer id r in
        let gone : w' id ≡ false = rw (away, has_worker-remove_self id r.returned) refl in
        let worked : working r w.transfer_id ≡ true =
          subst (λ i. working r i ≡ true) (sym is_id)
            (or_right (has_worker id r.downloads) _ has) in
        let (held, final) =
          gone-Goes w outcome r h worked w' fewer (subst (λ i. w' i ≡ false) (sym is_id) gone) in
        let (same_downloads, same_returned) = record_outcome_workers w outcome r in
        (
          record {
            held = rw (same_downloads, same_returned) held;
            apart =
                rw (same_downloads, same_returned)
                  (λ j back. h.apart j (has_worker-remove_worker id j r.returned back));
          },
          final,
        ))
