-- ===== src/Node/Handlers/Idle.antt =====
-- A transfer that no thread works at stays so, and its row stays active, in every step but those
-- of a handler that is at work on it.
use triptorrent.Base.{
  ℕ, ◌≤◌, ◌<◌, ◌≡◌, ◌≢◌, refl, sym, ◌∙◌, subst, Bool, true, false, ◌&&◌, All, Option, none, some,
  ◌==◌, arith,
}
use triptorrent.Base.Bytes.{Bytes}
use triptorrent.Node.Transfers.{
  Status, pausing, paused, interrupted, completed, failed, Transfer, Table, VerifiedProgress,
  NodeError, is_active, is_working, update_where, on_rows, set_transfer_status, complete_transfer,
  update_progress, mark_running_interrupted, progress_fits,
}
use triptorrent.Node.Rows.{Keeps, All-update_where}
use triptorrent.Node.Held.{is_busy}
use triptorrent.Node.Runtime.{
  Runtime, Worker, find_worker, Answer, pause_locked, Outcome, stored, unusable, stopped,
  fail_transfer, finish_download, finish_stopped_download, record_outcome, stop_reason,
  fetch_returned, finish, report, interrupt_downloads, mark_interrupted,
}
use triptorrent.Node.Handlers.{
  option-cases, has_worker, working, found_worker, find_worker_id, has_worker-pause_worker,
  has_worker-interrupt_workers, or_right,
}
use triptorrent.Node.Handlers.Finish.{
  guarded, stop_cases, record_outcome_workers, returned_fewer, finished_fewer,
}

-- What the row of a task is: busy once the task has written it, and active before.
abbrev pub fits : Bool → Status → Bool
fits true s = is_busy s
fits false s = is_active s

abbrev pub Suits : Bool → ℕ → Table → Type 0
Suits entered id t = All (λ row. row.id ≡ id → fits entered row.status ≡ true) t.rows

pub record Idle (r : Runtime) (entered : Bool) (id : ℕ) : Type 0 where
  pub unworked : working r id ≡ false
  pub below : id < r.table.next_id
  pub suits : Suits entered id r.table

pub record Stays (id : ℕ) (r : Runtime) (r' : Runtime) : Type 0 where
  pub unworked : working r' id ≡ false
  pub grows : r.table.next_id ≤ r'.table.next_id
  pub suits : (entered : Bool) → Suits entered id r.table → Suits entered id r'.table

pub Idle-Stays :
    (entered : Bool) (id : ℕ) (r r' : Runtime)
    → Idle r entered id
    → Stays id r r'
    → Idle r' entered id
Idle-Stays entered id r r' i s = record {
  unworked = s.unworked;
  below = omega (arith, i.below, s.grows);
  suits = s.suits entered i.suits;
}

-- A step that leaves alone every transfer without a thread.
abbrev pub Calm : Runtime → Runtime → Type 0
Calm r r' = (id : ℕ) → working r id ≡ false → Stays id r r'

pub still_idle : (a b : Bool) → (b ≡ true → a ≡ true) → a ≡ false → b ≡ false
still_idle a true fewer h = let had = fewer refl in cc
still_idle a false fewer h = refl

pub busy_fits :
    (entered : Bool) (s : Status) → is_busy s ≡ true → is_active s ≡ true → fits entered s ≡ true
busy_fits true s h k = h
busy_fits false s h k = k

pub Suits-update :
    (entered : Bool) (id : ℕ) (p : Transfer → Bool) (f : Transfer → Transfer) (t : Table)
    → Keeps f
    → ((row : Transfer)
        → p row ≡ true
        → row.id ≡ id
        → fits entered row.status ≡ true
        → fits entered (f row).status ≡ true)
    → Suits entered id t
    → Suits entered id (on_rows (update_where p f) t)
Suits-update entered id p f t k writes h =
    All-update_where p f k t.rows h
      (λ row was here.
        λ e. let same : row.id ≡ id = sym (k.keeps_id row) ∙ e in writes row here same (was same))
      (λ row was _. was)

pub Calm-same : (r : Runtime) → Calm r r
Calm-same r id free = record { unworked = free; grows = omega arith; suits = λ _ h. h }

-- A step on the rows of a thread.
Suits-set_status :
    (entered : Bool) (id j : ℕ) (s : Status) (why : Option Bytes) (t : Table)
    → j ≢ id
    → Suits entered id t
    → Suits entered id (set_transfer_status j s why t)
unfolding set_transfer_status
Suits-set_status entered id j s why t other =
    Suits-update entered id (λ row. row.id == j)
      (λ row. record row { status = s; error = why; current_rate_bps = 0 }) t
      (record { keeps_id = λ row. refl; keeps_content = λ row. refl })
      (λ row here same _. absurd (other (let is_j : row.id ≡ j = ground arith in sym is_j ∙ same)))

record_outcome-Suits :
    (entered : Bool) (id : ℕ) (w : Worker) (outcome : Outcome) (r : Runtime)
    → w.transfer_id ≢ id
    → Suits entered id r.table
    → Suits entered id (record_outcome w outcome r).table
unfolding finish_download fail_transfer finish_stopped_download complete_transfer
record_outcome-Suits entered id w (stored n chunks stats) r other h =
    guarded r.table _ _ NodeError.out_of_range (Suits entered id)
      (Suits-update entered id (λ row. row.id == w.transfer_id)
        (λ row. record row {
          status = completed;
          bytes_total = n;
          bytes_transferred = n;
          verified_chunks = chunks;
          total_chunks = chunks;
          current_rate_bps = 0;
          retry_count = stats.retry_count;
          rejected_chunks = stats.rejected_chunks;
          provider_contributions = stats.provider_contributions;
          resumed_chunks = stats.resumed_chunks;
          error = none;
        })
        r.table (record { keeps_id = λ row. refl; keeps_content = λ row. refl })
        (λ row here same _.
          absurd (other (let is_w : row.id ≡ w.transfer_id = ground arith in sym is_w ∙ same)))
        h)
      h
record_outcome-Suits entered id w (unusable message) r other h =
    Suits-set_status entered id w.transfer_id failed (some message) r.table other h
record_outcome-Suits entered id w (stopped message) r other h =
    stop_cases (λ (r' : Runtime). Suits entered id r'.table) (stop_reason w.control)
      (Suits-set_status entered id w.transfer_id failed (some message) r.table other h)
      (Suits-set_status entered id w.transfer_id paused none r.table other h)
      (Suits-set_status entered id w.transfer_id interrupted none r.table other h)

record_outcome_next_id :
    (w : Worker) (outcome : Outcome) (r : Runtime)
    → (record_outcome w outcome r).table.next_id ≡ r.table.next_id
unfolding finish_download fail_transfer finish_stopped_download complete_transfer
    set_transfer_status
record_outcome_next_id w (stored n chunks stats) r =
    guarded r.table _ _ NodeError.out_of_range (λ (t : Table). t.next_id ≡ r.table.next_id) refl
      refl
record_outcome_next_id w (unusable message) r = refl
record_outcome_next_id w (stopped message) r =
    stop_cases (λ (r' : Runtime). r'.table.next_id ≡ r.table.next_id) (stop_reason w.control) refl
      refl refl

pub pause_locked-Calm : (id : ℕ) (r : Runtime) → Calm r (pause_locked id r).1
unfolding pause_locked set_transfer_status
pause_locked-Calm id r =
    option-cases (λ (a : Answer (Unit {0})). Calm r a.1) (find_worker id r.downloads)
      (λ _. Calm-same r)
      (λ w here j free. record {
        unworked = rw (has_worker-pause_worker id j r.downloads) free;
        grows = omega arith;
        suits = λ entered.
            Suits-update entered j (λ row. row.id == id)
              (λ row. record row { status = pausing; error = none; current_rate_bps = 0 }) r.table
              (record { keeps_id = λ row. refl; keeps_content = λ row. refl })
              (λ row _ _ _. busy_fits entered pausing refl refl);
      })

pub interrupt_downloads-Calm : (r : Runtime) → Calm r (interrupt_downloads r)
unfolding interrupt_downloads
interrupt_downloads-Calm r j free = record {
  unworked = rw (has_worker-interrupt_workers j r.downloads) free;
  grows = omega arith;
  suits = λ _ h. h;
}

pub mark_interrupted-Calm : (r : Runtime) → Calm r (mark_interrupted r)
unfolding mark_interrupted mark_running_interrupted
mark_interrupted-Calm r j free = record {
  unworked = free;
  grows = omega arith;
  suits = λ entered.
      Suits-update entered j (λ row. is_working row.status)
        (λ row. record row { status = interrupted; current_rate_bps = 0 }) r.table
        (record { keeps_id = λ row. refl; keeps_content = λ row. refl })
        (λ row _ _ _. busy_fits entered interrupted refl refl);
}

pub fetch_returned-Calm : (id : ℕ) (r : Runtime) → Calm r (fetch_returned id r)
unfolding fetch_returned
fetch_returned-Calm id r =
    option-cases (Calm r) (find_worker id r.downloads) (λ _. Calm-same r)
      (λ w here j free. record {
        unworked = still_idle (working r j) _ (returned_fewer id r w here j) free;
        grows = omega arith;
        suits = λ _ h. h;
      })

pub report-Calm :
    (id : ℕ) (progress : VerifiedProgress) (rate : ℕ) (r : Runtime)
    → Calm r (report id progress rate r)
unfolding report update_progress
report-Calm id progress rate r j free =
    guarded r.table _ (progress_fits progress rate) NodeError.out_of_range
      (λ t. Stays j r (record r { table = t }))
      (record {
        unworked = free;
        grows = omega arith;
        suits = λ entered.
            Suits-update entered j (λ row. row.id == id && is_working row.status)
              (λ row. record row {
                bytes_total = progress.bytes_total;
                bytes_transferred = progress.verified_bytes;
                verified_chunks = progress.verified_chunks;
                total_chunks = progress.total_chunks;
                current_rate_bps = rate;
                provider_count = progress.provider_count;
                retry_count = progress.retry_count;
                rejected_chunks = progress.rejected_chunks;
              })
              r.table (record { keeps_id = λ row. refl; keeps_content = λ row. refl })
              (λ row _ _ was. was);
      })
      (Calm-same r j free)

pub finish-Calm : (id : ℕ) (outcome : Outcome) (r : Runtime) → Calm r (finish id outcome r)
unfolding finish
finish-Calm id outcome r =
    option-cases (Calm r) (find_worker id r.returned) (λ _. Calm-same r)
      (λ w here j free.
        let is_id = find_worker_id id r.returned w here in
        let has = or_right (has_worker id r.downloads) _ (found_worker id r.returned w here) in
        let other : w.transfer_id ≢ j =
          λ e. let busy = subst (λ i. working r i ≡ true) (sym is_id ∙ e) has in absurd cc in
        let (same_downloads, same_returned) = record_outcome_workers w outcome r in
        record {
          unworked =
              rw (same_downloads, same_returned)
                (still_idle (working r j) _ (finished_fewer id r j) free);
          grows = omega (arith, record_outcome_next_id w outcome r);
          suits = λ entered. record_outcome-Suits entered j w outcome r other;
        })
