-- ===== src/Node/Handlers/Spawn.antt =====
-- What a task relies on, and the steps up to the write of `prepare_download`.
use triptorrent.Base.{
  ℕ, ◌≤◌, ◌≡◌, ◌⊎◌, inl, refl, sym, subst, true, false, Option, none, some, ◌==◌, ok, arith,
  guard-eq-ok, ok-injective,
}
use triptorrent.Node.Transfers.{
  running, Transfer, Table, no_bootstrap, out_of_range, update_where, on_rows, update_transfer,
  get_transfer,
}
use triptorrent.Node.Rows.{Keeps, All-map, All-update_where, get_row_id}
use triptorrent.Node.Held.{Held-update}
use triptorrent.Node.Runtime.{Runtime, prepare_download}
use triptorrent.Node.Tasks.{Task, creating, created, preparing, entering, advance, holds}
use triptorrent.Node.Handlers.{option-cases, result-cases, working, WellFormed, Leads, Leads-same}
use triptorrent.Node.Handlers.Idle.{Idle, Stays, Calm-same, busy_fits, Suits-update}

-- What a task relies on: no thread works at its transfer, whose row is active, and busy once the
-- task has written it.
abbrev pub Fit : Runtime → Task → Type 0
Fit r (creating content_id share) = Unit
Fit r (created id) = Idle r false id
Fit r (preparing transfer) = Idle r false transfer.id
Fit r (entering transfer) = Idle r true transfer.id

-- The task that is left holds what the task held, or a new transfer.
abbrev pub Next : Task → Runtime → Runtime → Option Task → Type 0
Next task r r' none = Unit
Next task r r' (some next) =
    Fit r' next
    × ((id : ℕ) → holds id next ≡ true → (holds id task ≡ true) ⊎ (r.table.next_id ≤ id))

pub record Advanced (task : Task) (r : Runtime) (a : Option Task × Runtime) : Type 0 where
  pub leads : Leads r a.1
  pub others : (id : ℕ) → holds id task ≡ false → working r id ≡ false → Stays id r a.1
  pub next : Next task r a.1 a.0

-- The write of `prepare_download`.
abbrev pub restarted : Transfer → Transfer → Transfer
restarted transfer row = record row {
  status = running;
  bytes_total = transfer.bytes_total;
  bytes_transferred = transfer.bytes_transferred;
  resumed_chunks = transfer.resumed_chunks;
  error = none;
  current_rate_bps = 0;
}

abbrev pub prepared : Transfer → Table → Table
prepared transfer t = on_rows (update_where (λ row. row.id == transfer.id) (restarted transfer)) t

pub prepare_download-ok :
    (transfer : Transfer) (r : Runtime) (t : Table)
    → prepare_download transfer r ≡ ok t
    → prepared transfer r.table ≡ t
unfolding prepare_download update_transfer
prepare_download-ok transfer r t h =
    let (_, h₁) = guard-eq-ok r.bootstrap no_bootstrap h in
    let (_, h₂) = guard-eq-ok _ out_of_range h₁ in ok-injective h₂

pub restarted-Keeps : (transfer : Transfer) → Keeps (restarted transfer)
restarted-Keeps transfer = record { keeps_id = λ row. refl; keeps_content = λ row. refl }

-- The write of a preparing task.
prepared-Leads :
    (transfer : Transfer) (r : Runtime)
    → WellFormed r
    → Idle r false transfer.id
    → Leads r (record r { table = prepared transfer r.table })
prepared-Leads transfer r h idle =
    let (held, final) =
      Held-update (working r) (working r) (λ row. row.id == transfer.id) (restarted transfer)
        r.table (restarted-Keeps transfer) h.held
        (All-map r.table.rows (λ row was here. (was (ground arith), λ _. refl)) idle.suits)
        (λ row _ v. v) h.held.workers_below in
    (record { held = held; apart = h.apart }, final)

prepared-Stays :
    (transfer : Transfer) (r : Runtime) (id : ℕ)
    → working r id ≡ false
    → Stays id r (record r { table = prepared transfer r.table })
prepared-Stays transfer r id free = record {
  unworked = free;
  grows = omega arith;
  suits = λ entered.
      Suits-update entered id (λ row. row.id == transfer.id) (restarted transfer) r.table
        (restarted-Keeps transfer) (λ row _ _ _. busy_fits entered running refl refl);
}

prepared-Idle :
    (transfer : Transfer) (r : Runtime)
    → Idle r false transfer.id
    → Idle (record r { table = prepared transfer r.table }) true transfer.id
prepared-Idle transfer r idle = record {
  unworked = idle.unworked;
  below = idle.below;
  suits =
      All-update_where (λ row. row.id == transfer.id) (restarted transfer)
        (restarted-Keeps transfer) r.table.rows idle.suits (λ row _ _ _. refl)
        (λ row _ there. λ same. absurd (ground (arith, there, same)));
}

pub preparing-Advanced :
    (transfer : Transfer) (r : Runtime)
    → WellFormed r
    → Fit r (preparing transfer)
    → Advanced (preparing transfer) r (advance (preparing transfer) r)
unfolding advance
preparing-Advanced transfer r h idle =
    result-cases (Advanced (preparing transfer) r) (prepare_download transfer r)
      (λ _ _. record { leads = Leads-same r h; others = λ id _. Calm-same r id; next = tt })
      (λ table made.
        let same = prepare_download-ok transfer r table made in
        subst
          (λ t. Advanced (preparing transfer) r (some (entering transfer), record r { table = t }))
          same
          (record {
            leads = prepared-Leads transfer r h idle;
            others = λ id _. prepared-Stays transfer r id;
            next = (prepared-Idle transfer r idle, λ id here. inl here);
          }))

pub created-Advanced :
    (id : ℕ) (r : Runtime)
    → WellFormed r
    → Fit r (created id)
    → Advanced (created id) r (advance (created id) r)
unfolding advance
created-Advanced id r h idle =
    option-cases (Advanced (created id) r) (get_transfer id r.table)
      (λ _. record { leads = Leads-same r h; others = λ j _. Calm-same r j; next = tt })
      (λ transfer found.
        let is_id = get_row_id id r.table.rows transfer found in
        record {
          leads = Leads-same r h;
          others = λ j _. Calm-same r j;
          next = (
            subst (Idle r false) (sym is_id) idle,
            λ j here. inl (subst (λ i. (i == j) ≡ true) is_id here),
          );
        })
