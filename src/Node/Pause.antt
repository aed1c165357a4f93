-- ===== src/Node/Pause.antt =====
-- A download that is paused ends as paused.
use triptorrent.Base.{
  ℕ, ◌≡◌, inl, inr, refl, ap, ◌∙◌, true, List, [], ◌∷◌, Option, none, some, ◌==◌, arith, Bool-cases,
}
use triptorrent.Base.Bytes.{Bytes}
use triptorrent.Node.Transfers.{
  Status, paused, pausing, Transfer, Table, is_working, get_row, get_transfer, update_where,
  set_transfer_status,
}
use triptorrent.Node.Rows.{Keeps}
use triptorrent.Node.Handlers.{find_worker_id}
use triptorrent.Node.Runtime.{
  Runtime, Worker, fetch_paused, find_worker, remove_worker, pause_worker, pause_locked,
  pause_transfer, fetch_returned, finish, stopped, finish_stopped_download,
}

get_row-update_self :
    (id : ℕ) (f : Transfer → Transfer) (k : Keeps f) (rows : List Transfer) (row : Transfer)
    → get_row id rows ≡ some row
    → get_row id (update_where (λ x. x.id == id) f rows) ≡ some (f row)
unfolding get_row update_where
get_row-update_self id f k [] row h = cc
get_row-update_self id f k (x ∷ rows) row h = elim (Bool-cases (x.id == id)) [
  | inl here ↦
      let found : some x ≡ some row = rw here at h in
      let kept : ((f x).id == id) ≡ true = ap (λ i. i == id) (k.keeps_id x) ∙ here in
      rw (here, kept) (ap (λ o. elim o [ none ↦ none | some y ↦ some (f y) ]) found)
  | inr there ↦ rw (there, there) (get_row-update_self id f k rows row (rw there at h))
]

set_status-found :
    (id : ℕ) (s : Status) (why : Option Bytes) (t : Table) (row : Transfer)
    → get_transfer id t ≡ some row
    → get_transfer id (set_transfer_status id s why t)
      ≡ some (record row { status = s; error = why; current_rate_bps = 0 })
unfolding set_transfer_status
set_status-found id s why t row h =
    get_row-update_self id (λ x. record x { status = s; error = why; current_rate_bps = 0 })
      (record { keeps_id = λ x. refl; keeps_content = λ x. refl }) t.rows row h

find_worker-pause_worker :
    (id : ℕ) (ws : List Worker) (w : Worker)
    → find_worker id ws ≡ some w
    → find_worker id (pause_worker id ws) ≡ some (record w { control = fetch_paused })
unfolding find_worker pause_worker
find_worker-pause_worker id [] w h = cc
find_worker-pause_worker id (x ∷ ws) w h = elim (Bool-cases (x.transfer_id == id)) [
  | inl here ↦
      let found : some x ≡ some w = rw here at h in
      rw (here, here)
        (ap (λ o. elim o [ none ↦ none | some y ↦ some (record y { control = fetch_paused }) ])
          found)
  | inr there ↦ rw (there, there) (find_worker-pause_worker id ws w (rw there at h))
]

-- What each of the three steps comes to.
pause_transfer_works :
    (id : ℕ) (r : Runtime) (w : Worker) (row : Transfer)
    → get_transfer id r.table ≡ some row
    → is_working row.status ≡ true
    → find_worker id r.downloads ≡ some w
    → (pause_transfer id r).1 ≡ record r {
      downloads = pause_worker id r.downloads;
      table = set_transfer_status id pausing none r.table;
    }
unfolding pause_transfer pause_locked
pause_transfer_works id r w row found going there =
    rw (pause_transfer, found, going, pause_locked, there) refl

fetch_returned_moves :
    (id : ℕ) (r : Runtime) (w : Worker)
    → find_worker id r.downloads ≡ some w
    → fetch_returned id r
      ≡ record r { downloads = remove_worker id r.downloads; returned = w ∷ r.returned }
unfolding fetch_returned
fetch_returned_moves id r w there = rw (fetch_returned, there) refl

finish_paused :
    (id : ℕ) (r : Runtime) (w : Worker) (message : Bytes)
    → find_worker id r.returned ≡ some (record w { control = fetch_paused })
    → (finish id (stopped message) r).table ≡ set_transfer_status w.transfer_id paused none r.table
unfolding finish finish_stopped_download
finish_paused id r w message there = rw (finish, there) refl

first_found :
    (id : ℕ) (w : Worker) (ws : List Worker) → w.transfer_id ≡ id → find_worker id (w ∷ ws) ≡ some w
unfolding find_worker
first_found id w ws e = let this : (w.transfer_id == id) ≡ true = ground arith in rw this refl

-- When a download that works is paused, and its fetch then gives up with any error, the transfer is
-- paused, without an error and with its rate at zero, and otherwise as it was.
pub pause_transfer-finish :
    (id : ℕ) (r : Runtime) (w : Worker) (row : Transfer) (message : Bytes)
    → get_transfer id r.table ≡ some row
    → is_working row.status ≡ true
    → find_worker id r.downloads ≡ some w
    → get_transfer id
        (finish id (stopped message) (fetch_returned id (pause_transfer id r).1)).table
      ≡ some (record row { status = paused; error = none; current_rate_bps = 0 })
pause_transfer-finish id r w row message found going there =
    let t = set_transfer_status id pausing none r.table in
    let held : Runtime = record r { downloads = pause_worker id r.downloads; table = t } in
    let w' : Worker = record w { control = fetch_paused } in
    let back : Runtime = record held {
      downloads = remove_worker id held.downloads;
      returned = w' ∷ r.returned;
    } in
    let is_id = find_worker_id id r.downloads w there in
    let moved : fetch_returned id (pause_transfer id r).1 ≡ back =
      ap (fetch_returned id) (pause_transfer_works id r w row found going there)
      ∙ fetch_returned_moves id held w' (find_worker-pause_worker id r.downloads w there) in
    let ended : (finish id (stopped message) back).table ≡ set_transfer_status id paused none t =
      finish_paused id back w message (first_found id w' r.returned is_id)
      ∙ ap (λ i. set_transfer_status i paused none t) is_id in
    ap (λ x. get_transfer id (finish id (stopped message) x).table) moved
    ∙ ap (get_transfer id) ended
    ∙ set_status-found id paused none t _ (set_status-found id pausing none r.table row found)
