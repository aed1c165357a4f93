-- ===== src/Node/Transfers.antt =====
-- The table `transfers` and the methods of `Store` on it. A statement's columns and its condition
-- are those of its SQL text.
use triptorrent.Base.{
  ℕ, ◌+◌, ◌^◌, Bool, true, false, ◌&&◌, List, [], ◌∷◌, ◌++◌, Option, none, some, ltb, ◌==◌,
  if◌then◌else◌, Result, ok, guard, ◌>>◌,
}
use triptorrent.Base.Bytes.{Bytes, bytes_eq}

pub data Status : Type 0 where
  running pausing paused interrupted completed failed : Status

pub record Transfer : Type 0 where
  pub id : ℕ
  pub content_id : Bytes
  pub status : Status
  pub bytes_total : ℕ
  pub bytes_transferred : ℕ
  pub verified_chunks : ℕ
  pub total_chunks : ℕ
  pub current_rate_bps : ℕ
  pub provider_count : ℕ
  pub retry_count : ℕ
  pub rejected_chunks : ℕ
  pub provider_contributions : Bytes
  pub resumed_chunks : ℕ
  pub error : Option Bytes
  pub share_on_complete : Bool

-- `next_id` is the counter of `AUTOINCREMENT`.
pub record Table : Type 0 where
  pub rows : List Transfer
  pub next_id : ℕ

pub record VerifiedProgress : Type 0 where
  pub bytes_total : ℕ
  pub verified_bytes : ℕ
  pub total_chunks : ℕ
  pub verified_chunks : ℕ
  pub provider_count : ℕ
  pub retry_count : ℕ
  pub rejected_chunks : ℕ

-- `provider_contributions` is the JSON text of the source's list.
pub record PersistentFetchStats : Type 0 where
  pub resumed_chunks : ℕ
  pub provider_contributions : Bytes
  pub retry_count : ℕ
  pub rejected_chunks : ℕ

pub data NodeError : Type 0 where
  no_bootstrap already_stored too_many_transfers already_active missing_transfer : NodeError
  active_worker unknown_transfer not_running no_worker not_paused out_of_range : NodeError

-- The condition `status IN ('running','pausing','paused','interrupted')`.
abbrev pub is_active : Status → Bool
is_active running = true
is_active pausing = true
is_active paused = true
is_active interrupted = true
is_active completed = false
is_active failed = false

-- The condition `status IN ('running','pausing')`.
abbrev pub is_working : Status → Bool
is_working running = true
is_working pausing = true
is_working paused = false
is_working interrupted = false
is_working completed = false
is_working failed = false

abbrev pub is_interrupted : Status → Bool
is_interrupted interrupted = true
is_interrupted running = false
is_interrupted pausing = false
is_interrupted paused = false
is_interrupted completed = false
is_interrupted failed = false

-- `UPDATE transfers SET .. WHERE ..`
unfoldable pub update_where :
    (Transfer → Bool) → (Transfer → Transfer) → List Transfer → List Transfer
update_where p f [] = []
update_where p f (row ∷ rows) = (if p row then f row else row) ∷ update_where p f rows

-- `SELECT .. WHERE .. ORDER BY id`: rows stand in the order of their ids.
unfoldable pub select : (Transfer → Bool) → List Transfer → List Transfer
select p [] = []
select p (row ∷ rows) = let rest = select p rows in if p row then row ∷ rest else rest

-- `SELECT COUNT(*)` in `create_transfer`.
unfoldable pub count_active : Bytes → List Transfer → ℕ
count_active content_id [] = 0
count_active content_id (row ∷ rows) =
    (if bytes_eq row.content_id content_id && is_active row.status then 1 else 0)
    + count_active content_id rows

unfoldable pub get_row : ℕ → List Transfer → Option Transfer
get_row id [] = none
get_row id (row ∷ rows) = if row.id == id then some row else get_row id rows

abbrev pub get_transfer : ℕ → Table → Option Transfer
get_transfer id t = get_row id t.rows

-- `i64::try_from`
abbrev pub fits_i64 : ℕ → Bool
fits_i64 n = ltb n (2 ^ 63)

-- The row that `create_transfer` inserts.
abbrev pub new_transfer : ℕ → Bytes → Bool → Transfer
new_transfer id content_id share = record {
  id = id;
  content_id = content_id;
  status = running;
  bytes_total = 0;
  bytes_transferred = 0;
  verified_chunks = 0;
  total_chunks = 0;
  current_rate_bps = 0;
  provider_count = 0;
  retry_count = 0;
  rejected_chunks = 0;
  provider_contributions = b'[' ∷ b']' ∷ [];
  resumed_chunks = 0;
  error = none;
  share_on_complete = share;
}

unfoldable pub create_transfer : Bytes → Bool → Table → Result NodeError (ℕ × Table)
unfolding count_active
create_transfer content_id share t = do
  guard (count_active content_id t.rows == 0) already_active
  ok (
    t.next_id,
    record {
      rows = t.rows ++ new_transfer t.next_id content_id share ∷ [];
      next_id = t.next_id + 1;
    },
  )

abbrev pub on_rows : (List Transfer → List Transfer) → Table → Table
on_rows f t = record { rows = f t.rows; next_id = t.next_id }

unfoldable pub update_transfer :
    ℕ → Status → ℕ → ℕ → ℕ → Option Bytes → Table → Result NodeError Table
unfolding update_where
update_transfer id new_status total transferred resumed why t = do
  guard (fits_i64 total && (fits_i64 transferred && fits_i64 resumed)) out_of_range
  ok (
      on_rows
        (update_where (λ row. row.id == id)
          (λ row. record row {
            status = new_status;
            bytes_total = total;
            bytes_transferred = transferred;
            resumed_chunks = resumed;
            error = why;
            current_rate_bps = 0;
          }))
        t)

abbrev pub progress_fits : VerifiedProgress → ℕ → Bool
progress_fits p rate =
    (fits_i64 p.bytes_total
      && (fits_i64 p.verified_bytes && (fits_i64 p.verified_chunks && fits_i64 p.total_chunks)))
    && (fits_i64 rate
        && (fits_i64 p.provider_count && (fits_i64 p.retry_count && fits_i64 p.rejected_chunks)))

unfoldable pub update_progress : ℕ → VerifiedProgress → ℕ → Table → Result NodeError Table
unfolding update_where
update_progress id p rate t = do
  guard (progress_fits p rate) out_of_range
  ok (
      on_rows
        (update_where (λ row. row.id == id && is_working row.status)
          (λ row. record row {
            bytes_total = p.bytes_total;
            bytes_transferred = p.verified_bytes;
            verified_chunks = p.verified_chunks;
            total_chunks = p.total_chunks;
            current_rate_bps = rate;
            provider_count = p.provider_count;
            retry_count = p.retry_count;
            rejected_chunks = p.rejected_chunks;
          }))
        t)

unfoldable pub set_transfer_status : ℕ → Status → Option Bytes → Table → Table
unfolding update_where
set_transfer_status id new_status why t =
    on_rows
      (update_where (λ row. row.id == id)
        (λ row. record row { status = new_status; error = why; current_rate_bps = 0 }))
      t

unfoldable pub complete_transfer : ℕ → ℕ → ℕ → PersistentFetchStats → Table → Result NodeError Table
unfolding update_where
complete_transfer id content_length chunks stats t = do
  guard
      ((fits_i64 content_length && fits_i64 chunks)
        && (fits_i64 stats.retry_count
            && (fits_i64 stats.rejected_chunks && fits_i64 stats.resumed_chunks)))
      out_of_range
  ok (
      on_rows
        (update_where (λ row. row.id == id)
          (λ row. record row {
            status = completed;
            bytes_total = content_length;
            bytes_transferred = content_length;
            verified_chunks = chunks;
            total_chunks = chunks;
            current_rate_bps = 0;
            retry_count = stats.retry_count;
            rejected_chunks = stats.rejected_chunks;
            provider_contributions = stats.provider_contributions;
            resumed_chunks = stats.resumed_chunks;
            error = none;
          }))
        t)

unfoldable pub mark_running_interrupted : Table → Table
unfolding update_where
mark_running_interrupted t =
    on_rows
      (update_where (λ row. is_working row.status)
        (λ row. record row { status = interrupted; current_rate_bps = 0 }))
      t

unfoldable pub recoverable_transfers : Table → List Transfer × Table
unfolding mark_running_interrupted select
recoverable_transfers t =
    let marked = mark_running_interrupted t in
    (select (λ row. is_interrupted row.status) marked.rows, marked)
