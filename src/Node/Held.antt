-- ===== src/Node/Held.antt =====
-- What holds of the table between two steps of the node, and which updates keep it.
use triptorrent.Base.{
  ℕ, ◌≤◌, ◌<◌, ◌≡◌, inl, inr, refl, subst, Bool, true, false, List, [], ◌∷◌, All, some, ◌==◌, arith,
  Bool-cases,
}
use triptorrent.Base.Bytes.{Bytes}
use triptorrent.Node.Transfers.{
  Status, running, pausing, paused, interrupted, completed, failed, Transfer, Table, is_active,
  is_working, update_where, count_active, get_row, get_transfer, on_rows,
}
use triptorrent.Node.Rows.{
  Keeps, Unique, All-map, All-both, get_row-update_where, All-update_where, Unique-update_where,
  count_active-update_where,
}

-- The states in which a worker may run: all active ones but `paused`.
abbrev pub is_busy : Status → Bool
is_busy running = true
is_busy pausing = true
is_busy interrupted = true
is_busy paused = false
is_busy completed = false
is_busy failed = false

pub busy_active : (s : Status) → is_busy s ≡ true → is_active s ≡ true
busy_active running h = refl
busy_active pausing h = refl
busy_active interrupted h = refl
busy_active paused h = cc
busy_active completed h = cc
busy_active failed h = cc

pub working_busy : (s : Status) → is_working s ≡ true → is_busy s ≡ true
working_busy running h = refl
working_busy pausing h = refl
working_busy interrupted h = cc
working_busy paused h = cc
working_busy completed h = cc
working_busy failed h = cc

-- The table, with the test of the ids that a worker has.
pub record Held (working : ℕ → Bool) (t : Table) : Type 0 where
  pub unique : Unique t.rows
  pub below : All (λ row. row.id < t.next_id) t.rows
  pub workers_below : (id : ℕ) → working id ≡ true → id < t.next_id
  pub busy : All (λ row. working row.id ≡ true → is_busy row.status ≡ true) t.rows
  pub single : (content_id : Bytes) → count_active content_id t.rows ≤ 1

-- A transfer that is completed or has failed stays as it is.
abbrev pub Final : Table → Table → Type 0
Final t t' =
    (id : ℕ) (row : Transfer)
    → get_transfer id t ≡ some row
    → is_active row.status ≡ false
    → get_transfer id t' ≡ some row

abbrev pub Goes : (ℕ → Bool) → Table → Table → Type 0
Goes working' t t' = Held working' t' × Final t t'

pub All-get_row :
    (P : Transfer → Type 0) (rows : List Transfer) (id : ℕ) (row : Transfer)
    → All P rows
    → get_row id rows ≡ some row
    → P row
unfolding get_row
All-get_row P [] id row h e = cc
All-get_row P (x ∷ rows) id row (q, h) e = elim (Bool-cases (x.id == id)) [
  | inl here ↦
      let found : some x ≡ some row = rw here at e in let same : x ≡ row = cc in subst P same q
  | inr there ↦ All-get_row P rows id row h (rw there at e)
]

-- An update that writes only active rows, and leaves each row that has a worker busy.
pub Held-update :
    (working working' : ℕ → Bool) (p : Transfer → Bool) (f : Transfer → Transfer) (t : Table)
    → Keeps f
    → Held working t
    → All
        (λ row.
          p row ≡ true
          → (is_active row.status ≡ true)
            × (working' row.id ≡ true → is_busy (f row).status ≡ true))
        t.rows
    → ((row : Transfer) → p row ≡ false → working' row.id ≡ true → working row.id ≡ true)
    → ((id : ℕ) → working' id ≡ true → id < t.next_id)
    → Goes working' t (on_rows (update_where p f) t)
Held-update working working' p f t k h selected others limit = (held, final)
  where
    held : Held working' (on_rows (update_where p f) t)
    held = record {
      unique = Unique-update_where p f k t.rows h.unique;
      below =
          All-update_where p f k t.rows h.below (λ row less _. rw (k.keeps_id row) less)
            (λ row less _. less);
      workers_below = limit;
      busy =
          All-update_where p f k t.rows (All-both _ _ t.rows h.busy selected)
            (λ row (was, now) here. λ w. (now here).1 (rw (k.keeps_id row) at w))
            (λ row (was, now) there. λ w. was (others row there w));
      single = λ c.
          let few =
            count_active-update_where p f k c t.rows
              (All-map t.rows (λ row now here. (now here).0) selected) in
          omega (arith, few, h.single c);
    }

    final : Final t (on_rows (update_where p f) t)
    final id row found finished =
        get_row-update_where p f k id t.rows row found (elim (Bool-cases (p row)) [
          | inl here ↦ let active = (All-get_row _ t.rows id row selected found here).0 in absurd cc
          | inr there ↦ there
        ])
