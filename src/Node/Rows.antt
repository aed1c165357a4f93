-- ===== src/Node/Rows.antt =====
-- What an update of some rows of the table keeps.
use triptorrent.Base.{
  ℕ, ◌+◌, ◌≤◌, ◌<◌, ◌≡◌, ◌≢◌, inl, inr, refl, sym, ap, ◌∙◌, subst, Bool, true, false, ◌&&◌, List,
  [], ◌∷◌, ◌++◌, All, All-snoc, some, ◌==◌, if◌then◌else◌, arith, Bool-cases,
}
use triptorrent.Base.Bytes.{Bytes, bytes_eq}
use triptorrent.Node.Transfers.{Transfer, is_active, update_where, count_active, get_row, select}

pub All-map :
    {P : Transfer → Type 0} {Q : Transfer → Type 0} (rows : List Transfer)
    → ((row : Transfer) → P row → Q row)
    → All P rows
    → All Q rows
All-map [] f h = tt
All-map (row ∷ rows) f (p, h) = (f row p, All-map rows f h)

pub All-both :
    (P : Transfer → Type 0) (Q : Transfer → Type 0) (rows : List Transfer)
    → All P rows
    → All Q rows
    → All (λ row. P row × Q row) rows
All-both P Q [] h k = tt
All-both P Q (row ∷ rows) (p, h) (q, k) = ((p, q), All-both P Q rows h k)

-- An update that keeps what a row is about.
pub record Keeps (f : Transfer → Transfer) : Type 0 where
  pub keeps_id : (row : Transfer) → (f row).id ≡ row.id
  pub keeps_content : (row : Transfer) → (f row).content_id ≡ row.content_id

-- No two rows have the same id.
abbrev pub Unique : List Transfer → Type 0
Unique [] = Unit
Unique (row ∷ rows) = All (λ other. other.id ≢ row.id) rows × Unique rows

pub get_row-append :
    (id : ℕ) (rows more : List Transfer) (row : Transfer)
    → get_row id rows ≡ some row
    → get_row id (rows ++ more) ≡ some row
unfolding get_row
get_row-append id [] more row h = cc
get_row-append id (x ∷ rows) more row h = elim (Bool-cases (x.id == id)) [
  | inl here ↦ rw here (rw here at h)
  | inr there ↦ rw there (get_row-append id rows more row (rw there at h))
]

pub get_row_fresh :
    (id : ℕ) (rows : List Transfer) (row : Transfer)
    → All (λ other. other.id < id) rows
    → row.id ≡ id
    → get_row id (rows ++ row ∷ []) ≡ some row
unfolding get_row
get_row_fresh id [] row h e = ground arith
get_row_fresh id (x ∷ rows) row (below, h) e =
    let there : (x.id == id) ≡ false = ground arith in rw there (get_row_fresh id rows row h e)

-- The row that an id finds is the only one with that id.
pub get_row_only :
    (id : ℕ) (rows : List Transfer) (row : Transfer)
    → Unique rows
    → get_row id rows ≡ some row
    → All (λ other. other.id ≡ id → other ≡ row) rows
unfolding get_row
get_row_only id [] row u h = cc
get_row_only id (x ∷ rows) row (apart, u) h = elim (Bool-cases (x.id == id)) [
  | inl here ↦
      let found : some x ≡ some row = rw here at h in
      let same : x ≡ row = cc in
      ((λ _. same), All-map rows (λ other away e. absurd (away (ground arith))) apart)
  | inr there ↦ ((λ e. absurd (ground arith)), get_row_only id rows row u (rw there at h))
]

pub get_row_id :
    (id : ℕ) (rows : List Transfer) (row : Transfer) → get_row id rows ≡ some row → row.id ≡ id
unfolding get_row
get_row_id id [] row h = cc
get_row_id id (x ∷ rows) row h = elim (Bool-cases (x.id == id)) [
  | inl here ↦
      let found : some x ≡ some row = rw here at h in
      let same : x ≡ row = cc in
      let is_id : x.id ≡ id = ground arith in ap (λ y. y.id) (sym same) ∙ is_id
  | inr there ↦ get_row_id id rows row (rw there at h)
]

-- A row inserted behind others with smaller ids.
pub Unique-snoc :
    (rows : List Transfer) (row : Transfer)
    → All (λ other. other.id < row.id) rows
    → Unique rows
    → Unique (rows ++ row ∷ [])
Unique-snoc [] row h u = (tt, tt)
Unique-snoc (x ∷ rows) row (less, h) (apart, u) = (
  All-snoc (λ (other : Transfer). other.id ≢ x.id) rows row apart (λ e. absurd (omega (arith, e))),
  Unique-snoc rows row h u,
)

pub count_active-snoc :
    (c : Bytes) (rows : List Transfer) (row : Transfer)
    → count_active c (rows ++ row ∷ [])
      ≡ count_active c rows + (if bytes_eq row.content_id c && is_active row.status then 1 else 0)
unfolding count_active
count_active-snoc c [] row = omega arith
count_active-snoc c (x ∷ rows) row = omega (arith, count_active-snoc c rows row)

-- Rows with the same id are the same row.
abbrev pub Only : List Transfer → Transfer → Type 0
Only rows row = All (λ other. other.id ≡ row.id → other ≡ row) rows

pub Unique-Only : (rows : List Transfer) → Unique rows → All (Only rows) rows
Unique-Only [] u = tt
Unique-Only (x ∷ rows) (apart, u) = (
  ((λ _. refl), All-map rows (λ other away e. absurd (away e)) apart),
  All-map rows (λ row (away, only). ((λ e. absurd (away (sym e))), only))
      (All-both (λ other. other.id ≢ x.id) (Only rows) rows apart (Unique-Only rows u)),
)

pub All-select :
    (P : Transfer → Type 0) (p : Transfer → Bool) (rows : List Transfer)
    → All P rows
    → All (λ row. P row × (p row ≡ true)) (select p rows)
unfolding select
All-select P p [] h = tt
All-select P p (row ∷ rows) (q, h) =
    let rest = All-select P p rows h in
    elim (Bool-cases (p row)) [
      | inl selected ↦ rw selected ((q, selected), rest)
      | inr other ↦ rw other rest
    ]

module _ (p : Transfer → Bool) (f : Transfer → Transfer) (k : Keeps f) where
  kept_id : (row : Transfer) → (if p row then f row else row).id ≡ row.id
  kept_id row = elim (Bool-cases (p row)) [
    | inl selected ↦ rw selected (k.keeps_id row)
    | inr other ↦ rw other refl
  ]

  -- A row that is not selected is found as it was.
  pub get_row-update_where :
      (id : ℕ) (rows : List Transfer) (row : Transfer)
      → get_row id rows ≡ some row
      → p row ≡ false
      → get_row id (update_where p f rows) ≡ some row
  unfolding get_row update_where
  get_row-update_where id [] row h n = cc
  get_row-update_where id (x ∷ rows) row h n = elim (Bool-cases (x.id == id)) [
    | inl here ↦
        let found : some x ≡ some row = rw here at h in
        let same : x ≡ row = cc in
        let other : p x ≡ false = subst (λ r. p r ≡ false) (sym same) n in rw (other, here) found
    | inr there ↦ rw (kept_id x, there) (get_row-update_where id rows row (rw there at h) n)
  ]

  pub All-update_where :
      {P : Transfer → Type 0} {Q : Transfer → Type 0} (rows : List Transfer)
      → All P rows
      → ((row : Transfer) → P row → p row ≡ true → Q (f row))
      → ((row : Transfer) → P row → p row ≡ false → Q row)
      → All Q (update_where p f rows)
  unfolding update_where
  All-update_where [] h yes_case no_case = tt
  All-update_where (row ∷ rows) (q, h) yes_case no_case =
      let rest = All-update_where rows h yes_case no_case in
      elim (Bool-cases (p row)) [
        | inl selected ↦ rw selected (yes_case row q selected, rest)
        | inr other ↦ rw other (no_case row q other, rest)
      ]

  pub Unique-update_where : (rows : List Transfer) → Unique rows → Unique (update_where p f rows)
  unfolding update_where
  Unique-update_where [] u = tt
  Unique-update_where (row ∷ rows) (apart, u) = (
    rw (kept_id row) (
        All-update_where rows apart (λ other away _. λ e. away (sym (k.keeps_id other) ∙ e))
          (λ other away _. away)),
    Unique-update_where rows u,
  )

  -- Only active rows are written: no more of them are active than before.
  pub count_active-update_where :
      (c : Bytes) (rows : List Transfer)
      → All (λ row. p row ≡ true → is_active row.status ≡ true) rows
      → count_active c (update_where p f rows) ≤ count_active c rows
  unfolding update_where count_active
  count_active-update_where c [] h = omega arith
  count_active-update_where c (row ∷ rows) (active, h) = elim (Bool-cases (p row)) [
    | inl selected ↦
        let was : is_active row.status ≡ true = active selected in
        rw (selected, k.keeps_content row, was) (ground (arith, count_active-update_where c rows h))
    | inr other ↦ rw other (omega (arith, count_active-update_where c rows h))
  ]
