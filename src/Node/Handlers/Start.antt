-- ===== src/Node/Handlers/Start.antt =====
-- What begins a download: a new row, or a paused one.
use triptorrent.Base.{
  ℕ, ◌+◌, ◌≤◌, ◌<◌, ◌≡◌, inl, inr, refl, sym, ap, ◌∙◌, subst, Bool, true, false, [], ◌∷◌, ◌++◌,
  All-snoc, some, ◌==◌, ok, arith, Bool-cases, guard-eq-ok, ok-injective,
}
use triptorrent.Base.Bytes.{Bytes, bytes_eq, bytes_eq-eq}
use triptorrent.Node.Transfers.{
  Status, running, pausing, paused, interrupted, completed, failed, Transfer, Table, already_active,
  is_active, count_active, get_transfer, create_transfer, new_transfer,
}
use triptorrent.Node.Rows.{
  All-map, get_row-append, get_row_only, get_row_id, Unique-snoc, count_active-snoc,
}
use triptorrent.Node.Held.{is_busy, Held, Final, All-get_row}
use triptorrent.Node.Runtime.{Runtime, is_paused}
use triptorrent.Node.Tasks.{creating, advance}
use triptorrent.Node.Handlers.{result-cases, working, WellFormed, Leads, Leads-same}
use triptorrent.Node.Handlers.Idle.{fits, Idle, Stays, Calm-same, busy_fits}
use triptorrent.Node.Handlers.Spawn.{Advanced}

paused_active : (s : Status) → is_paused s ≡ true → is_active s ≡ true
paused_active paused h = refl
paused_active running h = cc
paused_active pausing h = cc
paused_active interrupted h = cc
paused_active completed h = cc
paused_active failed h = cc

paused_idle : (s : Status) → is_paused s ≡ true → is_busy s ≡ false
paused_idle paused h = refl
paused_idle running h = cc
paused_idle pausing h = cc
paused_idle interrupted h = cc
paused_idle completed h = cc
paused_idle failed h = cc

-- A paused transfer may be given a worker.
pub paused-Idle :
    (id : ℕ) (r : Runtime) (transfer : Transfer)
    → WellFormed r
    → get_transfer id r.table ≡ some transfer
    → is_paused transfer.status ≡ true
    → Idle r false transfer.id
paused-Idle id r transfer h found stopped =
    let is_id = get_row_id id r.table.rows transfer found in
    let idle : is_busy transfer.status ≡ false = paused_idle transfer.status stopped in
    record {
      unworked = elim (Bool-cases (working r transfer.id)) [
        | inl there ↦
            let busy =
              All-get_row (λ row. working r row.id ≡ true → is_busy row.status ≡ true) r.table.rows
                id transfer h.held.busy found there in
            absurd cc
        | inr gone ↦ gone
      ];
      below =
          All-get_row (λ row. row.id < r.table.next_id) r.table.rows id transfer h.held.below found;
      suits =
          All-map r.table.rows
            (λ row same_row e.
              subst (λ x. is_active x.status ≡ true) (sym (same_row (e ∙ is_id)))
                (paused_active transfer.status stopped))
            (get_row_only id r.table.rows transfer h.held.unique found);
    }

one_more :
    (content_id c : Bytes) (share : Bool) (t : Table)
    → (count_active content_id t.rows == 0) ≡ true
    → count_active c t.rows ≤ 1
    → count_active c (t.rows ++ new_transfer t.next_id content_id share ∷ []) ≤ 1
one_more content_id c share t none_active few =
    let grown = count_active-snoc c t.rows (new_transfer t.next_id content_id share) in
    elim (Bool-cases (bytes_eq content_id c)) [
      | inl this ↦
          let same : content_id ≡ c = bytes_eq-eq content_id c this in
          let zero_before : (count_active c t.rows == 0) ≡ true =
            subst (λ x. (count_active x t.rows == 0) ≡ true) same none_active in
          rw grown (rw this (ground arith))
      | inr other ↦ rw grown (rw other (ground arith))
    ]

-- The table with a new row: it is the only active one of its content.
created-Leads :
    (content_id : Bytes) (share : Bool) (r : Runtime) (made : ℕ × Table)
    → WellFormed r
    → create_transfer content_id share r.table ≡ ok made
    → (made.0 ≡ r.table.next_id)
      × (made.1.rows ≡ r.table.rows ++ new_transfer r.table.next_id content_id share ∷ [])
      × (made.1.next_id ≡ r.table.next_id + 1)
      × Leads r (record r { table = made.1 })
unfolding create_transfer
created-Leads content_id share r made h e =
    let t = r.table in
    let new = new_transfer t.next_id content_id share in
    let (none_active, e₁) = guard-eq-ok (count_active content_id t.rows == 0) already_active e in
    let t' : Table = record { rows = t.rows ++ new ∷ []; next_id = t.next_id + 1 } in
    let same : (t.next_id, t') ≡ made = ok-injective e₁ in
    let held : Held (working r) t' = record {
      unique = Unique-snoc t.rows new h.held.below h.held.unique;
      below =
          All-snoc (λ (row : Transfer). row.id < t.next_id + 1) t.rows new
            (All-map t.rows (λ row less. omega (arith, less)) h.held.below) (omega arith);
      workers_below = λ id v. omega (arith, h.held.workers_below id v);
      busy =
          All-snoc (λ (row : Transfer). working r row.id ≡ true → is_busy row.status ≡ true) t.rows
            new h.held.busy (λ _. refl);
      single = λ c. one_more content_id c share t none_active (h.held.single c);
    } in
    let final : Final t t' =
      λ id row found finished. get_row-append id t.rows (new ∷ []) row found in
    let leads : Leads r (record r { table = t' }) =
      (record { held = held; apart = h.apart }, final) in
    (
      sym (ap (λ (m : ℕ × Table). m.0) same),
      sym (ap (λ (m : ℕ × Table). m.1.rows) same),
      sym (ap (λ (m : ℕ × Table). m.1.next_id) same),
      subst (λ (m : ℕ × Table). Leads r (record r { table = m.1 })) same leads,
    )

created-Idle :
    (content_id : Bytes) (share : Bool) (r r' : Runtime)
    → WellFormed r
    → ((id : ℕ) → working r' id ≡ working r id)
    → r'.table.rows ≡ r.table.rows ++ new_transfer r.table.next_id content_id share ∷ []
    → r'.table.next_id ≡ r.table.next_id + 1
    → Idle r' false r.table.next_id
created-Idle content_id share r r' h same_workers is_rows is_next =
    let id = r.table.next_id in
    record {
      unworked = same_workers id ∙ (elim (Bool-cases (working r id)) [
        | inl there ↦ absurd (omega (arith, h.held.workers_below id there))
        | inr gone ↦ gone
      ]);
      below = omega (arith, is_next);
      suits = rw is_rows (
          All-snoc (λ (row : Transfer). row.id ≡ id → is_active row.status ≡ true) r.table.rows
            (new_transfer id content_id share)
            (All-map r.table.rows (λ row less e. absurd (omega (arith, less, e))) h.held.below)
            (λ _. refl));
    }

created-Stays :
    (content_id : Bytes) (share : Bool) (r r' : Runtime) (id : ℕ)
    → ((id : ℕ) → working r' id ≡ working r id)
    → r'.table.rows ≡ r.table.rows ++ new_transfer r.table.next_id content_id share ∷ []
    → r'.table.next_id ≡ r.table.next_id + 1
    → working r id ≡ false
    → Stays id r r'
created-Stays content_id share r r' id same_workers is_rows is_next free = record {
  unworked = same_workers id ∙ free;
  grows = omega (arith, is_next);
  suits = λ entered h. rw is_rows (
      All-snoc (λ (row : Transfer). row.id ≡ id → fits entered row.status ≡ true) r.table.rows
        (new_transfer r.table.next_id content_id share) h
        (λ _. busy_fits entered running refl refl));
}

pub creating-Advanced :
    (content_id : Bytes) (share : Bool) (r : Runtime)
    → WellFormed r
    → Advanced (creating content_id share) r (advance (creating content_id share) r)
unfolding advance
creating-Advanced content_id share r h =
    result-cases (Advanced (creating content_id share) r) (create_transfer content_id share r.table)
      (λ _ _. record { leads = Leads-same r h; others = λ id _. Calm-same r id; next = tt })
      (λ made is_made.
        let (is_id, is_rows, is_next, leads) = created-Leads content_id share r made h is_made in
        let r' : Runtime = record r { table = made.1 } in
        record {
          leads = leads;
          others = λ id _. created-Stays content_id share r r' id (λ j. refl) is_rows is_next;
          next = (
            subst (Idle r' false) (sym is_id)
                (created-Idle content_id share r r' h (λ j. refl) is_rows is_next),
            λ id here.
                inr (let same : made.0 ≡ id = ground (arith, here) in omega (arith, is_id, same)),
          );
        })
