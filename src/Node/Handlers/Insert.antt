-- ===== src/Node/Handlers/Insert.antt =====
-- The step that inserts the entry of the map and starts the thread.
use triptorrent.Base.{
  ℕ, ◌<◌, ◌≡◌, ◌⊎◌, inl, inr, refl, sym, subst, true, false, ◌||◌, ◌∷◌, none, ◌==◌, arith,
  Bool-cases,
}
use triptorrent.Node.Transfers.{Transfer}
use triptorrent.Node.Rows.{All-map, All-both}
use triptorrent.Node.Held.{Held}
use triptorrent.Node.Runtime.{Runtime, find_worker, new_worker, Answer, insert_download}
use triptorrent.Node.Tasks.{entering, advance}
use triptorrent.Node.Handlers.{
  option-cases, has_worker, working, WellFormed, Leads, found_worker, has_worker_cons, or_cases,
  or_left, or_right,
}
use triptorrent.Node.Handlers.Idle.{Idle, Stays}
use triptorrent.Node.Handlers.Spawn.{Fit, Advanced}

-- The worker of an entering task.
inserted_cases :
    (transfer : Transfer) (r : Runtime) (id : ℕ)
    → (has_worker id (new_worker transfer ∷ r.downloads) || has_worker id r.returned) ≡ true
    → (transfer.id ≡ id) ⊎ (working r id ≡ true)
inserted_cases transfer r id v =
    elim (or_cases (has_worker id (new_worker transfer ∷ r.downloads)) (has_worker id r.returned)
      v) [
        | inl left ↦ elim (has_worker_cons id (new_worker transfer) r.downloads left) [
          | inl this ↦ inl this
          | inr that ↦ inr (or_left _ (has_worker id r.returned) that)
        ]
        | inr right ↦ inr (or_right (has_worker id r.downloads) _ right)
      ]

inserted-Leads :
    (transfer : Transfer) (r r' : Runtime)
    → WellFormed r
    → Idle r true transfer.id
    → r'.table ≡ r.table
    → r'.downloads ≡ new_worker transfer ∷ r.downloads
    → r'.returned ≡ r.returned
    → Leads r r'
inserted-Leads transfer r r' h idle same_table same_downloads same_returned =
    let cases = inserted_cases transfer r in
    let held : Held
        (λ id. has_worker id (new_worker transfer ∷ r.downloads) || has_worker id r.returned)
        r.table =
      record {
        unique = h.held.unique;
        below = h.held.below;
        workers_below = λ id v. elim (cases id v) [
          | inl this ↦ subst (λ i. i < r.table.next_id) this idle.below
          | inr that ↦ h.held.workers_below id that
        ];
        busy =
            All-map r.table.rows
              (λ row (was, suits) v. elim (cases row.id v) [
                | inl this ↦ suits (sym this)
                | inr that ↦ was that
              ])
              (All-both _ _ r.table.rows h.held.busy idle.suits);
        single = h.held.single;
      } in
    let apart : (id : ℕ)
        → has_worker id r.returned ≡ true
        → has_worker id (new_worker transfer ∷ r.downloads) ≡ false =
      λ id back. elim (Bool-cases (has_worker id (new_worker transfer ∷ r.downloads))) [
        | inl there ↦ elim (has_worker_cons id (new_worker transfer) r.downloads there) [
          | inl this ↦
              let works =
                subst (λ i. working r i ≡ true) (sym this)
                  (or_right (has_worker id r.downloads) _ back) in
              let free = idle.unworked in absurd cc
          | inr that ↦ let lacks = h.apart id back in absurd cc
        ]
        | inr gone ↦ gone
      ] in
    (
      record {
        held = rw (same_table, same_downloads, same_returned) held;
        apart = rw (same_downloads, same_returned) apart;
      },
      λ id row found finished. rw same_table found,
    )

inserted-Stays :
    (transfer : Transfer) (r r' : Runtime) (id : ℕ)
    → r'.table ≡ r.table
    → r'.downloads ≡ new_worker transfer ∷ r.downloads
    → r'.returned ≡ r.returned
    → (transfer.id == id) ≡ false
    → working r id ≡ false
    → Stays id r r'
inserted-Stays transfer r r' id same_table same_downloads same_returned other free = record {
  unworked =
      rw (same_downloads, same_returned)
        (elim (Bool-cases
          (has_worker id (new_worker transfer ∷ r.downloads) || has_worker id r.returned)) [
            | inl there ↦ elim (inserted_cases transfer r id there) [
              | inl this ↦ absurd (ground (arith, this, other))
              | inr that ↦ absurd cc
            ]
            | inr gone ↦ gone
          ]);
  grows = rw same_table (omega arith);
  suits = λ entered h. rw same_table h;
}

pub entering-Advanced :
    (transfer : Transfer) (r : Runtime)
    → WellFormed r
    → Fit r (entering transfer)
    → Advanced (entering transfer) r (advance (entering transfer) r)
unfolding advance insert_download
entering-Advanced transfer r h idle =
    option-cases (λ (a : Answer (Unit {0})). Advanced (entering transfer) r (none, a.1))
      (find_worker transfer.id r.downloads)
      (λ _. record {
        leads = inserted-Leads transfer r _ h idle refl refl refl;
        others = λ id. inserted-Stays transfer r _ id refl refl refl;
        next = tt;
      })
      (λ w here.
        let works =
          or_left _ (has_worker transfer.id r.returned)
            (found_worker transfer.id r.downloads w here) in
        let free = idle.unworked in absurd cc)
