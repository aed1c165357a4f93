-- ===== src/Swarm/Scheduler/Invariant.antt =====
-- The invariant of the scheduler, and that each operation keeps it.
use triptorrent.Base.{
  ℕ, zero, suc, ◌+◌, ◌^◌, ◌≤◌, ◌<◌, ◌≡◌, ◌≢◌, sym, ap, ◌∙◌, ◌⊎◌, inl, inr, List, [], ◌∷◌, map, Bool,
  true, false, some, length, get_elem?, set, modify, ok, err, arith, Option-cases, length-set,
  length-modify, length-map, get_elem?-modify_self, get_elem?-modify_ne, modify-none,
}
use native.Mathlib.Decide.{ℕ_discrete}
use triptorrent.Protocol.Availability.{PieceAvailability}
use triptorrent.Swarm.Scheduler.{
  missing, in_flight, complete, ProviderState, Scheduler, new, claim, assign, accept, reject,
  claims, unexpected_chunk, set_busy, set_accepted, set_rejected, initial_chunk, initial_provider,
}
use triptorrent.Swarm.Scheduler.Counts.{
  bit, busy_bit, busy_bit-modify_ne, busy_bit-modify_self, busy_bit-some, busy_bit-none, held_cases,
  claims-initial, active_count-le, active_count, claims-set, claims-release_self, claims-release_ne,
  claims_pos, active_count-modify,
}
use triptorrent.Swarm.Scheduler.Choice.{Assignable, assign-Outcome}

-- A busy provider holds exactly one chunk and any other none; busy providers are active; each
-- retry has cost an active provider.
pub record IsScheduled (s : Scheduler) : Type 0 where
  pub narrow : length s.chunks < 2 ^ 32
  pub one_each : (p : ℕ) → claims p s.chunks ≡ busy_bit p s.providers
  pub busy_active :
      (p : ℕ) (state : ProviderState)
      → get_elem? s.providers p ≡ some state
      → state.busy ≡ true
      → state.active ≡ true
  pub bounded : s.retries + active_count s.providers ≤ length s.providers

-- A change of provider `p` that leaves only active providers busy.
busy_active-modify :
    (ps : List ProviderState) (p : ℕ) (f : ProviderState → ProviderState)
    → ((state : ProviderState)
        → get_elem? ps p ≡ some state
        → (f state).busy ≡ true
        → (f state).active ≡ true)
    → ((q : ℕ) (state : ProviderState)
        → get_elem? ps q ≡ some state
        → state.busy ≡ true
        → state.active ≡ true)
    → (q : ℕ) (state : ProviderState) → get_elem? (modify ps p f) q ≡ some state
    → state.busy ≡ true
    → state.active ≡ true
busy_active-modify ps p f new_ok old_ok q state e b = elim (ℕ_discrete p q) [
  | yes same ↦ elim (Option-cases (get_elem? ps p)) [
    | inl absent ↦ old_ok q state (rw (modify-none ps p f absent) at e) b
    | inr (before, found) ↦
        let e' : get_elem? (modify ps p f) p ≡ some state = rw (← same) at e in
        let same_state : f before ≡ state = cc (get_elem?-modify_self ps p f before found) in
        rw (← same_state) (new_ok before found (rw same_state b))
  ]
  | no other ↦ old_ok q state (sym (get_elem?-modify_ne ps p q f other) ∙ e) b
]

claim-IsScheduled :
    (s : Scheduler) (p i : ℕ) → IsScheduled s → Assignable s p i → IsScheduled (claim s p i)
unfolding claim
claim-IsScheduled s p i v a = record {
  narrow = rw length-set v.narrow;
  one_each = λ q. elim (ℕ_discrete p q) [
    | yes same ↦ rw (← same) (
        ground (
          arith,
          claims-set p s.chunks i missing (in_flight p) a.unclaimed,
          busy_bit-modify_self s.providers p set_busy a.state a.found,
          busy_bit-some s.providers p a.state a.found,
          v.one_each p,
          a.idle,
        ))
    | no other ↦ ground (
      arith,
      claims-set q s.chunks i missing (in_flight p) a.unclaimed,
      busy_bit-modify_ne s.providers p q set_busy other,
      v.one_each q,
    )
  ];
  busy_active =
      busy_active-modify s.providers p set_busy
        (λ state e b. let same : state ≡ a.state = cc (a.found) in rw same a.active) v.busy_active;
  bounded = ground (
    arith,
    active_count-modify s.providers p set_busy a.state a.found,
    length-modify s.providers p set_busy,
    v.bounded,
  );
}

assign-IsScheduled : (s : Scheduler) (p : ℕ) → IsScheduled s → IsScheduled (assign s p).1
assign-IsScheduled s p v = elim (assign-Outcome s p v.narrow) [
  | inl (e, nothing) ↦ rw e v
  | inr (i, e, a, rarest) ↦ rw e (claim-IsScheduled s p i v a)
]

-- What `accept` finds when the chunk is claimed by the provider.
pub record Claimed (s : Scheduler) (p i : ℕ) : Type 0 where
  pub state : ProviderState
  pub found : get_elem? s.providers p ≡ some state
  pub busy : state.busy ≡ true
  pub held : get_elem? s.chunks i ≡ some (in_flight p)

pub claimed :
    (s : Scheduler) (p i : ℕ)
    → IsScheduled s
    → get_elem? s.chunks i ≡ some (in_flight p)
    → Claimed s p i
claimed s p i v h = elim (Option-cases (get_elem? s.providers p)) [
  | inl e ↦
      absurd
        (ground (arith, claims_pos p s.chunks i h, v.one_each p, busy_bit-none s.providers p e))
  | inr (state, e) ↦ record {
    state = state;
    found = e;
    busy =
        ground
          (arith, claims_pos p s.chunks i h, v.one_each p, busy_bit-some s.providers p state e);
    held = h;
  }
]

-- The state after a verified chunk has been accepted.
abbrev pub finished : Scheduler → ℕ → ℕ → Scheduler
finished s p i = record s {
  chunks = set s.chunks i complete;
  providers = modify s.providers p set_accepted;
}

pub accept_claimed :
    (s : Scheduler) (p i : ℕ) → Claimed s p i → accept s p i ≡ (ok tt, finished s p i)
unfolding accept
accept_claimed s p i c = ground (arith, c.found, c.held)

pub accept_other :
    (s : Scheduler) (p i : ℕ)
    → get_elem? s.chunks i ≢ some (in_flight p)
    → accept s p i ≡ (err unexpected_chunk, s)
unfolding accept
accept_other s p i h = ground (arith, h)

-- Within the invariant, a response is accepted exactly when the chunk is claimed by its sender; then
-- the chunk is complete and the sender, which is known, idle again. Any other response is refused
-- and changes nothing.
pub accept_outcome :
    (s : Scheduler) (p i : ℕ)
    → IsScheduled s
    → ((get_elem? s.chunks i ≡ some (in_flight p)) × (accept s p i ≡ (ok tt, finished s p i)))
      ⊎ ((get_elem? s.chunks i ≢ some (in_flight p)) × (accept s p i ≡ (err unexpected_chunk, s)))
accept_outcome s p i v = elim (held_cases (get_elem? s.chunks i) p) [
  | inl h ↦ inl (h, accept_claimed s p i (claimed s p i v h))
  | inr h ↦ inr (h, accept_other s p i h)
]

finished-IsScheduled :
    (s : Scheduler) (p i : ℕ) → IsScheduled s → Claimed s p i → IsScheduled (finished s p i)
finished-IsScheduled s p i v c = record {
  narrow = rw length-set v.narrow;
  one_each = λ q. elim (ℕ_discrete p q) [
    | yes same ↦ rw (← same) (
        ground (
          arith,
          claims-set p s.chunks i (in_flight p) complete c.held,
          busy_bit-modify_self s.providers p set_accepted c.state c.found,
          busy_bit-some s.providers p c.state c.found,
          v.one_each p,
          c.busy,
        ))
    | no other ↦ ground (
      arith,
      claims-set q s.chunks i (in_flight p) complete c.held,
      busy_bit-modify_ne s.providers p q set_accepted other,
      v.one_each q,
    )
  ];
  busy_active = busy_active-modify s.providers p set_accepted (λ state e b. cc) v.busy_active;
  bounded = ground (
    arith,
    active_count-modify s.providers p set_accepted c.state c.found,
    length-modify s.providers p set_accepted,
    v.bounded,
  );
}

accept-IsScheduled : (s : Scheduler) (p i : ℕ) → IsScheduled s → IsScheduled (accept s p i).1
accept-IsScheduled s p i v = elim (held_cases (get_elem? s.chunks i) p) [
  | inl h ↦
      let c = claimed s p i v h in rw (accept_claimed s p i c) (finished-IsScheduled s p i v c)
  | inr h ↦ rw (accept_other s p i h) v
]

busy_bit-rejected : (ps : List ProviderState) (p : ℕ) → busy_bit p (modify ps p set_rejected) ≡ 0
busy_bit-rejected ps p = elim (Option-cases (get_elem? ps p)) [
  | inl e ↦ rw (modify-none ps p set_rejected e) (busy_bit-none ps p e)
  | inr (state, e) ↦ busy_bit-modify_self ps p set_rejected state e
]

-- A retry is paid for by the provider that is given up.
reject_bounded :
    (s : Scheduler) (p : ℕ)
    → IsScheduled s
    → s.retries + claims p s.chunks + active_count (modify s.providers p set_rejected)
      ≤ length s.providers
reject_bounded s p v = elim (Option-cases (get_elem? s.providers p)) [
  | inl e ↦
      rw (modify-none s.providers p set_rejected e)
        (omega (arith, v.one_each p, busy_bit-none s.providers p e, v.bounded))
  | inr (state, e) ↦ ground (
    arith,
    v.one_each p,
    busy_bit-some s.providers p state e,
    active_count-modify s.providers p set_rejected state e,
    v.busy_active p state e,
    v.bounded,
  )
]

reject-IsScheduled : (s : Scheduler) (p : ℕ) → IsScheduled s → IsScheduled (reject s p)
unfolding reject
reject-IsScheduled s p v = record {
  narrow = rw length-map v.narrow;
  one_each = λ q. elim (ℕ_discrete p q) [
    | yes same ↦
        rw (← same) (claims-release_self p s.chunks ∙ sym (busy_bit-rejected s.providers p))
    | no other ↦ ground (
      arith,
      claims-release_ne q p s.chunks (λ e. other (sym e)),
      busy_bit-modify_ne s.providers p q set_rejected other,
      v.one_each q,
    )
  ];
  busy_active = busy_active-modify s.providers p set_rejected (λ state e b. cc) v.busy_active;
  bounded = rw length-modify (reject_bounded s p v);
}

abbrev pub initial : List PieceAvailability → List Bool → Scheduler
initial availability completed = record {
  chunks = map initial_chunk completed;
  providers = map initial_provider availability;
  retries = 0;
}

pub new-eq :
    (n : ℕ) (availability : List PieceAvailability) (completed : List Bool) (s : Scheduler)
    → new n availability completed ≡ ok s
    → (s ≡ initial availability completed) × (length completed < 2 ^ 32)
unfolding new
new-eq n availability completed s h = ground arith

initial_idle :
    (availability : List PieceAvailability) (p : ℕ) (state : ProviderState)
    → get_elem? (map initial_provider availability) p ≡ some state
    → state.busy ≡ false
initial_idle [] p state h = cc
initial_idle (a ∷ rest) zero state h = cc
initial_idle (a ∷ rest) (suc p) state h = initial_idle rest p state h

busy_bit-initial :
    (availability : List PieceAvailability) (p : ℕ)
    → busy_bit p (map initial_provider availability) ≡ 0
busy_bit-initial availability p =
    elim (Option-cases (get_elem? (map initial_provider availability) p)) [
      | inl e ↦ busy_bit-none _ p e
      | inr (state, e) ↦ busy_bit-some _ p state e ∙ ap bit (initial_idle availability p state e)
    ]

-- A scheduler that `new` accepts satisfies the invariant.
pub new-IsScheduled :
    (n : ℕ) (availability : List PieceAvailability) (completed : List Bool) (s : Scheduler)
    → new n availability completed ≡ ok s
    → IsScheduled s
new-IsScheduled n availability completed s h =
    let made = new-eq n availability completed s h in
    rw (made.0) (record {
      narrow = rw length-map made.1;
      one_each = λ p. claims-initial p completed ∙ sym (busy_bit-initial availability p);
      busy_active = λ p state e b. cc (initial_idle availability p state e);
      bounded = omega (arith, active_count-le (map initial_provider availability));
    })

-- The calls of the owner of a scheduler.
pub data Call : Type 0 where
  assigns rejects : ℕ → Call
  accepts : ℕ → ℕ → Call

unfoldable pub step : Scheduler → Call → Scheduler
step s (assigns p) = (assign s p).1
step s (accepts p i) = (accept s p i).1
step s (rejects p) = reject s p

unfoldable pub run : Scheduler → List Call → Scheduler
unfolding step
run s [] = s
run s (c ∷ cs) = run (step s c) cs

pub step-IsScheduled : (s : Scheduler) (c : Call) → IsScheduled s → IsScheduled (step s c)
unfolding step
step-IsScheduled s (assigns p) v = assign-IsScheduled s p v
step-IsScheduled s (accepts p i) v = accept-IsScheduled s p i v
step-IsScheduled s (rejects p) v = reject-IsScheduled s p v

-- Every sequence of calls keeps the invariant: a claimed chunk has one busy and active provider, a
-- busy provider one claimed chunk, and retries are bounded by the providers that were given up.
pub run-IsScheduled : (s : Scheduler) (cs : List Call) → IsScheduled s → IsScheduled (run s cs)
unfolding run
run-IsScheduled s [] v = v
run-IsScheduled s (c ∷ cs) v = run-IsScheduled (step s c) cs (step-IsScheduled s c v)
