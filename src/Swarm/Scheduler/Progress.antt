-- ===== src/Swarm/Scheduler/Progress.antt =====
-- What runs of the scheduler keep and when they can go on.
use triptorrent.Base.{
  ℕ, zero, suc, ◌+◌, ◌≤◌, ◌<◌, ◌≡◌, refl, ap, ◌∙◌, inl, inr, List, [], ◌∷◌, Bool, true, false, some,
  length, get_elem?, keep_if, all, any, ok, arith, Bool-cases, length-map, length-modify,
  get_elem?-set_self, get_elem?-set_ne, get_elem?-map, get_elem?-length,
}
use native.Mathlib.Decide.{ℕ_discrete}
use triptorrent.Protocol.Availability.{PieceAvailability}
use triptorrent.Swarm.Scheduler.{
  ChunkState, missing, in_flight, complete, ProviderState, Scheduler, new, claim, assign, accept,
  reject, claims, release, is_complete, is_complete_state, has_in_flight, is_in_flight, can_finish,
  can_finish_from, source_count, is_source, saturate_u32, set_accepted, set_rejected, set_busy,
  initial_provider,
}
use triptorrent.Swarm.Scheduler.Counts.{busy_bit-some}
use triptorrent.Swarm.Scheduler.Choice.{Assignable, assign-Outcome, saturate_narrow}
use triptorrent.Swarm.Scheduler.Invariant.{
  IsScheduled, Call, assigns, accepts, rejects, step, run, run-IsScheduled, new-IsScheduled, new-eq,
  step-IsScheduled, accept_outcome,
}

-- What a call leaves alone: complete chunks, and the number of providers.
record Keeps (s t : Scheduler) : Type 0 where
  done : (i : ℕ) → get_elem? s.chunks i ≡ some complete → get_elem? t.chunks i ≡ some complete
  count : length t.providers ≡ length s.providers

Keeps-refl : (s : Scheduler) → Keeps s s
Keeps-refl s = record { done = λ i h. h; count = refl }

Keeps-claim : (s : Scheduler) (p i : ℕ) → Assignable s p i → Keeps s (claim s p i)
unfolding claim
Keeps-claim s p i a = record {
  done = λ j h. elim (ℕ_discrete i j) [
    | yes same ↦ let e : get_elem? s.chunks i ≡ some complete = rw same h in cc (a.unclaimed, e)
    | no other ↦ get_elem?-set_ne s.chunks i j (in_flight p) other ∙ h
  ];
  count = length-modify s.providers p set_busy;
}

Keeps-assign : (s : Scheduler) (p : ℕ) → IsScheduled s → Keeps s (assign s p).1
Keeps-assign s p v = elim (assign-Outcome s p v.narrow) [
  | inl (e, nothing) ↦ rw e (Keeps-refl s)
  | inr (i, e, a, rarest) ↦ rw e (Keeps-claim s p i a)
]

Keeps-accept : (s : Scheduler) (p i : ℕ) → IsScheduled s → Keeps s (accept s p i).1
Keeps-accept s p i v = elim (accept_outcome s p i v) [
  | inr (h, e) ↦ rw e (Keeps-refl s)
  | inl (h, e) ↦ rw e (record {
    done = λ j c. elim (ℕ_discrete i j) [
      | yes same ↦
          rw (← same) (get_elem?-set_self s.chunks i complete (get_elem?-length s.chunks i _ h))
      | no other ↦ get_elem?-set_ne s.chunks i j complete other ∙ c
    ];
    count = length-modify s.providers p set_accepted;
  })
]

Keeps-reject : (s : Scheduler) (p : ℕ) → Keeps s (reject s p)
unfolding reject
Keeps-reject s p = record {
  done = λ i h. get_elem?-map (release p) s.chunks i complete h;
  count = length-modify s.providers p set_rejected;
}

Keeps-step : (s : Scheduler) (c : Call) → IsScheduled s → Keeps s (step s c)
unfolding step
Keeps-step s (assigns p) v = Keeps-assign s p v
Keeps-step s (accepts p i) v = Keeps-accept s p i v
Keeps-step s (rejects p) v = Keeps-reject s p

Keeps-run : (s : Scheduler) (cs : List Call) → IsScheduled s → Keeps s (run s cs)
unfolding run
Keeps-run s [] v = Keeps-refl s
Keeps-run s (c ∷ cs) v =
    let first = Keeps-step s c v in
    let rest = Keeps-run (step s c) cs (step-IsScheduled s c v) in
    record { done = λ i h. rest.done i (first.done i h); count = rest.count ∙ first.count }

-- Within the invariant, a chunk that is complete stays complete, whatever is assigned, accepted or rejected afterwards.
pub complete-run :
    (s : Scheduler) (cs : List Call) (i : ℕ)
    → IsScheduled s
    → get_elem? s.chunks i ≡ some complete
    → get_elem? (run s cs).chunks i ≡ some complete
complete-run s cs i v h = (Keeps-run s cs v).done i h

-- From a scheduler that `new` made, whatever calls follow, the retries never exceed the number of
-- providers.
pub retries-run-le :
    (n : ℕ) (availability : List PieceAvailability) (completed : List Bool) (s : Scheduler)
    (cs : List Call)
    → new n availability completed ≡ ok s
    → (run s cs).retries ≤ length availability
retries-run-le n availability completed s cs h =
    let v = new-IsScheduled n availability completed s h in
    let made = new-eq n availability completed s h in
    omega (
      arith,
      (run-IsScheduled s cs v).bounded,
      (Keeps-run s cs v).count,
      ap (λ t. length t.providers) made.0,
      length-map initial_provider availability,
    )

some_missing :
    (cs : List ChunkState)
    → all is_complete_state cs ≡ false
    → any is_in_flight cs ≡ false
    → (i : ℕ) × (get_elem? cs i ≡ some missing)
some_missing [] h k = cc
some_missing (missing ∷ cs) h k = (0, refl)
some_missing (in_flight p ∷ cs) h k = cc
some_missing (complete ∷ cs) h k = let (i, e) = some_missing cs h k in (suc i, e)

no_claims : (p : ℕ) (cs : List ChunkState) → any is_in_flight cs ≡ false → claims p cs ≡ 0
unfolding claims
no_claims p [] h = refl
no_claims p (missing ∷ cs) h = no_claims p cs h
no_claims p (in_flight q ∷ cs) h = cc
no_claims p (complete ∷ cs) h = no_claims p cs h

has_source :
    (s : Scheduler) (i : ℕ) (cs : List ChunkState) (k : ℕ)
    → can_finish_from s i cs ≡ true
    → get_elem? cs k ≡ some missing
    → 0 < source_count s (i + k)
unfolding can_finish_from
has_source s i [] k h e = cc
has_source s i (c ∷ cs) zero h e =
    let start : i + 0 ≡ i = omega arith in
    let c' : c ≡ missing = cc in rw start (ground (arith, c'))
has_source s i (c ∷ cs) (suc k) h e =
    let next : i + suc k ≡ suc i + k = omega arith in
    rw next (has_source s (suc i) cs k (ground arith) e)

find_source :
    (j : ℕ) (ps : List ProviderState)
    → 0 < length (keep_if (is_source j) ps)
    → (p : ℕ) × (state : ProviderState) × (get_elem? ps p ≡ some state) × (is_source j state ≡ true)
find_source j [] h = absurd (omega arith)
find_source j (x ∷ ps) h = elim (Bool-cases (is_source j x)) [
  | inl e ↦ (0, x, refl, e)
  | inr e ↦ let (p, state, found, src) = find_source j ps (rw e at h) in (suc p, state, found, src)
]

idle_provider :
    (s : Scheduler) (p : ℕ) (state : ProviderState)
    → IsScheduled s
    → any is_in_flight s.chunks ≡ false
    → get_elem? s.providers p ≡ some state
    → state.busy ≡ false
idle_provider s p state v idle found =
    ground (arith, no_claims p s.chunks idle, v.one_each p, busy_bit-some s.providers p state found)

source-Assignable :
    (s : Scheduler) (p j : ℕ) (state : ProviderState)
    → IsScheduled s
    → any is_in_flight s.chunks ≡ false
    → get_elem? s.chunks j ≡ some missing
    → get_elem? s.providers p ≡ some state
    → is_source (saturate_u32 j) state ≡ true
    → Assignable s p j
source-Assignable s p j state v idle m found src =
    let small = saturate_narrow s j missing v.narrow m in
    let src' : is_source j state ≡ true = rw small.0 at src in
    record {
      state = state;
      found = found;
      active = ground arith;
      idle = idle_provider s p state v idle found;
      unclaimed = m;
      offered = ground arith;
    }

-- Within the invariant, while no request is outstanding and every missing chunk has an active
-- source, some provider is assigned a chunk, unless all chunks are complete.
pub can_finish_moves :
    (s : Scheduler)
    → IsScheduled s
    → can_finish s ≡ true
    → has_in_flight s ≡ false
    → is_complete s ≡ false
    → (p : ℕ) × (i : ℕ) × (assign s p ≡ (some i, claim s p i))
unfolding can_finish has_in_flight is_complete source_count
can_finish_moves s v finishable idle open_ =
    let (j, m) = some_missing s.chunks open_ idle in
    let start : 0 + j ≡ j = omega arith in
    let sourced : 0 < source_count s j = rw start at (has_source s 0 s.chunks j finishable m) in
    let (p, state, found, src) = find_source (saturate_u32 j) s.providers sourced in
    elim (assign-Outcome s p v.narrow) [
      | inr (i, e, a, rarest) ↦ (p, i, e)
      | inl (e, nothing) ↦ absurd (nothing j (source-Assignable s p j state v idle m found src))
    ]
