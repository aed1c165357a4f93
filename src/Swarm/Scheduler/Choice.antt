-- ===== src/Swarm/Scheduler/Choice.antt =====
-- What `assign` chooses, and when it chooses nothing.
use triptorrent.Base.{
  ℕ, zero, suc, ◌+◌, ◌^◌, ◌≤◌, ◌<◌, ◌≡◌, refl, sym, ap, subst, ◌∙◌, ◌⊎◌, inl, inr, List, [], ◌∷◌,
  Bool, true, false, ◌&&◌, none, some, length, get_elem?, ltb, not, ◌||◌, if◌then◌else◌, All, arith,
  Option-cases, Bool-cases, get_elem?-length,
}
use triptorrent.Protocol.Availability.{PieceAvailability, contains}
use triptorrent.Swarm.Scheduler.{
  ChunkState, missing, in_flight, complete, ProviderState, Scheduler, saturate_u32, source_count,
  pair_lt, min_from, min_pair, candidates, claim, assign_idle, assign, is_missing,
}

abbrev NotBelow : ℕ × ℕ → List (ℕ × ℕ) → Type 0
NotBelow m xs = All (λ x. pair_lt x m ≡ false) xs

pair_lt_asymm : (x y m : ℕ × ℕ) → pair_lt x y ≡ true → pair_lt x m ≡ false → pair_lt y m ≡ false
pair_lt_asymm (a, b) (c, d) (e, f) h k = ground arith

pair_lt_trans : (x y m : ℕ × ℕ) → pair_lt x y ≡ false → pair_lt y m ≡ false → pair_lt x m ≡ false
pair_lt_trans (a, b) (c, d) (e, f) h k = ground arith

pair_lt_irrefl : (x : ℕ × ℕ) → pair_lt x x ≡ false
pair_lt_irrefl (a, b) = ground arith

step :
    (x acc : ℕ × ℕ) (xs : List (ℕ × ℕ)) (b : Bool)
    → pair_lt x acc ≡ b
    → min_from acc (x ∷ xs) ≡ min_from (if b then x else acc) xs
unfolding min_from
step x acc xs b h = ap (λ t. min_from (if t then x else acc) xs) h

-- The minimum is above nothing of the list, and is one of its entries.
min_from_least :
    (acc : ℕ × ℕ) (xs : List (ℕ × ℕ))
    → (pair_lt acc (min_from acc xs) ≡ false) × NotBelow (min_from acc xs) xs
unfolding min_from
min_from_least acc [] = (pair_lt_irrefl acc, tt)
min_from_least acc (x ∷ xs) = elim (Bool-cases (pair_lt x acc)) [
  | inl less ↦
      let ih = min_from_least x xs in
      subst (λ m. (pair_lt acc m ≡ false) × NotBelow m (x ∷ xs)) (sym (step x acc xs true less))
        (pair_lt_asymm x acc (min_from x xs) less ih.0, ih)
  | inr more ↦
      let ih = min_from_least acc xs in
      subst (λ m. (pair_lt acc m ≡ false) × NotBelow m (x ∷ xs)) (sym (step x acc xs false more))
        (ih.0, (pair_lt_trans x acc (min_from acc xs) more ih.0, ih.1))
]

min_from_mem :
    (P : ℕ × ℕ → Type 0) (acc : ℕ × ℕ) (xs : List (ℕ × ℕ)) → P acc → All P xs → P (min_from acc xs)
unfolding min_from
min_from_mem P acc [] h k = h
min_from_mem P acc (x ∷ xs) h k = elim (Bool-cases (pair_lt x acc)) [
  | inl less ↦ rw less (min_from_mem P x xs k.0 k.1)
  | inr more ↦ rw more (min_from_mem P acc xs h k.1)
]

module _ (s : Scheduler) (pieces : PieceAvailability) where
  -- The pair of a chunk that `assign` may take.
  abbrev IsCandidate : ℕ × ℕ → Type 0
  IsCandidate (n, j) =
      (n ≡ source_count s j)
      × (get_elem? s.chunks j ≡ some missing)
      × (contains pieces (saturate_u32 j) ≡ true)

  -- `cs` is what stands in the table from position `i` on.
  abbrev IsSuffix : ℕ → List ChunkState → Type 0
  IsSuffix i cs = (k : ℕ) → get_elem? cs k ≡ get_elem? s.chunks (i + k)

  IsSuffix-tail :
      (i : ℕ) (c : ChunkState) (cs : List ChunkState) → IsSuffix i (c ∷ cs) → IsSuffix (suc i) cs
  IsSuffix-tail i c cs h k = let e : suc i + k ≡ i + suc k = omega arith in rw e (h (suc k))

  IsSuffix-head :
      (i : ℕ) (c : ChunkState) (cs : List ChunkState)
      → IsSuffix i (c ∷ cs)
      → get_elem? s.chunks i ≡ some c
  IsSuffix-head i c cs h = let e : i + 0 ≡ i = omega arith in sym (rw e at (h 0))

  is_missing-eq : (c : ChunkState) → is_missing c ≡ true → c ≡ missing
  is_missing-eq missing h = refl
  is_missing-eq (in_flight p) h = cc
  is_missing-eq complete h = cc

  candidates_sound :
      (i : ℕ) (cs : List ChunkState) → IsSuffix i cs → All IsCandidate (candidates s pieces i cs)
  unfolding candidates
  candidates_sound i [] h = tt
  candidates_sound i (c ∷ cs) h =
      let rest = candidates_sound (suc i) cs (IsSuffix-tail i c cs h) in
      elim (Bool-cases (is_missing c && contains pieces (saturate_u32 i))) [
        | inl fits ↦ rw fits (
          (refl, IsSuffix-head i c cs h ∙ ap some (is_missing-eq c (ground arith)), ground arith),
          rest,
        )
        | inr other ↦ rw other rest
      ]

  NotBelow-if :
      (b : Bool) (m x : ℕ × ℕ) (xs : List (ℕ × ℕ))
      → NotBelow m (if b then x ∷ xs else xs)
      → NotBelow m xs
  NotBelow-if true m x xs h = h.1
  NotBelow-if false m x xs h = h

  candidates_complete :
      (m : ℕ × ℕ) (i : ℕ) (cs : List ChunkState) (k : ℕ)
      → NotBelow m (candidates s pieces i cs)
      → get_elem? cs k ≡ some missing
      → contains pieces (saturate_u32 (i + k)) ≡ true
      → pair_lt (source_count s (i + k), i + k) m ≡ false
  unfolding candidates
  candidates_complete m i [] k h e t = cc
  candidates_complete m i (c ∷ cs) zero h e t =
      let start : i + 0 ≡ i = omega arith in
      let t' : contains pieces (saturate_u32 i) ≡ true = rw start at t in
      let c' : c ≡ missing = cc in rw start ((rw (c', t') at h).0)
  candidates_complete m i (c ∷ cs) (suc k) h e t =
      let next : i + suc k ≡ suc i + k = omega arith in
      let t' : contains pieces (saturate_u32 (suc i + k)) ≡ true = rw next at t in
      let rest = NotBelow-if (is_missing c && contains pieces (saturate_u32 i)) m _ _ h in
      rw next (candidates_complete m (suc i) cs k rest e t')

  -- `min_pair` gives nothing for the empty list only.
  min_pair-none : (xs : List (ℕ × ℕ)) → min_pair xs ≡ none → xs ≡ []
  unfolding min_pair
  min_pair-none [] h = refl
  min_pair-none (x ∷ xs) h = cc

  min_pair-some :
      (xs : List (ℕ × ℕ)) (m : ℕ × ℕ)
      → min_pair xs ≡ some m
      → All IsCandidate xs
      → IsCandidate m × NotBelow m xs
  unfolding min_pair
  min_pair-some [] m h k = cc
  min_pair-some (x ∷ xs) m h k =
      let e : min_from x xs ≡ m = cc in
      subst (λ r. IsCandidate r × NotBelow r (x ∷ xs)) e
        (min_from_mem IsCandidate x xs k.0 k.1, min_from_least x xs)

-- The chunks that `assign` may give to provider `p`, in a table whose indices fit 32 bits.
pub record Assignable (s : Scheduler) (p j : ℕ) : Type 0 where
  pub state : ProviderState
  pub found : get_elem? s.providers p ≡ some state
  pub active : state.active ≡ true
  pub idle : state.busy ≡ false
  pub unclaimed : get_elem? s.chunks j ≡ some missing
  pub offered : contains state.availability j ≡ true

-- `i` has no more sources than `j`, and stands first where the numbers are equal.
abbrev pub Rarer : Scheduler → ℕ → ℕ → Type 0
Rarer s i j =
    (source_count s i < source_count s j) ⊎ ((source_count s i ≡ source_count s j) × (i ≤ j))

pub saturate_narrow :
    (s : Scheduler) (j : ℕ) (c : ChunkState)
    → length s.chunks < 2 ^ 32
    → get_elem? s.chunks j ≡ some c
    → (saturate_u32 j ≡ j) × (ltb j (2 ^ 32) ≡ true)
saturate_narrow s j c narrow e = ground (arith, get_elem?-length s.chunks j c e)

-- The two outcomes of `assign`.
abbrev pub Outcome : Scheduler → ℕ → Type 0
Outcome s p =
    ((assign s p ≡ (none, s)) × ((j : ℕ) → ¬ Assignable s p j))
    ⊎ ((i : ℕ) × (assign s p ≡ (some i, claim s p i))
        × Assignable s p i
        × ((j : ℕ) → Assignable s p j → Rarer s i j))

not_below : (a b c d : ℕ) → pair_lt (a, b) (c, d) ≡ false → (c < a) ⊎ ((c ≡ a) × (d ≤ b))
not_below a b c d h = ground arith

module _ (s : Scheduler) (p : ℕ) (narrow : length s.chunks < 2 ^ 32) (state : ProviderState)
    (found : get_elem? s.providers p ≡ some state) where
  abbrev table : List (ℕ × ℕ)
  table = candidates s state.availability 0 s.chunks

  offered_by : (j : ℕ) → Assignable s p j → contains state.availability (saturate_u32 j) ≡ true
  offered_by j h =
      let same : h.state ≡ state = cc in
      let small = saturate_narrow s j missing narrow h.unclaimed in rw (small.0, ← same) h.offered

  NotBelow-minimum :
      (m : ℕ × ℕ)
      → NotBelow m table
      → (j : ℕ) → Assignable s p j
      → pair_lt (source_count s j, j) m ≡ false
  NotBelow-minimum m least j h =
      let start : 0 + j ≡ j = omega arith in
      rw start at (
        candidates_complete s state.availability m 0 s.chunks j least h.unclaimed
          (rw start (offered_by j h)))

  nothing-Assignable : min_pair table ≡ none → (j : ℕ) → ¬ Assignable s p j
  nothing-Assignable e j h =
      let empty = min_pair-none s state.availability table e in
      let above : pair_lt (source_count s j, j) (suc (source_count s j), 0) ≡ true = ground arith in
      cc (above, NotBelow-minimum (suc (source_count s j), 0) (rw empty tt) j h)

  assign-eq : (not state.active || state.busy) ≡ false → assign s p ≡ assign_idle s p state
  unfolding assign
  assign-eq idle = ground arith

  assign_idle-none : min_pair table ≡ none → assign_idle s p state ≡ (none, s)
  unfolding assign_idle
  assign_idle-none e = ground arith

  assign_idle-some :
      (n i : ℕ)
      → min_pair table ≡ some (n, i)
      → ltb i (2 ^ 32) ≡ true
      → assign_idle s p state ≡ (some i, claim s p i)
  unfolding assign_idle
  assign_idle-some n i e small = ground arith

  assign_refused : (not state.active || state.busy) ≡ true → assign s p ≡ (none, s)
  unfolding assign
  assign_refused h = ground arith

  idle-Outcome : (not state.active || state.busy) ≡ false → Outcome s p
  idle-Outcome idle = elim (Option-cases (min_pair table)) [
    | inl e ↦ inl (assign-eq idle ∙ assign_idle-none e, nothing-Assignable e)
    | inr ((n, i), e) ↦
        let best =
          min_pair-some s state.availability table (n, i) e
            (candidates_sound s state.availability 0 s.chunks
              (λ k. let start : 0 + k ≡ k = omega arith in rw start refl)) in
        let small = saturate_narrow s i missing narrow best.0.1 in
        inr (
          i,
          assign-eq idle ∙ assign_idle-some n i e small.1,
          (record {
            state = state;
            found = found;
            active = ground arith;
            idle = ground arith;
            unclaimed = best.0.1;
            offered = rw small.0 at (best.0.2);
          }),
          λ j h.
              rw best.0.0 at
                (not_below (source_count s j) j n i (NotBelow-minimum (n, i) best.1 j h)),
        )
  ]

assign_unknown : (s : Scheduler) (p : ℕ) → get_elem? s.providers p ≡ none → assign s p ≡ (none, s)
unfolding assign
assign_unknown s p e = ground arith

-- With fewer than 2^32 chunks, a provider that is unknown, inactive or busy gets nothing, and so
-- does one that offers no missing chunk; then nothing changes. Any other gets a missing chunk that
-- it offers and that no other has fewer sources than, the first of them, which is then claimed.
pub assign-Outcome : (s : Scheduler) (p : ℕ) → length s.chunks < 2 ^ 32 → Outcome s p
assign-Outcome s p narrow = elim (Option-cases (get_elem? s.providers p)) [
  | inl e ↦ inl (assign_unknown s p e, λ j h. cc (h.found))
  | inr (state, e) ↦ elim (Bool-cases (not state.active || state.busy)) [
    | inl refused ↦ inl (
      assign_refused s p narrow state e refused,
      λ j h. let same : h.state ≡ state = cc in ground (arith, same, h.active, h.idle),
    )
    | inr idle ↦ idle-Outcome s p narrow state e idle
  ]
]
