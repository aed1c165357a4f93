-- ===== src/Swarm/Scheduler.antt =====
-- `Scheduler`: rarest-first assignment of chunks, at most one request for each provider.
-- A method that mutates the scheduler returns the new one. Counters do not reach 2^64.
pub mod Counts
pub mod Invariant
pub mod Choice
pub mod Progress
mod Tests
use triptorrent.Base.{
  ℕ, zero, suc, ◌+◌, ◌-◌, ◌^◌, List, [], ◌∷◌, map, Bool, true, false, not, ◌&&◌, ◌||◌, Option, none,
  some, length, get_elem?, set, modify, keep_if, all, any, ltb, ◌==◌, if◌then◌else◌, Result, ok,
  err, guard, ok_or, ◌>>=◌, ◌>>◌,
}
use triptorrent.Protocol.Availability.{PieceAvailability, is_valid, contains}

pub data ChunkState : Type 0 where
  missing : ChunkState
  in_flight : ℕ → ChunkState
  complete : ChunkState

pub record ProviderState : Type 0 where
  pub availability : PieceAvailability
  pub active : Bool
  pub busy : Bool
  pub accepted : ℕ
  pub rejected : ℕ

pub record ProviderStats : Type 0 where
  pub accepted : ℕ
  pub rejected : ℕ
  pub active : Bool

pub record Scheduler : Type 0 where
  pub chunks : List ChunkState
  pub providers : List ProviderState
  pub retries : ℕ

pub data ScheduleError : Type 0 where
  invalid_completed_length invalid_availability too_many_chunks unknown_provider unexpected_chunk :
      ScheduleError

-- `*state == ChunkState::Missing` and its like.
abbrev pub is_missing : ChunkState → Bool
is_missing missing = true
is_missing (in_flight p) = false
is_missing complete = false

abbrev pub is_complete_state : ChunkState → Bool
is_complete_state missing = false
is_complete_state (in_flight p) = false
is_complete_state complete = true

abbrev pub is_in_flight_of : ℕ → ChunkState → Bool
is_in_flight_of p missing = false
is_in_flight_of p (in_flight q) = q == p
is_in_flight_of p complete = false

abbrev pub is_in_flight : ChunkState → Bool
is_in_flight missing = false
is_in_flight (in_flight q) = true
is_in_flight complete = false

abbrev pub initial_chunk : Bool → ChunkState
initial_chunk done = if done then complete else missing

abbrev pub initial_provider : PieceAvailability → ProviderState
initial_provider pieces = record {
  availability = pieces;
  active = true;
  busy = false;
  accepted = 0;
  rejected = 0;
}

pub new : ℕ → List PieceAvailability → List Bool → Result ScheduleError Scheduler
new chunk_count availability completed = do
  guard (length completed == chunk_count) invalid_completed_length
  guard (ltb chunk_count (2 ^ 32)) too_many_chunks
  guard
      (not (
        any (λ pieces. not (pieces.chunk_count == chunk_count) || not (is_valid pieces))
          availability))
      invalid_availability
  ok (record {
    chunks = map initial_chunk completed;
    providers = map initial_provider availability;
    retries = 0;
  })

-- `u32::try_from(index).unwrap_or(u32::MAX)`
abbrev pub saturate_u32 : ℕ → ℕ
saturate_u32 n = if ltb n (2 ^ 32) then n else 2 ^ 32 - 1

-- `provider.active && provider.availability.contains(index)`, one provider's part of a count.
abbrev pub is_source : ℕ → ProviderState → Bool
is_source index p = p.active && contains p.availability index

pub source_count : Scheduler → ℕ → ℕ
source_count s index = length (keep_if (is_source (saturate_u32 index)) s.providers)

-- The order of `(usize, usize)` in `Iterator::min`.
abbrev pub pair_lt : ℕ × ℕ → ℕ × ℕ → Bool
pair_lt (a, b) (c, d) = ltb a c || (a == c && ltb b d)

pub min_from : ℕ × ℕ → List (ℕ × ℕ) → ℕ × ℕ
min_from acc [] = acc
min_from acc (x ∷ xs) = min_from (if pair_lt x acc then x else acc) xs

pub min_pair : List (ℕ × ℕ) → Option (ℕ × ℕ)
unfolding min_from
min_pair [] = none
min_pair (x ∷ xs) = some (min_from x xs)

-- `enumerate().filter(..).map(..)` of `assign`, from position `i` on.
pub candidates : Scheduler → PieceAvailability → ℕ → List ChunkState → List (ℕ × ℕ)
unfolding source_count
candidates s pieces i [] = []
candidates s pieces i (c ∷ cs) =
    let rest = candidates s pieces (suc i) cs in
    if is_missing c && contains pieces (saturate_u32 i) then (source_count s i, i) ∷ rest else rest

abbrev pub set_busy : ProviderState → ProviderState
set_busy state = record state { busy = true }

pub claim : Scheduler → ℕ → ℕ → Scheduler
claim s provider index = record s {
  chunks = set s.chunks index (in_flight provider);
  providers = modify s.providers provider set_busy;
}

pub assign_idle : Scheduler → ℕ → ProviderState → Option ℕ × Scheduler
unfolding min_pair candidates claim
assign_idle s provider state = elim (min_pair (candidates s state.availability 0 s.chunks)) [
  | none ↦ (none, s)
  | some (count, index) ↦
      ((if ltb index (2 ^ 32) then some index else none), claim s provider index)
]

pub assign : Scheduler → ℕ → Option ℕ × Scheduler
unfolding assign_idle
assign s provider = elim (get_elem? s.providers provider) [
  | none ↦ (none, s)
  | some state ↦ if not state.active || state.busy then (none, s) else assign_idle s provider state
]

abbrev pub set_accepted : ProviderState → ProviderState
set_accepted state = record state { busy = false; accepted = state.accepted + 1 }

pub finish_chunk : Scheduler → ℕ → ℕ → Result ScheduleError (Unit {0}) × Scheduler
finish_chunk s provider index =
    let done = set s.chunks index complete in
    elim (get_elem? s.providers provider) [
      | none ↦ (err unknown_provider, record s { chunks = done })
      | some state ↦
          (ok tt, record s { chunks = done; providers = modify s.providers provider set_accepted })
    ]

pub accept : Scheduler → ℕ → ℕ → Result ScheduleError (Unit {0}) × Scheduler
unfolding finish_chunk
accept s provider index = elim (get_elem? s.chunks index) [
  | none ↦ (err unexpected_chunk, s)
  | some c ↦
      if is_in_flight_of provider c
      then finish_chunk s provider index
      else (err unexpected_chunk, s)
]

abbrev pub release : ℕ → ChunkState → ChunkState
release provider c = if is_in_flight_of provider c then missing else c

abbrev pub set_rejected : ProviderState → ProviderState
set_rejected state = record state { busy = false; active = false; rejected = state.rejected + 1 }

-- How many chunks `provider` holds.
pub claims : ℕ → List ChunkState → ℕ
claims provider cs = length (keep_if (is_in_flight_of provider) cs)

pub reject : Scheduler → ℕ → Scheduler
unfolding claims
reject s provider = record {
  chunks = map (release provider) s.chunks;
  providers = modify s.providers provider set_rejected;
  retries = s.retries + claims provider s.chunks;
}

pub is_complete : Scheduler → Bool
is_complete s = all is_complete_state s.chunks

pub has_in_flight : Scheduler → Bool
has_in_flight s = any is_in_flight s.chunks

pub can_finish_from : Scheduler → ℕ → List ChunkState → Bool
unfolding source_count
can_finish_from s i [] = true
can_finish_from s i (c ∷ cs) =
    (not (is_missing c) || ltb 0 (source_count s i)) && can_finish_from s (suc i) cs

pub can_finish : Scheduler → Bool
unfolding can_finish_from
can_finish s = can_finish_from s 0 s.chunks

pub provider_stats : Scheduler → ℕ → Option ProviderStats
provider_stats s provider = elim (get_elem? s.providers provider) [
  | none ↦ none
  | some state ↦
      some (record { accepted = state.accepted; rejected = state.rejected; active = state.active })
]
