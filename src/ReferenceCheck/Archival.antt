-- ===== src/ReferenceCheck/Archival.antt =====
-- The archival check of src/reference_check.rs: an old slot that was not asked for before, the hash
-- that most providers give for it, and the anchor that two of them confirm.
pub mod Slots
pub mod Majority
pub mod Round
use rpc_latency_monitor.Prelude.{
  ℕ, zero, suc, ◌+◌, ◌-◌, String, Bool, true, false, not, ◌&&◌, ◌||◌, Option, none, some, List, [],
  ◌∷◌, ◌++◌, ◌==◌, nat_eq, string_eq, ltb, leb, length, contains, keep, find, lookup, insert, Map,
  unwrap_or, checked_sub, is_some, if◌then◌else◌,
}
use rpc_latency_monitor.Prelude.State.{State, pure, ◌>>=◌, ◌>>◌}
use rpc_latency_monitor.Crates.{Crates}

abbrev pub archival_used_cap : ℕ
archival_used_cap = 200000

abbrev pub archival_min_quorum : ℕ
archival_min_quorum = 2

-- `HashSet` and `VecDeque`
pub record UsedSlots : Type 0 where
  pub set : List ℕ
  pub order : List ℕ

abbrev pub unused : UsedSlots
unused = record { set = []; order = [] }

abbrev pub without : ℕ → List ℕ → List ℕ
without a set = keep (λ x. not (a == x)) set

-- The oldest slot leaves both, if there are too many.
evict : List ℕ → List ℕ → UsedSlots
evict set [] = record { set = set; order = [] }
evict set (oldest ∷ order) =
    if ltb archival_used_cap (length (oldest ∷ order))
    then record { set = without oldest set; order = order }
    else record { set = set; order = oldest ∷ order }

unfoldable pub insert_slot : ℕ → UsedSlots → Bool × UsedSlots
unfolding evict
insert_slot slot used =
    if contains used.set slot
    then (false, used)
    else (true, evict (slot ∷ used.set) (used.order ++ slot ∷ []))

module _ ⦃c : Crates⦄ where
  open c use {World, random_range}

  -- The loop, with the tries that are left.
  pick_loop : ℕ → ℕ → ℕ → State (UsedSlots × World) (Option ℕ)
  pick_loop zero floor ceil s = (none, s)
  pick_loop (suc tries) floor ceil (used, w) =
      let (slot, w') = random_range floor ceil w in
      let (fresh, used') = insert_slot slot used in
      let again = pick_loop tries floor ceil (used', w') in
      if fresh then (some slot, (used', w')) else again

  -- `ARCHIVAL_SLOT_PICK_TRIES` is 32.
  unfoldable pub pick_unused_slot : ℕ → ℕ → State (UsedSlots × World) (Option ℕ)
  unfolding pick_loop
  pick_unused_slot floor ceil = pick_loop 32 floor ceil

-- A provider's name, and the hash and the signature that it gave.
pub record Observed : Type 0 where
  pub name : String
  pub hash : Option String
  pub signature : Option String

-- `*counts.entry(h).or_insert(0) += 1`
abbrev vote : Option String → Map String ℕ → Map String ℕ
vote none counts = counts
vote (some h) counts = insert h (unwrap_or (lookup h counts) 0 + 1) counts

unfoldable pub count_votes : List Observed → Map String ℕ → Map String ℕ
count_votes [] counts = counts
count_votes (o ∷ os) counts = count_votes os (vote o.hash counts)

-- `max_by_key`: the last of those with the most votes, in the order in which the table is walked.
unfoldable pub max_by_votes : List (String × ℕ) → Option (String × ℕ)
max_by_votes [] = none
max_by_votes ((h, n) ∷ rest) = elim (max_by_votes rest) [
  | none ↦ some (h, n)
  | some (g, k) ↦ if ltb k n then some (h, n) else some (g, k)
]

abbrev hash_is : String → Option String → Bool
hash_is winner none = false
hash_is winner (some h) = h == winner

abbrev has_hash : String → Observed → Bool
has_hash winner o = hash_is winner o.hash

abbrev signature_of : Option Observed → Option String
signature_of none = none
signature_of (some o) = o.signature

with_quorum : List Observed → Option (String × ℕ) → Option (String × Option String)
with_quorum observed none = none
with_quorum observed (some (winner, votes)) =
    if ltb votes archival_min_quorum
    then none
    else some (winner, signature_of (find (has_hash winner) observed))

-- A `HashMap` is walked in an order that the program does not choose: `walk` is that order.
unfoldable pub majority_block :
    (Map String ℕ → List (String × ℕ)) → List Observed → Option (String × Option String)
unfolding count_votes max_by_votes with_quorum
majority_block walk observed = with_quorum observed (max_by_votes (walk (count_votes observed [])))
