-- ===== src/Methods/Batch.antt =====
-- `pick_batch` of src/rpc/methods.rs.
use rpc_latency_monitor.Prelude.{
  ℕ, ◌+◌, ◌%◌, ◌≤◌, ◌<◌, ◌≡◌, ◌≢◌, ◌∙◌, ◌-◌, ◌⊎◌, inl, inr, String, Option, List, [], ◌∷◌, map,
  arith, leb, length, get_or, get_elem?, get_elem?-in_range, unwrap_or, if◌then◌else◌, some,
}
use native.Mathlib.Decide.{dec_lt}
use native.Mathlib.Nat.{add-zero, mod-lt, mod-eq_of_lt, mod-eq-sub-mod}
use rpc_latency_monitor.Target.{usdc_mint, usdt_mint, wsol_mint, token_program}

abbrev pub multi_accounts : List String
multi_accounts = usdc_mint ∷ usdt_mint ∷ wsol_mint ∷ token_program ∷ []

abbrev pub fallback_address : String
fallback_address = usdc_mint

-- `MULTI_ACCOUNT_BATCH - 1`
abbrev rotating : ℕ
rotating = 3

-- the place in the pool of the k-th account drawn
abbrev pub place : List String → Option ℕ → ℕ → ℕ
place pool seed k = (unwrap_or seed 0 % length pool + k) % length pool

drawn : List String → Option ℕ → ℕ → String
drawn pool seed k = get_or pool (place pool seed k) ""

unfoldable pub pick_batch : List String → Option ℕ → List String
unfolding drawn
pick_batch pool seed =
    if leb rotating (length pool)
    then fallback_address ∷ map (drawn pool seed) (0 ∷ 1 ∷ 2 ∷ [])
    else multi_accounts

place-lt :
    (pool : List String) (seed : Option ℕ) (k : ℕ)
    → 3 ≤ length pool
    → place pool seed k < length pool
place-lt pool seed k h = grind (arith, mod-lt)

-- A sum of two numbers that is below twice the modulus wraps once at most.
mod-wraps : (a n : ℕ) → a < n + n → (a % n ≡ a) ⊎ ((n ≤ a) × (a % n ≡ a - n))
mod-wraps a n h = elim (dec_lt a n) [
  | yes p ↦ inl (mod-eq_of_lt p)
  | no p ↦
      inr (omega arith, mod-eq-sub-mod {m = n} (omega arith) ∙ mod-eq_of_lt {m = n} (omega arith))
]

place-ne :
    (pool : List String) (seed : Option ℕ) (i j : ℕ)
    → 3 ≤ length pool
    → i < j
    → j < 3
    → place pool seed i ≢ place pool seed j
place-ne pool seed i j h lt below =
    let n = length pool in
    let start = unwrap_or seed 0 % n in
    let small : start < n = mod-lt (unwrap_or seed 0) (omega arith) in
    omega (arith, mod-wraps (start + i) n (omega arith), mod-wraps (start + j) n (omega arith))

place-zero :
    (pool : List String) (seed : Option ℕ)
    → 3 ≤ length pool
    → place pool seed 0 ≡ unwrap_or seed 0 % length pool
place-zero pool seed h =
    let n = length pool in
    let start = unwrap_or seed 0 % n in
    let small : start < n = mod-lt (unwrap_or seed 0) (omega arith) in
    rw add-zero (mod-eq_of_lt {m = n} small)

-- From a pool of three accounts or more the batch is the fallback address and three entries of the
-- pool, at three different places, the first of them at the seed modulo the size of the pool.
pub pick_batch-draws :
    (pool : List String) (seed : Option ℕ)
    → 3 ≤ length pool
    → (a b d : String) × (pick_batch pool seed ≡ fallback_address ∷ a ∷ b ∷ d ∷ [])
      × (get_elem? pool (place pool seed 0) ≡ some a)
      × (get_elem? pool (place pool seed 1) ≡ some b)
      × (get_elem? pool (place pool seed 2) ≡ some d)
      × (place pool seed 0 ≡ unwrap_or seed 0 % length pool)
      × (place pool seed 0 ≢ place pool seed 1)
      × (place pool seed 0 ≢ place pool seed 2)
      × (place pool seed 1 ≢ place pool seed 2)
unfolding pick_batch
pick_batch-draws pool seed h = (
  drawn pool seed 0,
  drawn pool seed 1,
  drawn pool seed 2,
  ground arith,
  get_elem?-in_range pool _ "" (place-lt pool seed 0 h),
  get_elem?-in_range pool _ "" (place-lt pool seed 1 h),
  get_elem?-in_range pool _ "" (place-lt pool seed 2 h),
  place-zero pool seed h,
  place-ne pool seed 0 1 h (omega arith) (omega arith),
  place-ne pool seed 0 2 h (omega arith) (omega arith),
  place-ne pool seed 1 2 h (omega arith) (omega arith),
)
