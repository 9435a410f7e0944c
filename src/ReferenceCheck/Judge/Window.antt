-- ===== src/ReferenceCheck/Judge/Window.antt =====
-- The verdict on the latest blockhash, against the blocks that the tick has learnt.
use rpc_latency_monitor.Prelude.{
  ℕ, zero, suc, ◌+◌, ◌-◌, ◌≤◌, String, ◌≡◌, ◌≢◌, refl, sym, ap, ◌∙◌, Bool, true, false, ◌⊎◌, inl,
  inr, some, arith, ◌==◌, nat_eq, string_eq, lookup, ==_iff, sym, ap, ◌∙◌, Bool-cases,
}
use mathlib.Core.Path.{subst}
use native.Mathlib.Nat.{add-zero}
use rpc_latency_monitor.Crates.{Crates}
use rpc_latency_monitor.Rpc.Client.{Env}
use rpc_latency_monitor.ReferenceCheck.Node.{NodeBlock, hash, skipped, Blocks, node_block}
use rpc_latency_monitor.ReferenceCheck.Node.Cached.{node_block-stored, node_block-stable}
use rpc_latency_monitor.ReferenceCheck.Judge.{
  Verdict, match, mismatch, missing, skip, drift, implausible, Seen, matched, goes_on, see,
  window_loop, window_end, judge_window_block, latest_blockhash_window,
}

-- Every block of the window is known and has the property.
abbrev pub Every : (NodeBlock → Type 0) → Blocks → ℕ → ℕ → Type 0
Every P cache floor top =
    (k : ℕ) → floor ≤ k → k ≤ top → (b : NodeBlock) × (lookup k cache ≡ some b) × P b

abbrev pub Some : (NodeBlock → Type 0) → Blocks → ℕ → ℕ → Type 0
Some P cache floor top =
    (k : ℕ) × (b : NodeBlock) × (floor ≤ k) × (k ≤ top) × (lookup k cache ≡ some b) × P b

abbrev pub IsHash : NodeBlock → Type 0
IsHash (hash h) = Unit
IsHash _ = ⊥

abbrev pub IsOther : String → NodeBlock → Type 0
IsOther claimed (hash h) = h ≢ claimed
IsOther claimed _ = Unit

abbrev pub IsOtherKnown : String → NodeBlock → Type 0
IsOtherKnown claimed (hash h) = h ≢ claimed
IsOtherKnown claimed skipped = Unit
IsOtherKnown claimed NodeBlock.unavailable = ⊥

-- What each verdict says of the blocks from `floor` to `top`, where the two flags stand for blocks that
-- were seen before.
abbrev pub Says : Blocks → ℕ → ℕ → String → Bool → Bool → Verdict → Type 0
Says cache floor top claimed b u match = Some (λ x. x ≡ hash claimed) cache floor top
Says cache floor top claimed b u skip =
    Every (IsOther claimed) cache floor top
    × ((u ≡ true) ⊎ Some (λ x. x ≡ NodeBlock.unavailable) cache floor top)
Says cache floor top claimed b u mismatch =
    Every (IsOtherKnown claimed) cache floor top
    × (u ≡ false)
    × ((b ≡ true) ⊎ Some IsHash cache floor top)
Says cache floor top claimed b u missing =
    Every (λ x. x ≡ skipped) cache floor top × (u ≡ false) × (b ≡ false)
Says cache floor top claimed b u _ = ⊥

see-hash :
    (h claimed : String) (b u b' u' : Bool)
    → see (hash h) claimed b u ≡ goes_on b' u'
    → (h ≢ claimed) × (b' ≡ true) × (u' ≡ u)
unfolding see
see-hash h claimed b u b' u' e = elim (Bool-cases (h == claimed)) [
  | inl same ↦ cc (rw same at e)
  | inr other ↦
      let e' : goes_on true u ≡ goes_on b' u' = rw other at e in
      ((λ eq. cc (other, (==_iff h claimed).1 eq)), cc, cc)
]

see-skipped :
    (claimed : String) (b u b' u' : Bool)
    → see skipped claimed b u ≡ goes_on b' u'
    → (b' ≡ b) × (u' ≡ u)
unfolding see
see-skipped claimed b u b' u' e = (cc, cc)

see-unavailable :
    (claimed : String) (b u b' u' : Bool)
    → see NodeBlock.unavailable claimed b u ≡ goes_on b' u'
    → (b' ≡ b) × (u' ≡ true)
unfolding see
see-unavailable claimed b u b' u' e = (cc, cc)

module _ (cache : Blocks) (floor top : ℕ) where
  Every-suc :
      (P : NodeBlock → Type 0) (x : NodeBlock)
      → Every P cache floor top
      → lookup (suc top) cache ≡ some x
      → P x
      → Every P cache floor (suc top)
  Every-suc P x all here p k low high = elim (Bool-cases (k == suc top)) [
    | inl e ↦ (x, rw ((==_iff k (suc top)).0 e) here, p)
    | inr ne ↦ all k low (ground arith)
  ]

  Some-suc : (P : NodeBlock → Type 0) → Some P cache floor top → Some P cache floor (suc top)
  Some-suc P (k, b, low, high, found, p) = (k, b, low, omega arith, found, p)

  more_suc :
      (u u' : Bool)
      → u' ≡ u
      → (u' ≡ true) ⊎ Some (λ x. x ≡ NodeBlock.unavailable) cache floor top
      → (u ≡ true) ⊎ Some (λ x. x ≡ NodeBlock.unavailable) cache floor (suc top)
  more_suc u u' e (inl h) = inl (sym e ∙ h)
  more_suc u u' e (inr s) = inr (Some-suc _ s)

  IsHash-suc :
      (b b' : Bool)
      → b' ≡ b
      → (b' ≡ true) ⊎ Some IsHash cache floor top
      → (b ≡ true) ⊎ Some IsHash cache floor (suc top)
  IsHash-suc b b' e (inl h) = inl (sym e ∙ h)
  IsHash-suc b b' e (inr s) = inr (Some-suc _ s)

  -- One more block at the top, seen before the others.
  extend :
      (x : NodeBlock) (claimed : String) (b u : Bool) (b' u' : Bool) (v : Verdict)
      → floor ≤ suc top
      → lookup (suc top) cache ≡ some x
      → see x claimed b u ≡ goes_on b' u'
      → Says cache floor top claimed b' u' v
      → Says cache floor (suc top) claimed b u v
  extend x claimed b u b' u' match low here e says = Some-suc _ says
  extend (hash h) claimed b u b' u' skip low here e (all, more) =
      let (ne, eb, eu) = see-hash h claimed b u b' u' e in
      (Every-suc (IsOther claimed) (hash h) all here ne, more_suc u u' eu more)
  extend skipped claimed b u b' u' skip low here e (all, more) =
      let (eb, eu) = see-skipped claimed b u b' u' e in
      (Every-suc (IsOther claimed) skipped all here tt, more_suc u u' eu more)
  extend NodeBlock.unavailable claimed b u b' u' skip low here e (all, more) = (
    Every-suc (IsOther claimed) NodeBlock.unavailable all here tt,
    inr (suc top, NodeBlock.unavailable, low, omega arith, here, refl),
  )
  extend (hash h) claimed b u b' u' mismatch low here e (all, known, more) =
      let (ne, eb, eu) = see-hash h claimed b u b' u' e in
      (
        Every-suc (IsOtherKnown claimed) (hash h) all here ne,
        cc,
        inr (suc top, hash h, low, omega arith, here, tt),
      )
  extend skipped claimed b u b' u' mismatch low here e (all, known, more) =
      let (eb, eu) = see-skipped claimed b u b' u' e in
      (Every-suc (IsOtherKnown claimed) skipped all here tt, cc, IsHash-suc b b' eb more)
  extend NodeBlock.unavailable claimed b u b' u' mismatch low here e (all, known, more) =
      cc (see-unavailable claimed b u b' u' e).1
  extend (hash h) claimed b u b' u' missing low here e (all, known, none_seen) =
      cc (see-hash h claimed b u b' u' e).1
  extend skipped claimed b u b' u' missing low here e (all, known, none_seen) =
      let (eb, eu) = see-skipped claimed b u b' u' e in
      (Every-suc (λ x. x ≡ skipped) skipped all here refl, cc, cc)
  extend NodeBlock.unavailable claimed b u b' u' missing low here e (all, known, none_seen) =
      cc (see-unavailable claimed b u b' u' e).1
  extend x claimed b u b' u' drift low here e says = absurd says
  extend x claimed b u b' u' implausible low here e says = absurd says

extend_at :
    (cache : Blocks) (floor top slot : ℕ) (x : NodeBlock) (claimed : String) (b u b' u' : Bool)
    (v : Verdict)
    → slot ≡ suc top
    → floor ≤ slot
    → lookup slot cache ≡ some x
    → see x claimed b u ≡ goes_on b' u'
    → Says cache floor top claimed b' u' v
    → Says cache floor slot claimed b u v
extend_at cache floor top slot x claimed b u b' u' v e low here g says =
    rw e (extend cache floor top x claimed b u b' u' v (rw e at low) (rw e at here) g says)

module _ (cache : Blocks) (floor : ℕ) where
  Every-one :
      (P : NodeBlock → Type 0) (x : NodeBlock)
      → lookup floor cache ≡ some x
      → P x
      → Every P cache floor floor
  Every-one P x here p k low high = let same : k ≡ floor = omega arith in (x, rw same here, p)

  -- The last round, at the floor.
  ends :
      (x : NodeBlock) (claimed : String) (b u : Bool) (b' u' : Bool)
      → lookup floor cache ≡ some x
      → see x claimed b u ≡ goes_on b' u'
      → Says cache floor floor claimed b u (window_end b' u')
  ends (hash h) claimed b true b' u' here e =
      let (ne, eb, eu) = see-hash h claimed b true b' u' e in
      rw eu (Every-one (IsOther claimed) (hash h) here ne, inl refl)
  ends (hash h) claimed b false b' u' here e =
      let (ne, eb, eu) = see-hash h claimed b false b' u' e in
      rw (eu, eb)
        (
          Every-one (IsOtherKnown claimed) (hash h) here ne,
          refl,
          inr (floor, hash h, omega arith, omega arith, here, tt),
        )
  ends skipped claimed b true b' u' here e =
      let (eb, eu) = see-skipped claimed b true b' u' e in
      rw eu (Every-one (IsOther claimed) skipped here tt, inl refl)
  ends skipped claimed true false b' u' here e =
      let (eb, eu) = see-skipped claimed true false b' u' e in
      rw (eu, eb) (Every-one (IsOtherKnown claimed) skipped here tt, refl, inl refl)
  ends skipped claimed false false b' u' here e =
      let (eb, eu) = see-skipped claimed false false b' u' e in
      rw (eu, eb) (Every-one (λ x. x ≡ skipped) skipped here refl, refl, refl)
  ends NodeBlock.unavailable claimed b u b' u' here e =
      let (eb, eu) = see-unavailable claimed b u b' u' e in
      rw eu (
        Every-one (IsOther claimed) NodeBlock.unavailable here tt,
        inr (floor, NodeBlock.unavailable, omega arith, omega arith, here, refl),
      )

Seen-cases : (x : Seen) → (x ≡ matched) ⊎ ((b u : Bool) × (x ≡ goes_on b u))
Seen-cases matched = inl refl
Seen-cases (goes_on b u) = inr (b, u, refl)

see-matched :
    (x : NodeBlock) (claimed : String) (b u : Bool) → see x claimed b u ≡ matched → x ≡ hash claimed
unfolding see
see-matched (hash h) claimed b u e = elim (Bool-cases (h == claimed)) [
  | inl same ↦ ap hash ((==_iff h claimed).0 same)
  | inr other ↦ cc (rw other at e)
]
see-matched skipped claimed b u e = cc
see-matched NodeBlock.unavailable claimed b u e = cc

module _ ⦃c : Crates⦄ (url : String) (floor : ℕ) (claimed : String) where
  window_loop-stable :
      (n : ℕ) (b u : Bool) (s : Blocks × Env) (k : ℕ) (x : NodeBlock)
      → lookup k s.0 ≡ some x
      → lookup k (window_loop url floor claimed n b u s).1.0 ≡ some x
  unfolding window_loop
  window_loop-stable zero b u s k x h =
      elim (Seen-cases (see (node_block url floor s).0 claimed b u)) [
        | inl m ↦ rw (m, window_loop) (node_block-stable url floor s k x h)
        | inr (b', u', g) ↦ rw (g, window_loop) (node_block-stable url floor s k x h)
      ]
  window_loop-stable (suc n) b u s k x h =
      elim (Seen-cases (see (node_block url (floor + suc n) s).0 claimed b u)) [
        | inl m ↦ rw (m, window_loop) (node_block-stable url (floor + suc n) s k x h)
        | inr (b', u', g) ↦
            rw (g, window_loop)
              (window_loop-stable n b' u' _ k x (node_block-stable url (floor + suc n) s k x h))
      ]

  -- A match at the slot that was asked for last.
  found_match :
      (slot top : ℕ) (b u : Bool) (s : Blocks × Env)
      → floor ≤ slot
      → slot ≤ top
      → see (node_block url slot s).0 claimed b u ≡ matched
      → Some (λ x. x ≡ hash claimed) (node_block url slot s).1.0 floor top
  found_match slot top b u s low high m =
      (slot, _, low, high, node_block-stored url slot s, see-matched _ claimed b u m)

  window_loop-Says :
      (n : ℕ) (b u : Bool) (s : Blocks × Env)
      → Says
          (window_loop url floor claimed n b u s).1.0
          floor
          (floor + n)
          claimed
          b
          u
          (window_loop url floor claimed n b u s).0
  unfolding window_loop
  window_loop-Says zero b u s =
      rw add-zero (elim (Seen-cases (see (node_block url floor s).0 claimed b u)) [
        | inl m ↦ rw (m, window_loop) (found_match floor floor b u s (omega arith) (omega arith) m)
        | inr (b', u', g) ↦
            rw (g, window_loop)
              (ends (node_block url floor s).1.0 floor (node_block url floor s).0 claimed b u b' u'
                (node_block-stored url floor s) g)
      ])
  window_loop-Says (suc n) b u s =
      let slot = floor + suc n in
      elim (Seen-cases (see (node_block url slot s).0 claimed b u)) [
        | inl m ↦ rw (m, window_loop) (found_match slot slot b u s (omega arith) (omega arith) m)
        | inr (b', u', g) ↦
            let s' = (node_block url slot s).1 in
            rw (g, window_loop)
              (extend_at (window_loop url floor claimed n b' u' s').1.0 floor (floor + n) slot
                (node_block url slot s).0 claimed b u b' u' _ (omega arith) (omega arith)
                (window_loop-stable n b' u' s' slot _ (node_block-stored url slot s)) g
                (window_loop-Says n b' u' s'))
      ]

-- What the verdict on the latest blockhash says of the cache that the check leaves: `match` that a
-- block of the window has the hash that was claimed; `skipped` that every block is known, none has
-- that hash, and one is unavailable; `mismatch` that every block is known and available, none has
-- that hash, and one has a hash; `missing` that the node skipped every slot of the window. It is no
-- other verdict. The window reaches from the slot of the claim to 8 slots below it, or to slot 0.
pub judge_window_block-Says :
    ⦃c : Crates⦄ (url : String) (slot : ℕ) (claimed : String) (s : Blocks × Env)
    → Says
        (judge_window_block url slot claimed s).1.0
        (slot - latest_blockhash_window)
        slot
        claimed
        false
        false
        (judge_window_block url slot claimed s).0
unfolding judge_window_block
judge_window_block-Says url slot claimed s =
    let floor = slot - latest_blockhash_window in
    let top : floor + (slot - floor) ≡ slot = omega arith in
    subst
      (λ t.
        Says (judge_window_block url slot claimed s).1.0 floor t claimed false false
          (judge_window_block url slot claimed s).0)
      top (window_loop-Says url floor claimed (slot - floor) false false s)
