-- ===== src/ReferenceCheck/Node/Cached.antt =====
-- The block cache of src/reference_check.rs within one tick.
use rpc_latency_monitor.Prelude.{
  ℕ, String, ◌≡◌, inl, inr, some, ◌==◌, nat_eq, lookup, lookup-insert, ==_iff, ==_refl,
  Option-cases, Bool-cases,
}
use rpc_latency_monitor.Crates.{Crates}
use rpc_latency_monitor.Rpc.Client.{Env}
use rpc_latency_monitor.ReferenceCheck.Node.{NodeBlock, Blocks, fetch_block, node_block}

module _ ⦃c : Crates⦄ where
  node_block-known :
      (url : String) (slot : ℕ) (s : Blocks × Env) (b : NodeBlock)
      → lookup slot s.0 ≡ some b
      → node_block url slot s ≡ (b, s)
  unfolding node_block
  node_block-known url slot (cache, e) b h = rw (h, node_block)

  -- What was answered is in the cache.
  pub node_block-stored :
      (url : String) (slot : ℕ) (s : Blocks × Env)
      → lookup slot (node_block url slot s).1.0 ≡ some (node_block url slot s).0
  unfolding node_block fetch_block
  node_block-stored url slot (cache, e) = elim (Option-cases (lookup slot cache)) [
    | inl missing ↦ rw (missing, node_block, lookup-insert, ==_refl slot)
    | inr (b, found) ↦ rw (found, node_block) found
  ]

  -- What was in the cache stays there.
  pub node_block-stable :
      (url : String) (slot : ℕ) (s : Blocks × Env) (k : ℕ) (b : NodeBlock)
      → lookup k s.0 ≡ some b
      → lookup k (node_block url slot s).1.0 ≡ some b
  unfolding node_block fetch_block
  node_block-stable url slot (cache, e) k b h = elim (Option-cases (lookup slot cache)) [
    | inr (a, found) ↦ rw (found, node_block) h
    | inl missing ↦ elim (Bool-cases (slot == k)) [
      | inl same ↦ cc (h, missing, (==_iff slot k).0 same)
      | inr other ↦ rw (missing, node_block, lookup-insert, other) h
    ]
  ]

  -- Within a tick the node is asked for a block once: a second question has the answer of the
  -- first, and changes neither the cache nor the world.
  pub node_block-twice :
      (url : String) (slot : ℕ) (s : Blocks × Env)
      → node_block url slot (node_block url slot s).1
        ≡ ((node_block url slot s).0, (node_block url slot s).1)
  node_block-twice url slot s =
      node_block-known url slot (node_block url slot s).1 _ (node_block-stored url slot s)
