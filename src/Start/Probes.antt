-- ===== src/Start/Probes.antt =====
-- The tasks that `spawn_checks` of src/scheduler.rs starts.
use mathlib.Core.Path.{subst}
use rpc_latency_monitor.Prelude.{
  ℕ, ◌≡◌, ◌≢◌, true, false, Bool-cases, ◌⊎◌, ◌↔◌, inl, inr, refl, sym, ◌∙◌, ap, String, List, [],
  ◌∷◌, ◌++◌, map, keep, Elem, elem_keep, elem_map, elem_append, elem_left, elem_right, ◌<>◌, arith,
}
use rpc_latency_monitor.Target.{GpaTarget}
use rpc_latency_monitor.Method.{RpcMethod, get_block_archival, get_transaction_archival}
use rpc_latency_monitor.Config.{CheckConfig}
use rpc_latency_monitor.Providers.{ProviderEndpoint}
use rpc_latency_monitor.Scheduler.{CheckTask}
use rpc_latency_monitor.Scheduler.Spawn.{
  is_archival, check_task, is_scheduled, ProviderThread, spawn_checks,
}

-- The tasks of all threads, and the names of the threads.
abbrev pub tasks_of : List ProviderThread → List CheckTask
tasks_of [] = []
tasks_of (t ∷ ts) = t.tasks ++ tasks_of ts

abbrev pub thread_names : List ProviderThread → List String
thread_names ts = map (λ (t : ProviderThread). t.name) ts

abbrev pub endpoint_names : List ProviderEndpoint → List String
endpoint_names ps = map (λ (p : ProviderEndpoint). p.name) ps

-- A method that a check of a provider may have: the archival round drives the other two.
abbrev pub IsProbed : RpcMethod → Type 0
IsProbed m = (m ≢ get_block_archival) × (m ≢ get_transaction_archival)

archival_cases :
    (m : RpcMethod)
    → is_archival m ≡ true
    → (m ≡ get_block_archival) ⊎ (m ≡ get_transaction_archival)
archival_cases get_block_archival h = inl refl
archival_cases get_transaction_archival h = inr refl
archival_cases _ h = cc

pub IsProbed-iff : (m : RpcMethod) → (is_archival m ≡ false) ↔ IsProbed m
IsProbed-iff m = (
  λ h. ((λ e. not_so get_block_archival h e refl), λ e. not_so get_transaction_archival h e refl),
  λ (a, b). elim (Bool-cases (is_archival m)) [
    | inl driven ↦ elim (archival_cases m driven) [ inl e ↦ absurd (a e) | inr e ↦ absurd (b e) ]
    | inr plain ↦ plain
  ],
)
  where
    not_so : (n : RpcMethod) → is_archival m ≡ false → m ≡ n → is_archival n ≡ true → ⊥
    not_so n h e t = true_or (sym h ∙ ap is_archival e ∙ t)
      where
        true_or : false ≡ true → ⊥
        true_or x = cc

module _ (checks : List CheckConfig) (max_slot_lag : ℕ) (targets : List GpaTarget) where
  -- A task of an endpoint, and one of some endpoint.
  abbrev pub IsTaskOf : ProviderEndpoint → CheckTask → Type 0
  IsTaskOf p t =
      (k : CheckConfig) × Elem k checks
      × (IsProbed k.method)
      × (t ≡ check_task max_slot_lag targets p k)

  abbrev pub IsProbe : List ProviderEndpoint → CheckTask → Type 0
  IsProbe ps t = (p : ProviderEndpoint) × Elem p ps × (IsTaskOf p t)

  abbrev own_tasks : ProviderEndpoint → List CheckTask
  own_tasks p = map (check_task max_slot_lag targets p) (keep is_scheduled checks)

  own_iff : (p : ProviderEndpoint) (t : CheckTask) → Elem t (own_tasks p) ↔ IsTaskOf p t
  own_iff p t = (
    λ e.
        let (k, m, same) = (elem_map (check_task max_slot_lag targets p) t _).0 e in
        let (found, scheduled) = (elem_keep is_scheduled k checks).0 m in
        (k, found, (IsProbed-iff k.method).0 (not_archival k scheduled), same),
    λ (k, found, scheduled, same). (elem_map (check_task max_slot_lag targets p) t _).1 (
      k,
      (elem_keep is_scheduled k checks).1 (found, live k ((IsProbed-iff k.method).1 scheduled)),
      same,
    ),
  )
    where
      live : (k : CheckConfig) → is_archival k.method ≡ false → is_scheduled k ≡ true
      live k h = ground arith

      not_archival : (k : CheckConfig) → is_scheduled k ≡ true → is_archival k.method ≡ false
      not_archival k h = ground arith

  IsProbe-from :
      (ps : List ProviderEndpoint) (t : CheckTask)
      → Elem t (tasks_of (spawn_checks ps checks max_slot_lag targets))
      → IsProbe ps t
  unfolding spawn_checks
  IsProbe-from [] t e = absurd e
  IsProbe-from (p ∷ ps) t e = elim (elem_append t (own_tasks p) _ e) [
    | inl here ↦ (p, inl refl, (own_iff p t).0 here)
    | inr later ↦ let (q, m, own) = IsProbe-from ps t later in (q, inr m, own)
  ]

  IsProbe-into :
      (ps : List ProviderEndpoint) (p : ProviderEndpoint) (t : CheckTask)
      → Elem p ps
      → IsTaskOf p t
      → Elem t (tasks_of (spawn_checks ps checks max_slot_lag targets))
  unfolding spawn_checks
  IsProbe-into [] p t m own = absurd m
  IsProbe-into (q ∷ ps) p t (inl e) own =
      elem_left t (own_tasks q) _ (subst (λ x. Elem t (own_tasks x)) e ((own_iff p t).1 own))
  IsProbe-into (q ∷ ps) p t (inr m) own = elem_right t (own_tasks q) _ (IsProbe-into ps p t m own)

  -- The tasks that `spawn_checks` starts are exactly those of each endpoint with each check whose
  -- method is not one of the archival round.
  pub tasks_iff :
      (ps : List ProviderEndpoint) (t : CheckTask)
      → Elem t (tasks_of (spawn_checks ps checks max_slot_lag targets)) ↔ IsProbe ps t
  tasks_iff ps t = (IsProbe-from ps t, λ (p, m, own). IsProbe-into ps p t m own)

  pub names_of_threads :
      (ps : List ProviderEndpoint)
      → thread_names (spawn_checks ps checks max_slot_lag targets)
        ≡ map (λ (p : ProviderEndpoint). "checks-" <> p.name) ps
  unfolding spawn_checks
  names_of_threads [] = refl
  names_of_threads (p ∷ ps) = ap (λ names. ("checks-" <> p.name) ∷ names) (names_of_threads ps)
