-- ===== src/Scheduler.antt =====
-- src/scheduler.rs: one round of a check's task. The state that the tasks share (the reference
-- slot, the harvested values, the claim sink, the sample log, the metrics) is passed along; what
-- the other tasks write (the derived targets and the archival anchor) is an argument of a round.
pub mod Recorded
pub mod Rotation
pub mod Spawn
use rpc_latency_monitor.Prelude.{
  ℕ, ◌+◌, ◌-◌, ◌*◌, ◌/◌, ◌%◌, String, Bool, true, false, not, ◌&&◌, Option, none, some, List, [],
  ◌∷◌, ◌==◌, nat_eq, string_eq, ltb, leb, length, is_empty, get_elem?, find, word, or,
  filter_option, when, if◌then◌else◌,
}
use rpc_latency_monitor.GpaDerive.{by_owner_name}
use rpc_latency_monitor.Crates.{Crates}
use rpc_latency_monitor.Target.{GpaTarget}
use rpc_latency_monitor.Method.{
  RpcMethod, get_program_accounts, get_token_accounts_by_owner, is_get_signatures,
}
use rpc_latency_monitor.Config.{CheckConfig}
use rpc_latency_monitor.Metrics.{Metrics, record_call, record_slot_lag}
use rpc_latency_monitor.Rpc.{RequestContext, CallResult, CallStatus, error, stale, is_success}
use rpc_latency_monitor.Rpc.Client.{Env, call}
use rpc_latency_monitor.ReferenceSlot.{
  ReferenceSlot, observe, observe_opt, current, lag_for, ArchivalAnchor, current_anchor,
}
use rpc_latency_monitor.ReferenceCheck.Sink.{ClaimSink, submit}
use rpc_latency_monitor.SampleLog.{SampleLogger, log}

abbrev pub gsfa_anchor_min_slot : ℕ
gsfa_anchor_min_slot = 50000000

pub record SharedState : Type 0 where
  pub recent_signature : Option String
  pub archival_signature : Option String
  pub recent_accounts : List String

-- What a task never changes.
pub record CheckTask : Type 0 where
  pub provider : String
  pub url : String
  pub check : CheckConfig
  pub max_slot_lag : ℕ
  pub gpa_targets : List GpaTarget

-- What the tasks share and write.
pub record Board : Type 0 where
  pub metrics : Metrics
  pub reference : ReferenceSlot
  pub shared : SharedState
  pub claims : Option ClaimSink
  pub samples : Option SampleLogger

unfoldable pub stale_by_lag : Option ℕ → Option ℕ → ℕ → Bool
stale_by_lag (some t) (some s) max_lag = ltb max_lag (t - s)
stale_by_lag _ _ max_lag = false

unfoldable pub is_stale : CheckTask → ReferenceSlot → CallResult → Bool
unfolding stale_by_lag
is_stale task reference result =
    is_success result.status
    && stale_by_lag (current reference) result.observed_slot task.max_slot_lag

-- The target of a rotation among the configured ones and the derived ones.
at_index : List GpaTarget → List GpaTarget → ℕ → Option GpaTarget
at_index targets derived index =
    if ltb index (length targets)
    then get_elem? targets index
    else get_elem? derived (index - length targets)

every_second : ℕ → Option GpaTarget → Option GpaTarget
every_second rotation none = none
every_second rotation (some owner) = when (rotation % 2 == 1) owner

unfoldable pub rotated_target : List GpaTarget → List GpaTarget → RpcMethod → ℕ → Option GpaTarget
unfolding at_index every_second
rotated_target targets derived get_program_accounts rotation =
    let total = length targets + length derived in
    if total == 0 then none else at_index targets derived (rotation % total)
rotated_target targets derived get_token_accounts_by_owner rotation =
    every_second rotation (find (λ (t : GpaTarget). t.name == by_owner_name) derived)
rotated_target targets derived _ rotation = none

-- The status that is recorded.
abbrev pub recorded_status : CheckTask → Board → CallResult → CallStatus
recorded_status task b result =
    if is_stale task b.reference result then error stale else result.status

abbrev lag_at : CheckTask → Option ℕ → Metrics → Metrics
lag_at task none metrics = metrics
lag_at task (some lag) metrics = record_slot_lag task.provider task.check.method lag metrics

abbrev lag_of : Option ℕ → ReferenceSlot → Option ℕ
lag_of none reference = none
lag_of (some slot) reference = lag_for reference slot

abbrev pub harvested : CallResult → SharedState → SharedState
harvested result s = record {
  recent_signature = or result.signature s.recent_signature;
  archival_signature = or result.archival_signature s.archival_signature;
  recent_accounts = if not (is_empty result.accounts) then result.accounts else s.recent_accounts;
}

-- Times are the two clocks, in nanoseconds.
abbrev submitted_to :
    CheckTask → ℕ → ℕ → ReferenceSlot → CallResult → Option ClaimSink → Option ClaimSink
submitted_to task now unix fleet result none = none
submitted_to task now unix fleet result (some sink) =
    some (submit now (unix / 1000000000) fleet task.provider task.check.method result sink)

abbrev logged :
    CheckTask → ℕ → CallStatus → String → CallResult → Option SampleLogger → Option SampleLogger
logged task unix status target result none = none
logged task unix status target result (some logger) =
    some (log unix task.provider task.check.method status target result logger)

-- The part of `record` for a success.
unfoldable pub on_success : CheckTask → ℕ → ℕ → CallResult → Board → Board
on_success task now unix result b =
    let reference = observe_opt b.reference result.observed_slot in
    record b {
      claims = submitted_to task now unix b.reference result b.claims;
      reference = reference;
      metrics = lag_at task (lag_of result.observed_slot reference) b.metrics;
      shared = harvested result b.shared;
    }

-- The part of `record` for every result.
abbrev counted : CheckTask → ℕ → CallStatus → String → CallResult → Board → Board
counted task unix status target result b = record b {
  metrics = record_call task.provider task.check.method result status target b.metrics;
  samples = logged task unix status target result b.samples;
}

unfoldable pub record_probe : CheckTask → ℕ → ℕ → String → CallResult → Board → Board
unfolding on_success
record_probe task now unix target result b =
    let status = recorded_status task b result in
    let b' = counted task unix status target result b in
    if is_success status then on_success task now unix result b' else b'

-- The rotation and the signature of the last anchor that was used.
pub record Turn : Type 0 where
  pub rotation : ℕ
  pub used_anchor : Option String

abbrev is_used : Option String → String → Bool
is_used none sig = false
is_used (some used) sig = used == sig

abbrev is_new_anchor : Option String → ℕ × String → Bool
is_new_anchor used (slot, sig) = leb gsfa_anchor_min_slot slot && not (is_used used sig)

-- The anchor of a round, whose rotation has been counted up.
unfoldable pub chosen_anchor : RpcMethod → Turn → ArchivalAnchor → Option (ℕ × String)
chosen_anchor m turn anchor =
    if is_get_signatures m && turn.rotation % 2 == 0
    then filter_option (is_new_anchor turn.used_anchor) (current_anchor anchor)
    else none

abbrev signature_used : Option (ℕ × String) → Option String → Option String
signature_used none used = used
signature_used (some (slot, sig)) used = some sig

abbrev target_label : RequestContext → String
target_label ctx = elim ctx.gsfa_anchor [
  | some anchor ↦ "archival"
  | none ↦ elim ctx.gpa_target [ none ↦ "" | some t ↦ t.name ]
]

abbrev pub next_turn : Turn → Turn
next_turn turn = record turn { rotation = (turn.rotation + 1) % word }

unfoldable pub request_context :
    CheckTask → List GpaTarget → ArchivalAnchor → Turn → Board → RequestContext
unfolding chosen_anchor rotated_target
request_context task derived anchor turn b = record {
  tip_slot = current b.reference;
  recent_signature = b.shared.recent_signature;
  archival_signature = b.shared.archival_signature;
  recent_accounts = b.shared.recent_accounts;
  gpa_target = rotated_target task.gpa_targets derived task.check.method turn.rotation;
  gsfa_anchor = chosen_anchor task.check.method (next_turn turn) anchor;
}

module _ ⦃c : Crates⦄ where
  open c use {World, now, unix_time, random_range}

  -- `next_delay`, in nanoseconds
  unfoldable pub next_delay : CheckConfig → World → ℕ × World
  next_delay check w =
      let (extra, w') = random_range 0 ((check.jitter / 1000000) % word) w in
      if check.jitter == 0 then (check.interval, w) else (check.interval + extra * 1000000, w')

  abbrev recorded : CheckTask → String → Option CallResult → World → Board → Board
  recorded task target none w b = b
  recorded task target (some result) w b = record_probe task (now w) (unix_time w) target result b

  -- A round of `run`, up to its sleep. The board of the request and the board of the answer differ, as
  -- other tasks write between the two: `meanwhile` is what they do.
  unfoldable pub run_once :
      CheckTask
      → List GpaTarget
      → ArchivalAnchor
      → (Board → Board)
      → Turn × (Board × Env)
      → Turn × (Board × Env)
  unfolding request_context
  run_once task derived anchor meanwhile (turn, (b, e)) =
      let ctx = request_context task derived anchor turn b in
      let (answer, e') = call task.url task.check.method ctx task.check.timeout e in
      (
        record {
          rotation = (next_turn turn).rotation;
          used_anchor = signature_used ctx.gsfa_anchor turn.used_anchor;
        },
        (recorded task (target_label ctx) answer e'.world (meanwhile b), e'),
      )
