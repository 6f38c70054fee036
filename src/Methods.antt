-- ===== src/Methods.antt =====
-- The brain's method tables: the scope that a method asks for
-- (crates/hom-brain/src/ipc/server.rs), the methods that the security policy knows
-- (crates/hom-brain/src/services/security_policy.rs), the worker and the class that a method is
-- queued for (crates/hom-brain/src/ipc/router.rs), and the methods that have a handler
-- (crates/hom-brain/src/workers/mod.rs, crates/hom-brain/src/lib.rs).
pub mod Gates
use text.Mathlib.Text.{starts_with}
use hom_local.Prelude.{
  String, Bool, true, false, ◌||◌, List, [], ◌∷◌, ◌++◌, Option, none, some, str_eq, if◌then◌else◌,
  any_of,
}
use hom_local.Queue.{Priority, hi, md, lo}

-- A `match` on the method: the first arm that names it.
abbrev pub match_arms {ℓ} : {A : Type ℓ} → String → List (List String × A) → Option A
match_arms m [] = none
match_arms m ((names, a) ∷ arms) = if any_of m names then some a else match_arms m arms

abbrev scope_arms : List (List String × String)
scope_arms =
    ("system.health" ∷ "system.ready" ∷ "system.status" ∷ "system.shutdown" ∷ [], "system")
    ∷ ("memory.save" ∷ [], "memory:save")
    ∷ ("memory.recall" ∷ "memory.recall.smart" ∷ [], "memory:recall")
    ∷ ("memory.open" ∷ [], "memory:open")
    ∷ ("memory.answer" ∷ [], "memory:answer")
    ∷ ("events.list" ∷ [], "events:read")
    ∷ ("events.security" ∷ [], "events:write")
    ∷ ("runtime.status" ∷ [], "system")
    ∷ (
      "ledger.verify" ∷ "ledger.repair_segmented" ∷ "ledger.record_mutation"
          ∷ "ledger.reconcile_mismatches" ∷ [],
      "system",
    )
    ∷ ("monitoring.snapshot" ∷ [], "diagnostics:read")
    ∷ (
      "diagnostics.trust" ∷ "diagnostics.recall" ∷ "diagnostics.capability" ∷ "paper.registry" ∷ [],
      "diagnostics:read",
    )
    ∷ (
      "security.saber_dry_run" ∷ "security.canary_timeline" ∷ "security.audit_log" ∷ [],
      "security:read",
    )
    ∷ ("session.get" ∷ "session.login" ∷ "session.logout" ∷ "session.compact" ∷ [], "system")
    ∷ (
      "projects.list" ∷ "projects.create" ∷ "sessions.list" ∷ "sessions.create" ∷ "sessions.detail"
          ∷ "sessions.set_active" ∷ "sessions.rename" ∷ "sessions.hierarchy"
          ∷ "ui.contract.snapshot" ∷ "ui.inspector.target" ∷ [],
      "system",
    )
    ∷ (
      "settings.get" ∷ "settings.set" ∷ "permissions.get" ∷ "permissions.set_profile"
          ∷ "permissions.grant_root" ∷ "permissions.revoke_root" ∷ "permissions.grants.list"
          ∷ "permissions.grants.create" ∷ "permissions.grants.revoke" ∷ "permissions.grants.check"
          ∷ "tool.check_gate" ∷ [],
      "system",
    )
    ∷ ("nightly.tree" ∷ "nightly.dry_run" ∷ "nightly.run" ∷ [], "system")
    ∷ (
      "reasoning.artifacts" ∷ "reasoning.bridge.list" ∷ "reasoning.bridge.integrity"
          ∷ "reasoning.causal_chain" ∷ "reasoning.tool_quality" ∷ [],
      "diagnostics:read",
    )
    ∷ (
      "reasoning.run" ∷ "reasoning.bridge.backfill_imports" ∷ "reasoning.tool_event.record" ∷ [],
      "memory:save",
    )
    ∷ (
      "gates.plan.current" ∷ "gates.runtime.snapshot" ∷ "gates.decisions.list"
          ∷ "gates.evidence.list" ∷ "gates.argument.inspect" ∷ [],
      "gates:read",
    )
    ∷ (
      "gates.prompt.create" ∷ "gates.plan.propose" ∷ "gates.plan.approve" ∷ "gates.tasks.derive"
          ∷ "gates.tasks.preflight" ∷ "gates.amendment.request" ∷ "gates.amendment.approve"
          ∷ "gates.runtime.verify" ∷ "gates.evidence.submit" ∷ "gates.tasks.complete"
          ∷ "gates.argument.build" ∷ "gates.argument.accept" ∷ [],
      "gates:write",
    )
    ∷ (
      "import.list" ∷ "import.pack" ∷ "export.brain" ∷ "brain.backup" ∷ "brain.purge" ∷ [],
      "system",
    )
    ∷ []

-- The methods that have an arm in `required_scope`.
abbrev pub arm_names {ℓ} : {A : Type ℓ} → List (List String × A) → List String
arm_names [] = []
arm_names ((names, a) ∷ arms) = names ++ arm_names arms

-- `None` is answered with `method_not_found`.
unfoldable pub required_scope : String → Option String
required_scope method = match_arms method scope_arms

abbrev permitted_names : List String
permitted_names =
    "system.health" ∷ "system.ready" ∷ "system.status" ∷ "system.shutdown" ∷ "runtime.status"
    ∷ "memory.save" ∷ "memory.recall" ∷ "memory.recall.smart" ∷ "memory.open" ∷ "memory.answer"
    ∷ "events.list" ∷ "events.security" ∷ "diagnostics.trust" ∷ "diagnostics.recall"
    ∷ "diagnostics.recall_drift" ∷ "diagnostics.capability" ∷ "paper.registry"
    ∷ "security.saber_dry_run" ∷ "security.canary_timeline" ∷ "security.audit_log"
    ∷ "route.certificate.issue" ∷ "route.certificate.open" ∷ "benchmarks.vector_exact"
    ∷ "benchmarks.vector_pq_candidates" ∷ "benchmarks.vector_pq_exact_rerank"
    ∷ "benchmarks.vector_recall" ∷ "benchmarks.vector_thresholds"
    ∷ "benchmarks.vector_regression_profile" ∷ "benchmarks.vector_regression_compare"
    ∷ "benchmarks.vector_regression_response" ∷ "policy.vector_recall" ∷ "gates.prompt.create"
    ∷ "gates.plan.propose" ∷ "gates.plan.approve" ∷ "gates.plan.current" ∷ "gates.tasks.derive"
    ∷ "gates.tasks.preflight" ∷ "gates.amendment.request" ∷ "gates.amendment.approve"
    ∷ "gates.runtime.snapshot" ∷ "gates.runtime.verify" ∷ "gates.decisions.list"
    ∷ "gates.evidence.submit" ∷ "gates.evidence.list" ∷ "gates.tasks.complete"
    ∷ "gates.argument.build" ∷ "gates.argument.inspect" ∷ "gates.argument.accept" ∷ "session.get"
    ∷ "session.login" ∷ "session.logout" ∷ "session.compact" ∷ "projects.list" ∷ "projects.create"
    ∷ "sessions.list" ∷ "sessions.create" ∷ "sessions.detail" ∷ "sessions.set_active"
    ∷ "sessions.rename" ∷ "sessions.hierarchy" ∷ "ui.contract.snapshot" ∷ "ui.inspector.target"
    ∷ "ledger.verify" ∷ "ledger.repair_segmented" ∷ "ledger.record_mutation"
    ∷ "ledger.reconcile_mismatches" ∷ "monitoring.snapshot" ∷ "settings.get" ∷ "settings.set"
    ∷ "permissions.get" ∷ "permissions.set_profile" ∷ "permissions.grant_root"
    ∷ "permissions.revoke_root" ∷ "permissions.grants.list" ∷ "permissions.grants.create"
    ∷ "permissions.grants.revoke" ∷ "permissions.grants.check" ∷ "tool.check_gate" ∷ "nightly.tree"
    ∷ "nightly.dry_run" ∷ "nightly.run" ∷ "reasoning.artifacts" ∷ "reasoning.bridge.list"
    ∷ "reasoning.bridge.integrity" ∷ "reasoning.bridge.backfill_imports" ∷ "reasoning.tool_quality"
    ∷ "reasoning.run" ∷ "reasoning.causal_chain" ∷ "import.list" ∷ "import.pack" ∷ "export.brain"
    ∷ "brain.backup" ∷ "brain.purge" ∷ []

unfoldable pub permitted_method : String → Bool
permitted_method method = any_of method permitted_names

pub data WorkerKind : Type 0 where
  save recall cognition io main : WorkerKind

abbrev worker_arms : List (List String × WorkerKind)
worker_arms =
    ("memory.save" ∷ [], save)
    ∷ ("memory.embedding.upsert" ∷ [], save)
    ∷ ("memory.recall" ∷ "memory.recall.smart" ∷ "memory.answer" ∷ "memory.open" ∷ [], recall)
    ∷ (
      "events.list" ∷ "events.security" ∷ "runtime.status" ∷ "ledger.verify"
          ∷ "ledger.repair_segmented" ∷ "ledger.record_mutation" ∷ "ledger.reconcile_mismatches"
          ∷ "monitoring.snapshot" ∷ "diagnostics.trust" ∷ "diagnostics.recall"
          ∷ "diagnostics.recall_drift" ∷ "diagnostics.capability" ∷ "paper.registry"
          ∷ "exposure.policy" ∷ "security.saber_dry_run" ∷ "security.canary_timeline"
          ∷ "route.certificate.issue" ∷ "route.certificate.open" ∷ "benchmarks.vector_recall" ∷ [],
      main,
    )
    ∷ []

abbrev any_prefix : String → List String → Bool
any_prefix method [] = false
any_prefix method (p ∷ ps) = starts_with method p || any_prefix method ps

abbrev prefix_worker : String → Option WorkerKind
prefix_worker method =
    if any_prefix method (
      "session." ∷ "projects." ∷ "sessions." ∷ "nightly." ∷ "reasoning." ∷ "settings."
      ∷ "permissions." ∷ "providers." ∷ "ui." ∷ "gates." ∷ "brain." ∷ "benchmarks." ∷ "policy."
      ∷ "tool." ∷ [])
    then some cognition
    else if any_prefix method ("import." ∷ "export." ∷ [])
    then some io
    else none

abbrev or_else {ℓ} : {A : Type ℓ} → Option A → Option A → Option A
or_else (some a) b = some a
or_else none b = b

unfoldable pub worker_for_method : String → Option WorkerKind
worker_for_method method = or_else (match_arms method worker_arms) (prefix_worker method)

-- The request's own `priority` parameter, if it is a text, comes first.
abbrev asked_priority : Option String → Option Priority
asked_priority none = none
asked_priority (some asked) = match_arms asked (
    ("hi" ∷ "high" ∷ "interactive" ∷ [], hi)
    ∷ ("md" ∷ "medium" ∷ "opportunistic" ∷ [], md)
    ∷ ("lo" ∷ "low" ∷ "background" ∷ [], lo)
    ∷ [])

abbrev priority_arms : List (List String × Priority)
priority_arms =
    (
      "memory.save" ∷ "memory.embedding.upsert" ∷ "memory.recall" ∷ "memory.recall.smart"
          ∷ "memory.answer" ∷ [],
      hi,
    )
    ∷ ("gates.tasks.preflight" ∷ "gates.runtime.verify" ∷ [], hi)
    ∷ (
      "diagnostics.trust" ∷ "diagnostics.recall" ∷ "diagnostics.recall_drift"
          ∷ "diagnostics.capability" ∷ "paper.registry" ∷ "exposure.policy" ∷ "runtime.status"
          ∷ "ledger.verify" ∷ "ledger.repair_segmented" ∷ "ledger.record_mutation"
          ∷ "ledger.reconcile_mismatches" ∷ "monitoring.snapshot" ∷ "route.certificate.issue"
          ∷ "route.certificate.open" ∷ "benchmarks.vector_exact" ∷ "benchmarks.vector_pq_candidates"
          ∷ "benchmarks.vector_pq_exact_rerank" ∷ "benchmarks.vector_recall"
          ∷ "benchmarks.vector_thresholds" ∷ "benchmarks.vector_regression_profile"
          ∷ "benchmarks.vector_regression_compare" ∷ "benchmarks.vector_regression_response"
          ∷ "policy.vector_recall" ∷ "security.saber_dry_run" ∷ "security.canary_timeline"
          ∷ "events.security" ∷ "gates.plan.current" ∷ "gates.runtime.snapshot"
          ∷ "gates.decisions.list" ∷ "gates.evidence.list" ∷ "gates.argument.inspect" ∷ [],
      md,
    )
    ∷ []

abbrev prefix_priority : String → Priority
prefix_priority method =
    if starts_with method "session.compact"
    then md
    else if starts_with method "reasoning."
    then md
    else if starts_with method "nightly."
    then lo
    else md

abbrev the {ℓ} : {A : Type ℓ} → Option A → A → A
the (some a) d = a
the none d = d

unfoldable pub priority_for_method : String → Option String → Priority
priority_for_method method asked =
    the (or_else (asked_priority asked) (match_arms method priority_arms)) (prefix_priority method)

-- The arms of `execute_worker_method`, and those of `dispatch_value` that are answered at once.
abbrev worker_names : List String
worker_names =
    "memory.save" ∷ "memory.embedding.upsert" ∷ "memory.recall" ∷ "memory.recall.smart"
    ∷ "memory.open" ∷ "memory.answer" ∷ "events.list" ∷ "events.security" ∷ "diagnostics.trust"
    ∷ "diagnostics.recall" ∷ "diagnostics.recall_drift" ∷ "diagnostics.capability"
    ∷ "paper.registry" ∷ "route.certificate.issue" ∷ "route.certificate.open" ∷ "exposure.policy"
    ∷ "security.saber_dry_run" ∷ "security.canary_timeline" ∷ "security.audit_log" ∷ "session.get"
    ∷ "session.login" ∷ "session.logout" ∷ "session.compact" ∷ "session.compactions"
    ∷ "session.compaction.open" ∷ "session.compaction_snapshot" ∷ "session.context_pressure"
    ∷ "providers.model_catalog" ∷ "runtime.status" ∷ "ledger.verify" ∷ "ledger.repair_segmented"
    ∷ "ledger.record_mutation" ∷ "ledger.reconcile_mismatches" ∷ "monitoring.snapshot"
    ∷ "benchmarks.list" ∷ "benchmarks.detail" ∷ "benchmarks.record" ∷ "benchmarks.vector_exact"
    ∷ "benchmarks.vector_pq_candidates" ∷ "benchmarks.vector_pq_exact_rerank"
    ∷ "benchmarks.vector_recall" ∷ "benchmarks.vector_thresholds"
    ∷ "benchmarks.vector_regression_profile" ∷ "benchmarks.vector_regression_compare"
    ∷ "benchmarks.vector_regression_response" ∷ "policy.vector_recall" ∷ "projects.list"
    ∷ "projects.create" ∷ "sessions.list" ∷ "sessions.create" ∷ "sessions.detail"
    ∷ "sessions.set_active" ∷ "sessions.rename" ∷ "sessions.hierarchy" ∷ "ui.contract.snapshot"
    ∷ "ui.inspector.target" ∷ "nightly.tree" ∷ "nightly.dry_run" ∷ "nightly.run"
    ∷ "reasoning.artifacts" ∷ "reasoning.bridge.list" ∷ "reasoning.bridge.integrity"
    ∷ "reasoning.bridge.backfill_imports" ∷ "reasoning.tool_quality" ∷ "reasoning.tool_event.record"
    ∷ "reasoning.run" ∷ "reasoning.causal_chain" ∷ "settings.get" ∷ "settings.set"
    ∷ "permissions.get" ∷ "permissions.set_profile" ∷ "permissions.grant_root"
    ∷ "permissions.revoke_root" ∷ "permissions.grants.list" ∷ "permissions.grants.create"
    ∷ "permissions.grants.revoke" ∷ "permissions.grants.check" ∷ "tool.check_gate"
    ∷ "gates.prompt.create" ∷ "gates.plan.propose" ∷ "gates.plan.approve" ∷ "gates.plan.current"
    ∷ "gates.tasks.derive" ∷ "gates.tasks.preflight" ∷ "gates.amendment.request"
    ∷ "gates.amendment.approve" ∷ "gates.runtime.snapshot" ∷ "gates.runtime.verify"
    ∷ "gates.decisions.list" ∷ "gates.evidence.submit" ∷ "gates.evidence.list"
    ∷ "gates.tasks.complete" ∷ "gates.argument.build" ∷ "gates.argument.inspect"
    ∷ "gates.argument.accept" ∷ "import.list" ∷ "import.pack" ∷ "import.memory.sources"
    ∷ "import.memory.batch.create" ∷ "import.memory.batch.get" ∷ "import.memory.batch.list"
    ∷ "import.memory.batch.parse" ∷ "import.memory.batch.preview" ∷ "import.memory.batch.commit"
    ∷ "import.memory.batch.cancel" ∷ "import.memory.batch.report" ∷ "export.brain" ∷ "brain.backup"
    ∷ "brain.purge" ∷ []

abbrev direct_names : List String
direct_names = "system.health" ∷ "system.ready" ∷ "system.status" ∷ "system.shutdown" ∷ []

unfoldable pub has_worker_arm : String → Bool
has_worker_arm method = any_of method worker_names

unfoldable pub is_direct : String → Bool
is_direct method = any_of method direct_names
