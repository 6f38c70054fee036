-- ===== src/Tests/Methods.antt =====
-- The method tables (crates/hom-brain/src/ipc/server.rs and the files that it is used with) on
-- methods that they name.
use hom_local.Prelude.{◌≡◌, refl, true, ◌&&◌, not, some, any_of}
use hom_local.Methods.{required_scope, permitted_method, has_worker_arm}
use hom_local.Methods.Gates.{
  is_handled, is_some, blocked_names, unscoped_names, scoped_methods_pass, handlers_without_scope,
}

tool_events_are_scoped : required_scope "reasoning.tool_event.record" ≡ some "memory:save"
unfolding required_scope
tool_events_are_scoped = refl

scoped_methods_pass_example :
    (permitted_method "reasoning.tool_event.record" && is_handled "reasoning.tool_event.record")
    ≡ not (any_of "reasoning.tool_event.record" blocked_names)
scoped_methods_pass_example =
    scoped_methods_pass "reasoning.tool_event.record" "memory:save" tool_events_are_scoped

benchmarks_are_handled : has_worker_arm "benchmarks.list" ≡ true
unfolding has_worker_arm
benchmarks_are_handled = refl

handlers_without_scope_example :
    is_some (required_scope "benchmarks.list") ≡ not (any_of "benchmarks.list" unscoped_names)
handlers_without_scope_example = handlers_without_scope "benchmarks.list" benchmarks_are_handled
