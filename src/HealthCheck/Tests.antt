-- ===== src/HealthCheck/Tests.antt =====
-- Tests of the health check, and instances of its theorems.
use tornjak.Prelude.{◌+◌, ◌≡◌, refl, some, length}
use tornjak.Js.{codes, value_from}
use tornjak.HealthCheck.Rate.{convert_duration_to_seconds}
use tornjak.HealthCheck.Timers.{
  Run-checks, World, Fires, component_did_mount, rate_changed, Run, mount, choose, Run-length,
}

ten_minutes : convert_duration_to_seconds (codes "10 Mins") ≡ some 600
unfolding convert_duration_to_seconds value_from
ten_minutes = refl

abbrev twice : World
twice = rate_changed 60 (component_did_mount 30)

twice-Run : Run 30 1 twice
twice-Run = choose {w = component_did_mount 30} 60 mount

Run-length_example : length twice.running ≡ 2
Run-length_example = Run-length twice-Run

Run-checks_example : (v : World) × Fires twice 5 v × (v.checks ≡ 5 + twice.checks)
Run-checks_example = Run-checks 5 twice-Run
