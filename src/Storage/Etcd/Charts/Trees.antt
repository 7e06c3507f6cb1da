-- ===== src/Storage/Etcd/Charts/Trees.antt =====
-- Charts with their dependencies, and the form in which entity_chart.go writes them: JSON leaves out the
-- dependencies of a chart, so that they stand beside it.
use helm_broker.Common.{◌≡◌, refl, Bool, true, false, Option, none, some}
use helm_broker.Common.Outcomes.{Outcome, done, failed_with, panicked, and_then}
use helm_broker.Model.Charts.{Chart}

-- A chart, and the charts that `Dependencies()` returns.
mutual
  pub data ChartTree : Type 0 where
    chart : Chart → Dependencies → ChartTree

  pub data Dependencies : Type 0 where
    no_dependencies : Dependencies
    dependency : ChartTree → Dependencies → Dependencies

-- `dto`; a nil `Main` is `none`.
mutual
  pub data Dto : Type 0 where
    dto : Option ChartTree → Deps → Dto

  pub data Deps : Type 0 where
    no_deps : Deps
    dep : Dto → Deps → Deps

abbrev pub top : ChartTree → Chart
top (chart c deps) = c

-- `SetDependencies`
abbrev pub set_dependencies : Dependencies → ChartTree → ChartTree
set_dependencies deps (chart c old) = chart c deps

-- `toDto`
unfoldable mutual
  pub to_dto : ChartTree → Dto
  to_dto (chart c deps) = dto (some (chart c deps)) (to_dtos deps)

  pub to_dtos : Dependencies → Deps
  to_dtos no_dependencies = no_deps
  to_dtos (dependency c deps) = dep (to_dto c) (to_dtos deps)

-- The last step of `fromDto`: of a nil chart, the method writes through the pointer.
abbrev pub attach : Option ChartTree → Outcome Dependencies → Outcome ChartTree
attach main (failed_with x) = failed_with x
attach main panicked = panicked
attach none (done deps) = panicked
attach (some c) (done deps) = done (set_dependencies deps c)

abbrev pub dependency_then : Outcome ChartTree → Outcome Dependencies → Outcome Dependencies
dependency_then c deps = and_then c (λ c'. and_then deps (λ ds. done (dependency c' ds)))

-- `fromDto`
unfoldable mutual
  pub from_dto : Dto → Outcome ChartTree
  from_dto (dto main deps) = attach main (from_dtos deps)

  pub from_dtos : Deps → Outcome Dependencies
  from_dtos no_deps = done no_dependencies
  from_dtos (dep d deps) = dependency_then (from_dto d) (from_dtos deps)

abbrev pub has_no_main : Dto → Bool
has_no_main (dto none deps) = true
has_no_main (dto (some c) deps) = false

-- What JSON keeps: a chart's dependencies are a private field.
abbrev pub bare : Option ChartTree → Option ChartTree
bare none = none
bare (some c) = some (set_dependencies no_dependencies c)

unfoldable mutual
  pub written : Dto → Dto
  written (dto main deps) = dto (bare main) (all_written deps)

  pub all_written : Deps → Deps
  all_written no_deps = no_deps
  all_written (dep d deps) = dep (written d) (all_written deps)

-- The dependencies are restored from beside the charts, at every depth.
mutual
  unfolding to_dto from_dto written

  tree_restored : (c : ChartTree) → from_dto (written (to_dto c)) ≡ done c
  tree_restored (chart c deps) = rw (deps_restored deps) refl

  deps_restored : (deps : Dependencies) → from_dtos (all_written (to_dtos deps)) ≡ done deps
  deps_restored no_dependencies = refl
  deps_restored (dependency c deps) = rw (tree_restored c, deps_restored deps) refl

pub from_dto-to_dto : (c : ChartTree) → from_dto (written (to_dto c)) ≡ done c
from_dto-to_dto c = tree_restored c
