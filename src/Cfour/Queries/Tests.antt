-- ===== src/Cfour/Queries/Tests.antt =====
-- Checks of a small model.
use noware.Prelude.{◌≡◌, ◌↔◌, [], All}
use noware.Model.Sample.{wired}
use noware.Model.Tree.Walks.{node_ids}
use noware.Cfour.Queries.{problems}
use noware.Cfour.Queries.Integrity.{IsAnchored, HasContainers, problems_lem}

problems_lem_example : (problems wired ≡ []) ↔ (
    All (IsAnchored (node_ids wired)) wired.relationships
    × All HasContainers wired.software_systems)
problems_lem_example = problems_lem wired
