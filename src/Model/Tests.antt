-- ===== src/Model/Tests.antt =====
-- The theorems on workspaces at a small model.
use noware.Prelude.{false, ◌≡◌, refl, none, some, [], ◌∷◌, map, mem, is_some}
use noware.Model.{CodeElement, CodeMember, CodeKind, MemberKind, id_of}
use noware.Model.Sample.{named, wired, grown}
use noware.Model.Tree.{find_node_with_ancestry}
use noware.Model.Tree.Walks.{node_ids, find_node_with_ancestry_lem}
use noware.Model.Diff.{diff_workspaces}
use noware.Model.Diff.Laws.{only_in, relationship_ids, diff_workspaces-ids}
use noware.Model.Prune.{prune}
use noware.Model.Prune.Laws.{prune-gone}

abbrev account : CodeElement
account = record {
  element = named "Account";
  kind = CodeKind.class;
  component_id = "login";
  technology = none;
  stereotype = none;
  behavior = none;
  members = none;
  namespace = none;
}

abbrev balance : CodeMember
balance = record {
  name = "balance";
  type = some "number";
  visibility = none;
  is_static = none;
  is_abstract = none;
  kind = MemberKind.field;
  parameters = none;
  stereotype = none;
}

find_node_with_ancestry_lem_example :
    is_some (find_node_with_ancestry wired "api") ≡ mem "api" (node_ids wired)
find_node_with_ancestry_lem_example = find_node_with_ancestry_lem "api" wired

diff_workspaces-ids_example :
    (mem "crm" (map id_of (diff_workspaces wired grown).nodes.added)
      ≡ only_in (node_ids grown) (node_ids wired) "crm")
    × (mem "crm" (map id_of (diff_workspaces wired grown).nodes.removed)
        ≡ only_in (node_ids wired) (node_ids grown) "crm")
    × (mem "crm" (map (λ r. r.id) (diff_workspaces wired grown).relationships.added)
        ≡ only_in (relationship_ids grown) (relationship_ids wired) "crm")
    × (mem "crm" (map (λ r. r.id) (diff_workspaces wired grown).relationships.removed)
        ≡ only_in (relationship_ids wired) (relationship_ids grown) "crm")
diff_workspaces-ids_example = diff_workspaces-ids wired grown "crm"

prune-gone_example : mem "api" (node_ids (prune ("api" ∷ []) wired)) ≡ false
unfolding mem
prune-gone_example = prune-gone ("api" ∷ []) "api" refl wired
