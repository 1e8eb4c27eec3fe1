-- ===== src/Model/Sample.antt =====
-- A small model that the tests share: a system with one container.
use noware.Prelude.{String, none, some, [], ◌∷◌}
use noware.Model.{Element, SoftwareSystem, Container, Relationship, Workspace, plain}

abbrev pub named : String → Element
named id = record {
  id = id;
  name = id;
  description = none;
  owner = none;
  icon = none;
  tags = none;
  metadata = none;
}

abbrev pub shop : SoftwareSystem
shop = record { element = named "shop"; external = none; containers = none }

abbrev pub api : Container
api = record {
  element = named "api";
  kind = plain;
  system_id = "shop";
  technology = some "hono";
  components = none;
}

abbrev pub model : Workspace
model = record {
  name = "model";
  description = none;
  people = [];
  software_systems = record shop { containers = some (api ∷ []) } ∷ [];
  relationships = [];
  views = none;
}

abbrev pub uses : Relationship
uses = record {
  id = "uses";
  source_id = "shop";
  destination_id = "api";
  description = none;
  technology = some "https";
  interaction_style = none;
  code_relationship_kind = none;
  tags = none;
}

abbrev pub wired : Workspace
wired = record model { relationships = uses ∷ [] }

abbrev pub grown : Workspace
grown = record wired { software_systems = record shop { element = named "crm" } ∷ [] }
