-- ===== src/Model.antt =====
-- The data model of packages/cfour/src/index.ts: element kinds, elements, relationships, views
-- and workspaces. An optional property is an `Option`; a number of a view's layout is a natural
-- number; values are copied, where the program shares objects.
pub mod Collab
pub mod Patch
pub mod Prune
pub mod Tree
pub mod Compare
pub mod Diff
pub mod Rows
pub mod Views
pub mod Sample
mod Tests
use noware.Prelude.{ℕ, String, Bool, Option, none, some, List}

pub data ContainerKind : Type 0 where
  plain queue topic : ContainerKind

pub data CodeKind : Type 0 where
  class interface abstract_class enum function table object : CodeKind

-- The element kinds, with its subsets CONTAINER_KINDS and CODE_ELEMENT_KINDS as constructors.
pub data ElementKind : Type 0 where
  person software_system component : ElementKind
  container : ContainerKind → ElementKind
  code : CodeKind → ElementKind

pub record Element : Type 0 where
  pub id : String
  pub name : String
  pub description : Option String
  pub owner : Option String
  pub icon : Option String
  pub tags : Option (List String)
  pub metadata : Option (List (String × String))

pub record Person : Type 0 where
  pub element : Element
  pub open element use *
  pub external : Option Bool

pub data Visibility : Type 0 where
  is_public is_protected is_private is_package : Visibility

pub data MemberKind : Type 0 where
  field method constructor property : MemberKind

pub record CodeMember : Type 0 where
  pub name : String
  pub type : Option String
  pub visibility : Option Visibility
  pub is_static : Option Bool
  pub is_abstract : Option Bool
  pub kind : MemberKind
  pub parameters : Option String
  pub stereotype : Option String

pub record CodeElement : Type 0 where
  pub element : Element
  pub open element use *
  pub kind : CodeKind
  pub component_id : String
  pub technology : Option String
  pub stereotype : Option String
  pub behavior : Option String
  pub members : Option (List CodeMember)
  pub namespace : Option String

pub record Component : Type 0 where
  pub element : Element
  pub open element use *
  pub container_id : String
  pub technology : Option String
  pub behavior : Option String
  pub code_elements : Option (List CodeElement)

pub record Container : Type 0 where
  pub element : Element
  pub open element use *
  pub kind : ContainerKind
  pub system_id : String
  pub technology : Option String
  pub components : Option (List Component)

pub record SoftwareSystem : Type 0 where
  pub element : Element
  pub open element use *
  pub external : Option Bool
  pub containers : Option (List Container)

-- A node of the flat model.
pub data Node : Type 0 where
  a_person : Person → Node
  a_system : SoftwareSystem → Node
  a_container : Container → Node
  a_component : Component → Node
  a_code : CodeElement → Node

pub data InteractionStyle : Type 0 where
  sync async : InteractionStyle

pub data CodeRelationshipKind : Type 0 where
  extends implements aggregates composes associates depends realizes : CodeRelationshipKind

pub record Relationship : Type 0 where
  pub id : String
  pub source_id : String
  pub destination_id : String
  pub description : Option String
  pub technology : Option String
  pub interaction_style : Option InteractionStyle
  pub code_relationship_kind : Option CodeRelationshipKind
  pub tags : Option (List String)

pub data ViewKind : Type 0 where
  system_context containers components codes dynamic deployment : ViewKind

pub record ViewElement : Type 0 where
  pub element_id : String
  pub x : Option ℕ
  pub y : Option ℕ

pub record View : Type 0 where
  pub id : String
  pub kind : ViewKind
  pub title : Option String
  pub description : Option String
  pub elements : List ViewElement
  pub relationships : List String
  pub scope_id : Option String

pub record Workspace : Type 0 where
  pub name : String
  pub description : Option String
  pub people : List Person
  pub software_systems : List SoftwareSystem
  pub relationships : List Relationship
  pub views : Option (List View)

-- What every node has, whatever its kind.
unfoldable pub element_of : Node → Element
element_of (a_person p) = p.element
element_of (a_system s) = s.element
element_of (a_container c) = c.element
element_of (a_component c) = c.element
element_of (a_code c) = c.element

unfoldable pub kind_of : Node → ElementKind
kind_of (a_person p) = person
kind_of (a_system s) = software_system
kind_of (a_container c) = container c.kind
kind_of (a_component c) = component
kind_of (a_code c) = code c.kind

abbrev pub id_of : Node → String
id_of n = (element_of n).id

unfoldable pub technology_of : Node → Option String
technology_of (a_container c) = c.technology
technology_of (a_component c) = c.technology
technology_of (a_code c) = c.technology
technology_of _ = none

unfoldable pub external_of : Node → Option Bool
external_of (a_person p) = p.external
external_of (a_system s) = s.external
external_of _ = none

unfoldable pub parent_id_of : Node → Option String
parent_id_of (a_container c) = some c.system_id
parent_id_of (a_component c) = some c.container_id
parent_id_of (a_code c) = some c.component_id
parent_id_of _ = none
