-- ===== src/Stigmergy/Branch.antt =====
-- `BranchDO` of packages/cfour/src/index.ts: the versions of one branch of an atom. The time of an
-- update is given, and the id of a version is made of it.
pub mod Laws
mod Tests
use noware.Prelude.{
  ℕ, String, Bool, true, false, Option, none, some, List, [], ◌∷◌, ◌++◌, if◌then◌else◌, ◌==◌,
}
use noware.Exec.{Result, ok, throws, Exec}

pub data Status : Type 0 where
  active merged abandoned : Status

pub record Version : Type 0 where
  pub id : ℕ
  pub content : String
  pub agent : String
  pub timestamp : ℕ

pub record Branch : Type 0 where
  pub id : String
  pub atom_id : String
  pub agent : String
  pub content : String
  pub base_version_id : String
  pub status : Status
  pub created_at : ℕ
  pub updated_at : ℕ
  pub versions : List Version

-- new Error("branch not active")
pub data Error : Type 0 where
  not_active : Error

pub record Merged : Type 0 where
  pub content : String
  pub versions : List Version

pub record Conflict : Type 0 where
  pub source : String
  pub target : String

abbrev pub version : String → String → ℕ → Version
version content agent now = record { id = now; content = content; agent = agent; timestamp = now }

-- The constructor.
unfoldable pub new_branch : String → String → String → String → String → ℕ → Branch
new_branch id atom agent content base now = record {
  id = id;
  atom_id = atom;
  agent = agent;
  content = content;
  base_version_id = base;
  status = active;
  created_at = now;
  updated_at = now;
  versions = version content agent now ∷ [];
}

abbrev pub is_active : Status → Bool
is_active active = true
is_active _ = false

unfoldable pub update : String → String → ℕ → Exec Branch Error (Unit {0})
update content agent now b =
    if is_active b.status
    then (
      ok tt,
      record b {
        content = content;
        updated_at = now;
        versions = b.versions ++ version content agent now ∷ [];
      },
    )
    else (throws not_active, b)

unfoldable pub merge : Exec Branch Error Merged
merge b =
    if is_active b.status
    then (ok (record { content = b.content; versions = b.versions }), record b { status = merged })
    else (throws not_active, b)

unfoldable pub abandon : Branch → Branch
abandon b = record b { status = abandoned }

unfoldable pub get_conflicts : String → Branch → List Conflict
get_conflicts other b =
    if b.content == other then [] else record { source = b.content; target = other } ∷ []
