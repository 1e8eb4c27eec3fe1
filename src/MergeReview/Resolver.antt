-- ===== src/MergeReview/Resolver.antt =====
-- `AtomMergeResolver` of packages/merge-review/src/index.ts, and its `MergeState` of
-- packages/shared/src/index.ts. `clock` has the readings of `Date.now()`.
pub mod Laws
use noware.Prelude.{
  ℕ, suc, String, Bool, true, false, Option, none, some, List, [], ◌∷◌, if◌then◌else◌, ◌==◌,
}
use noware.Prelude.Decimals.{numbered}

pub data MergeStatus : Type 0 where
  pending auto manual conflict merged rejected : MergeStatus

pub data Strategy : Type 0 where
  automatic by_hand by_gate : Strategy

pub record MergeConflict : Type 0 where
  pub id : String
  pub section : String
  pub source_value : String
  pub target_value : String
  pub agent_do_id : Option String

pub record MergeResolution : Type 0 where
  pub strategy : Strategy
  pub resolved_by : String
  pub resolved_at : ℕ
  pub details : String

pub record MergeState : Type 0 where
  pub id : String
  pub atom_id : String
  pub source_branch_id : String
  pub target_branch_id : Option String
  pub status : MergeStatus
  pub created_at : ℕ
  pub merged_at : Option ℕ
  pub conflicts : Option (List MergeConflict)
  pub resolution : Option MergeResolution

pub record Resolver : Type 0 where
  pub state : MergeState
  pub clock : ℕ → ℕ
  pub reads : ℕ

abbrev now : Resolver → ℕ
now r = r.clock r.reads

unfoldable pub new_resolver : String → String → String → Option String → (ℕ → ℕ) → Resolver
new_resolver id atom source target clock = record {
  state = record {
    id = id;
    atom_id = atom;
    source_branch_id = source;
    target_branch_id = target;
    status = pending;
    created_at = clock 0;
    merged_at = none;
    conflicts = none;
    resolution = none;
  };
  clock = clock;
  reads = 1;
}

abbrev merge_now : Resolver → Resolver
merge_now r = record r {
  state = record r.state { status = merged; merged_at = some (now r) };
  reads = suc r.reads;
}

unfoldable pub auto_merge : String → String → Resolver → Bool × Resolver
unfolding numbered
auto_merge source target r = if source == target then (true, merge_now r) else (
  false,
  record r {
    state = record r.state {
      conflicts = some (
          record {
            id = numbered "conflict-" (now r);
            section = "full";
            source_value = source;
            target_value = target;
            agent_do_id = none;
          }
          ∷ []);
      status = conflict;
    };
    reads = suc r.reads;
  },
)

unfoldable pub manual_merge : MergeResolution → Resolver → Resolver
manual_merge resolution r =
    let resolved =
      merge_now (record r { state = record r.state { resolution = some resolution } }) in
    record resolved { state = record resolved.state { conflicts = some [] } }

unfoldable pub gate_merge : Bool → Resolver → Bool × Resolver
gate_merge passed r =
    if passed
    then (true, merge_now r)
    else (false, record r { state = record r.state { status = rejected } })

unfoldable pub reject : String → Resolver → Resolver
reject reason r = record r {
  state = record r.state {
    status = rejected;
    resolution = some (record {
      strategy = by_hand;
      resolved_by = "system";
      resolved_at = now r;
      details = reason;
    });
  };
  reads = suc r.reads;
}
