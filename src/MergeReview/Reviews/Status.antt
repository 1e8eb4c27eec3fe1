-- ===== src/MergeReview/Reviews/Status.antt =====
-- A review that is closed stays closed.
use noware.Prelude.{All, String, true, ◌≡◌, Option, some, List, get}
use noware.Exec.{Exec}
use noware.Exec.Keeps.{Keeps}
use noware.MergeReview.{GateResult, Client, State, Review, Vote, Assign}
use noware.MergeReview.Gates.{DriftReport}
use noware.MergeReview.Store.{create, update}
use noware.MergeReview.Reviews.{
  MergePolicy, is_open, open_review, add_comment, vote_review, try_merge, reject_review,
}
use noware.MergeReview.Reviews.Closed.{IsClosed, IsAside}

-- The review that is read is open, beside the closed one.
record Beside {C : Type 0} (id : String) (closed : Review) (key : String) (r : Review) (s : State C)
    : Type 0 where
  kept : IsClosed id closed s
  there : get key s.reviews ≡ some r
  open_there : is_open r.status ≡ true

-- What may happen to the store, in any order, but for updates of a status, of votes or of gates that
-- no method above makes; the model behind the client may change at any time.
pub data Reaches {C E : Type 0} (client : Client C E) (s : State C) : State C → Type 0 where
  start : Reaches client s s
  elsewhere :
      {t : State C} (c : C) → Reaches client s t → Reaches client s (record t { remote = c })
  opens :
      {t : State C} (project branch target : String) (drift : Option (Exec C E DriftReport))
      → Reaches client s t
      → Reaches client s (open_review client project branch target drift t).1
  -- `create` and `update` of the store itself; the update assigns neither status, votes nor gates.
  creates :
      {t : State C} (project branch target : String) (gates : List GateResult)
      → Reaches client s t
      → Reaches client s (create {E = E} project branch target gates t).1
  updates :
      {t : State C} (key : String) (patch : List Assign)
      → All IsAside patch
      → Reaches client s t
      → Reaches client s (update {E = E} key patch t).1
  comments :
      {t : State C} (key editor text : String)
      → Reaches client s t
      → Reaches client s (add_comment {E = E} key editor text t).1
  votes :
      {t : State C} (key editor : String) (vote : Vote)
      → Reaches client s t
      → Reaches client s (vote_review {E = E} key editor vote t).1
  merges :
      {t : State C} (key : String) (policy : MergePolicy)
      → Reaches client s t
      → Reaches client s (try_merge client key policy t).1
  rejects :
      {t : State C} (key editor reason : String)
      → Reaches client s t
      → Reaches client s (reject_review {E = E} key editor reason t).1
