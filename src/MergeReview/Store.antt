-- ===== src/MergeReview/Store.antt =====
-- The store of `createReviewStore`: reviews under their ids, which are numbered.
use noware.Prelude.{
  ℕ, suc, String, Option, none, some, List, [], ◌&&◌, ◌==◌, get, set, values, filter,
}
use noware.Prelude.Decimals.{numbered}
use noware.Exec.{ok, throws}
use noware.Model.Patch.{assign_all}
use noware.MergeReview.{M, Review, ReviewStatus, GateResult, Assign, assign, review_not_found}

abbrev pub review_id : ℕ → String
review_id n = numbered "review-" n

module _ {C E : Type 0} where
  unfoldable pub create : String → String → String → List GateResult → M C E Review
  unfolding set numbered
  create project branch target gates s =
      let review : Review = record {
        id = review_id (suc s.counter);
        project_id = project;
        branch_name = branch;
        target_branch = target;
        status = ReviewStatus.opened;
        comments = [];
        votes = [];
        gates = gates;
        created_at = s.clock s.reads;
      } in
      (
        ok review,
        record s {
          counter = suc s.counter;
          reads = suc s.reads;
          reviews = set review.id review s.reviews;
        },
      )

  unfoldable pub find : String → M C E (Option Review)
  unfolding get
  find id s = (ok (get id s.reviews), s)

  unfoldable pub update_found : String → List Assign → Option Review → M C E Review
  unfolding set assign assign_all
  update_found id patch none s = (throws (review_not_found id), s)
  update_found id patch (some r) s =
      let updated = assign_all assign patch r in
      (ok updated, record s { reviews = set id updated s.reviews })

  unfoldable pub update : String → List Assign → M C E Review
  unfolding update_found get
  update id patch s = update_found id patch (get id s.reviews) s

  unfoldable pub list_by_branch : String → String → M C E (List Review)
  list_by_branch project branch s =
      (ok (filter (λ r. r.project_id == project && r.branch_name == branch) (values s.reviews)), s)

  unfoldable pub list_by_project : String → M C E (List Review)
  list_by_project project s = (ok (filter (λ r. r.project_id == project) (values s.reviews)), s)

module _ {C E : Type 0} where
  -- `store.get` and the throw that follows it where there is no review.
  unfoldable pub get_review : String → M C E Review
  unfolding get
  get_review id s = elim (get id s.reviews) [
    | none ↦ (throws (review_not_found id), s)
    | some r ↦ (ok r, s)
  ]
