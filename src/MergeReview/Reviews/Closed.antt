-- ===== src/MergeReview/Reviews/Closed.antt =====
-- What `create`, the writes of a review, `addComment` and `vote` do to a closed review.
use noware.Prelude.{
  All, ℕ, suc, ◌<◌, String, false, ◌≡◌, refl, ap, ◌∙◌, none, some, List, [], ◌∷◌, arith, get, set,
  get-set, ◌==◌, eq_iff, test_of_ne, Option-cases, inl, inr, Bool-cases,
}
use noware.Prelude.Decimals.{numbered-inj}
use noware.Exec.Keeps.{Keeps, Keeps-bind, Keeps-pure}
use noware.MergeReview.{assign, State, Review, ReviewComment, Vote, GateResult, Assign, date_now}
use noware.Model.Patch.{assign_all}
use noware.MergeReview.Store.{review_id, create, update, update_found, get_review}
use noware.MergeReview.Reviews.{is_open, add_comment, vote_on, vote_review}

-- The review under the id is not open; it has this status and these votes and gates.
pub record IsClosed {C : Type 0} (id : String) (closed : Review) (s : State C) : Type 0 where
  pub review : Review
  pub found : get id s.reviews ≡ some review
  pub shut : is_open closed.status ≡ false
  pub status : review.status ≡ closed.status
  pub votes : review.votes ≡ closed.votes
  pub gates : review.gates ≡ closed.gates
  -- The ids that are still to be drawn are free.
  pub fresh : (n : ℕ) → s.counter < n → get (review_id n) s.reviews ≡ none

-- What a write may change at a closed review.
pub record SameVerdict (old new : Review) : Type 0 where
  pub status : new.status ≡ old.status
  pub votes : new.votes ≡ old.votes
  pub gates : new.gates ≡ old.gates

-- Fields that are not part of what closed a review.
abbrev pub IsAside : Assign → Type 0
IsAside (Assign.status v) = ⊥
IsAside (Assign.votes v) = ⊥
IsAside (Assign.gates v) = ⊥
IsAside _ = Unit

assign-aside : (r : Review) (a : Assign) → IsAside a → SameVerdict r (assign r a)
unfolding assign
assign-aside r (Assign.status v) h = absurd h
assign-aside r (Assign.votes v) h = absurd h
assign-aside r (Assign.gates v) h = absurd h
assign-aside r (Assign.id v) h = record { status = refl; votes = refl; gates = refl }
assign-aside r (Assign.project_id v) h = record { status = refl; votes = refl; gates = refl }
assign-aside r (Assign.branch_name v) h = record { status = refl; votes = refl; gates = refl }
assign-aside r (Assign.target_branch v) h = record { status = refl; votes = refl; gates = refl }
assign-aside r (Assign.comments v) h = record { status = refl; votes = refl; gates = refl }
assign-aside r (Assign.created_at v) h = record { status = refl; votes = refl; gates = refl }

assign_all-aside :
    (patch : List Assign) (r : Review)
    → All IsAside patch
    → SameVerdict r (assign_all assign patch r)
unfolding assign_all
assign_all-aside [] r h = record { status = refl; votes = refl; gates = refl }
assign_all-aside (a ∷ patch) r (p, h) =
    let first = assign-aside r a p in
    let rest = assign_all-aside patch (assign r a) h in
    record {
      status = rest.status ∙ first.status;
      votes = rest.votes ∙ first.votes;
      gates = rest.gates ∙ first.gates;
    }

abbrev FreeFrom : {C : Type 0} → State C → Type 0
FreeFrom s = (n : ℕ) → s.counter < n → get (review_id n) s.reviews ≡ none

pub drawn_apart : (m n : ℕ) → m < n → (review_id m == review_id n) ≡ false
drawn_apart m n less =
    test_of_ne (review_id m) (review_id n)
      λ e. let clash : m ≡ n = numbered-inj "review-" m n e in absurd (omega arith)

module _ {C : Type 0} (id : String) (closed : Review) where
  pub same :
      (s t : State C)
      → t.reviews ≡ s.reviews
      → t.counter ≡ s.counter
      → IsClosed id closed s
      → IsClosed id closed t
  same s t reviews counter h = record {
    review = h.review;
    found = rw reviews h.found;
    shut = h.shut;
    status = h.status;
    votes = h.votes;
    gates = h.gates;
    fresh = λ n less. rw reviews (h.fresh n (ground (arith, counter, less)));
  }

  write_other :
      (key : String) (new : Review) (s t : State C)
      → t.reviews ≡ set key new s.reviews
      → (key == id) ≡ false
      → FreeFrom t
      → IsClosed id closed s
      → IsClosed id closed t
  write_other key new s t reviews other fresh h = record {
    review = h.review;
    found = rw (reviews, get-set key id new s.reviews, other) h.found;
    shut = h.shut;
    status = h.status;
    votes = h.votes;
    gates = h.gates;
    fresh = fresh;
  }

  pub write :
      (key : String) (old new : Review) (s : State C)
      → get key s.reviews ≡ some old
      → (is_open old.status ≡ false → SameVerdict old new)
      → IsClosed id closed s
      → IsClosed id closed (record s { reviews = set key new s.reviews })
  write key old new s there verdict h =
      let free : FreeFrom (record s { reviews = set key new s.reviews }) = λ n less. ground (
        arith,
        h.fresh n less,
        get-set key (review_id n) new s.reviews,
        eq_iff key (review_id n),
        there,
      ) in
      elim (Bool-cases (key == id)) [
        | inl e ↦
            let its : old ≡ h.review = ground (arith, there, h.found, eq_iff key id, e) in
            let still = verdict (ap (λ r. is_open r.status) its ∙ ap is_open h.status ∙ h.shut) in
            record {
              review = new;
              found = rw (get-set key id new s.reviews, e) refl;
              shut = h.shut;
              status = still.status ∙ ap (λ r. r.status) its ∙ h.status;
              votes = still.votes ∙ ap (λ r. r.votes) its ∙ h.votes;
              gates = still.gates ∙ ap (λ r. r.gates) its ∙ h.gates;
              fresh = free;
            }
        | inr e ↦ write_other key new s _ refl e free h
      ]

module _ {C : Type 0} (E : Type 0) (id : String) (closed : Review) where
  pub create-Keeps :
      (project branch target : String) (gates : List GateResult)
      → Keeps (IsClosed id closed) (create {C = C} {E = E} project branch target gates)
  unfolding create
  create-Keeps project branch target gates = record {
    at = λ s h.
        let n = suc s.counter in
        let drawn = h.fresh n (omega arith) in
        let other : (review_id n == id) ≡ false =
          ground (arith, eq_iff (review_id n) id, drawn, h.found) in
        write_other id closed (review_id n) _ s _ refl other
          (λ k less.
            rw (get-set (review_id n) (review_id k) _ s.reviews, drawn_apart n k less)
              (h.fresh k (omega arith)))
          h;
  }

  get_review-Keeps : (key : String) → Keeps (IsClosed id closed) (get_review {C = C} {E = E} key)
  unfolding get_review
  get_review-Keeps key = record {
    at = λ s h. elim (Option-cases (get key s.reviews)) [
      | inl e ↦ rw (get_review, e) h
      | inr (r, e) ↦ rw (get_review, e) h
    ];
  }

  date_now-Keeps : Keeps (IsClosed id closed) (date_now {C = C} {E = E})
  unfolding date_now
  date_now-Keeps = record { at = λ s h. same id closed s _ refl refl h }

  -- An update that assigns neither the status nor the votes nor the gates.
  pub update-Keeps :
      (key : String) (patch : List Assign)
      → All IsAside patch
      → Keeps (IsClosed id closed) (update {C = C} {E = E} key patch)
  unfolding update
  update-Keeps key patch aside = record {
    at = λ s h. elim (Option-cases (get key s.reviews)) [
      | inl e ↦ rw (update_found, e) h
      | inr (r, e) ↦
          rw (update_found, e) (write id closed key r _ s e (λ _. assign_all-aside patch r aside) h)
    ];
  }

  comments-Keeps :
      (key : String) (comments : List ReviewComment)
      → Keeps (IsClosed id closed) (update {C = C} {E = E} key (Assign.comments comments ∷ []))
  comments-Keeps key comments = update-Keeps key (Assign.comments comments ∷ []) (tt, tt)

  pub add_comment-Keeps :
      (key editor text : String)
      → Keeps (IsClosed id closed) (add_comment {C = C} {E = E} key editor text)
  unfolding add_comment
  add_comment-Keeps key editor text =
      search (Keeps-bind, Keeps-pure, get_review-Keeps, date_now-Keeps, comments-Keeps)

  pub vote_review-Keeps :
      (key editor : String) (vote : Vote)
      → Keeps (IsClosed id closed) (vote_review {C = C} {E = E} key editor vote)
  unfolding vote_review vote_on
  vote_review-Keeps key editor vote = record {
    at = λ s h. elim (Option-cases (get key s.reviews)) [
      | inl e ↦ rw (get_review, e) h
      | inr (r, e) ↦ elim (Bool-cases (is_open r.status)) [
        | inl o ↦
            rw (get_review, e, o, update, update_found, e)
              (write id closed key r _ s e (λ shut. absurd cc) h)
        | inr o ↦ rw (get_review, e, o) h
      ]
    ];
  }
