-- ===== src/Results/Tags/Laws.antt =====
-- What `match` makes of tagged data.
use noware.Prelude.{
  ℕ, String, false, ◌≡◌, refl, Option, some, [], ◌∷◌, get, set, delete, get-set, has, has-set, true,
  arith, eq_iff, eq_refl,
}
use noware.Results.{
  Value, Object, is_nullish, property, SuccessResult, success, failure, ErrorInfo, ok, err,
  tagged_data, DetailsOrTagName, string_of, actual_tag_name,
}
use noware.Results.Tags.{tagged_with, Argument, of_object, Handlers, by_tag, match, match_error}

delete-set : (k : String) (v : Value) (o : Object) → delete k (set k v o) ≡ delete k o
unfolding delete set
delete-set k v [] = rw (eq_refl k) refl
delete-set k v ((j, w) ∷ o) = ground (arith, delete-set k v o, eq_iff j k)

property-set : (k : String) (v : Value) (o : Object) → property k (set k v o) ≡ v
property-set k v o = rw (get-set k k v o, eq_refl k) refl

module _ (printed : Value → String) {B : Type 0} (handlers : Handlers B) (tag : String)
    (v : Value) where
  by_tag-tagged :
      (o : Object) (h : Argument → B)
      → is_nullish v ≡ false
      → get (string_of printed v) handlers ≡ some h
      → by_tag printed (tagged_with tag v o) handlers tag ≡ some (h (of_object (delete tag o)))
  unfolding by_tag tagged_with
  by_tag-tagged o h there e = rw (property-set tag v o, there, e, delete-set tag v o) refl

  has_tag : (o : Object) → has tag (tagged_with tag v o) ≡ true
  unfolding tagged_with
  has_tag o = rw (has-set tag tag v o, eq_refl tag) refl

  by_tag-success :
      (s : SuccessResult Object) (b : B)
      → by_tag printed s.datum handlers tag ≡ some b
      → match printed (success s) handlers tag ≡ ok b
  unfolding match ok
  by_tag-success s b e = rw (match, e) refl

  by_tag-failure :
      (e : ErrorInfo) (o : Object) (b : B)
      → e.details ≡ some o
      → by_tag printed o handlers tag ≡ some b
      → match printed (failure e) handlers tag ≡ ok b
  unfolding match match_error ok
  by_tag-failure e o b same h = rw (match_error, same, h) refl

  -- What was tagged with a value that is neither `null` nor `undefined`, and that the handlers have a
  -- function for, goes to that function without its tag, both as the data of a success and as the
  -- details of an error that `err`, told the tag's name by its sixth or seventh argument, made of it.
  pub match-tagged_with :
      (o : Object) (h : Argument → B) (message : String) (status : ℕ) (code : String)
      (stack : Option String) (d : DetailsOrTagName) (name : String)
      → is_nullish v ≡ false
      → get (string_of printed v) handlers ≡ some h
      → actual_tag_name d name ≡ tag
      → (match printed (ok (tagged_with tag v o)) handlers tag ≡ ok (h (of_object (delete tag o))))
        × (match printed
              (err printed (tagged_data (tagged_with tag v o)) message status code stack d name)
              handlers
              tag
            ≡ ok (h (of_object (delete tag o))))
  unfolding err ok
  match-tagged_with o h message status code stack d name there e told =
      let found = by_tag-tagged o h there e in
      (
        by_tag-success _ _ found,
        rw (err, told, has_tag o) (by_tag-failure _ (tagged_with tag v o) _ refl found),
      )
