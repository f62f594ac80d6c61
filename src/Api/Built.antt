-- ===== src/Api/Built.antt =====
-- Reading back a document that was built: an object is a table by name, an array the list of its items.
use embedded_network_monitor.Prelude.{
  ◌≡◌, refl, ap, ◌∙◌, inl, inr, false, Option, none, some, List, [], ◌∷◌, ◌++◌, append-nil,
  append_assoc, if◌then◌else◌, Bool-cases, Option-cases, Bytes,
}
use embedded_network_monitor.Api.Cjson.{
  same_key, or_else, Builder, IsBuilder, add_fields, object, append_items, array,
}
use embedded_network_monitor.Prelude.Floating.{Floating}
use embedded_network_monitor.Satellite.Json.{Json}

-- the first field of the name
abbrev pub find_field : {J : Type 0} → List (Bytes × J) → Bytes → Option J
find_field [] key = none
find_field ((name, v) ∷ fields) key = if same_key name key then some v else find_field fields key

or_else_assoc {ℓ} :
    {A : Type ℓ} (o p q : Option A) → or_else (or_else o p) q ≡ or_else o (or_else p q)
unfolding or_else
or_else_assoc none p q = refl
or_else_assoc (some a) p q = refl

find_field-cons :
    {J : Type 0} (name : Bytes) (v : J) (fields : List (Bytes × J)) (key : Bytes)
    → or_else (if same_key name key then some v else none) (find_field fields key)
      ≡ find_field ((name, v) ∷ fields) key
unfolding or_else
find_field-cons name v fields key = elim (Bool-cases (same_key name key)) [
  | inl e ↦ rw e refl
  | inr e ↦ rw e refl
]

module _ (D : Type 0) {J : Type 0} ⦃f : Floating D⦄ ⦃j : Json J⦄ ⦃b : Builder D J⦄
    (laws : IsBuilder D J) where
  get-add_fields :
      (fields : List (Bytes × J)) (o : J) (key : Bytes)
      → j.get (add_fields D o fields) key ≡ or_else (j.get o key) (find_field fields key)
  unfolding add_fields
  get-add_fields [] o key =
      unfold or_else in
      elim (Option-cases (j.get o key)) [ inl e ↦ rw e refl | inr (v, e) ↦ rw e refl ]
  get-add_fields ((name, v) ∷ fields) o key =
      get-add_fields fields (b.add_item o name v) key
      ∙ ap (λ r. or_else r (find_field fields key)) (laws.get_add o v name key)
      ∙ or_else_assoc (j.get o key) (if same_key name key then some v else none)
          (find_field fields key)
      ∙ ap (or_else (j.get o key)) (find_field-cons name v fields key)

  -- A name is looked up among the fields of the object, in order.
  pub get-object :
      (fields : List (Bytes × J)) (key : Bytes)
      → j.get (object D fields) key ≡ find_field fields key
  unfolding object or_else
  get-object fields key =
      get-add_fields fields b.create_object key
      ∙ ap (λ r. or_else r (find_field fields key)) (laws.get_empty key)

  items-append_items : (vs : List J) (a : J) → j.items (append_items D a vs) ≡ j.items a ++ vs
  unfolding append_items
  items-append_items [] a = rw append-nil refl
  items-append_items (v ∷ vs) a =
      items-append_items vs (b.append_item a v)
      ∙ ap (λ r. r ++ vs) (laws.items_append a v)
      ∙ append_assoc (j.items a) (v ∷ []) vs

  pub items-array : (vs : List J) → j.items (array D vs) ≡ vs
  unfolding array
  items-array vs = items-append_items vs b.create_array ∙ ap (λ r. r ++ vs) laws.items_empty

  null-add_fields :
      (fields : List (Bytes × J)) (o : J) → j.is_null (add_fields D o fields) ≡ j.is_null o
  unfolding add_fields
  null-add_fields [] o = refl
  null-add_fields ((name, v) ∷ fields) o =
      null-add_fields fields (b.add_item o name v) ∙ laws.null_add o v name

  pub null-object : (fields : List (Bytes × J)) → j.is_null (object D fields) ≡ false
  unfolding object
  null-object fields = null-add_fields fields b.create_object ∙ laws.null_empty
