-- ===== src/Api/Cjson.antt =====
-- What api_json.c calls of cJSON to build a document. cJSON is a library: its calls are the record
-- `Builder`, and what its documentation promises of them together with the readers of `Json` is the
-- record `IsBuilder`. A call that fails for want of memory is left out. An object that the code adds
-- empty and fills afterwards is filled when it is added.
use embedded_network_monitor.Prelude.{
  ℕ, suc, ◌+◌, ◌-◌, ◌<◌, ◌≡◌, Bool, true, false, ◌&&◌, Option, none, some, List, [], ◌∷◌, ◌++◌, leb,
  ◌==◌, if◌then◌else◌, Bytes,
}
use embedded_network_monitor.Prelude.Floating.{Floating}
use embedded_network_monitor.Satellite.Json.{Json}

-- `create_number` is `cJSON_CreateNumber`, `add_item` is `cJSON_AddItemToObject` and `append_item`
-- `cJSON_AddItemToArray`.
pub record Builder (D : Type 0) (J : Type 0) : Type 0 where
  pub create_object : J
  pub create_array : J
  pub create_string : Bytes → J
  pub create_number : D → J
  pub create_bool : Bool → J
  pub add_item : J → Bytes → J → J
  pub append_item : J → J → J

-- in the C locale
unfoldable pub tolower : ℕ → ℕ
tolower c = if leb 65 c && leb c 90 then c + 32 else c

-- the names that `cJSON_GetObjectItem` takes for equal
unfoldable pub same_key : Bytes → Bytes → Bool
unfolding tolower
same_key [] [] = true
same_key [] (d ∷ t) = false
same_key (c ∷ s) [] = false
same_key (c ∷ s) (d ∷ t) = tolower c == tolower d && same_key s t

-- the first of two results
unfoldable pub or_else {ℓ} : {A : Type ℓ} → Option A → Option A → Option A
or_else none o = o
or_else (some a) o = some a

-- The reader looks from the front for the first item of the name, and gives back what was stored: a
-- double is the number that was created.
pub record IsBuilder (D : Type 0) (J : Type 0) ⦃f : Floating D⦄ ⦃j : Json J⦄ ⦃b : Builder D J⦄
    : Type 0 where
  pub get_empty : (key : Bytes) → j.get b.create_object key ≡ none
  pub get_add :
      (o v : J) (name key : Bytes)
      → j.get (b.add_item o name v) key
        ≡ or_else (j.get o key) (if same_key name key then some v else none)
  pub items_empty : j.items b.create_array ≡ []
  pub items_append : (a v : J) → j.items (b.append_item a v) ≡ j.items a ++ v ∷ []
  pub true_bool : (t : Bool) → j.is_true (b.create_bool t) ≡ t
  pub text_string : (s : Bytes) → j.text (b.create_string s) ≡ some s
  pub whole_number : (w : ℕ) (d : D) → j.whole w (b.create_number d) ≡ f.to_ℕ w d
  pub tenths_number : (d : D) → j.tenths (b.create_number d) ≡ f.to_ℕ 16 (f.mul d (f.of_ℕ 10))
  pub byte_pos : (n : ℕ) → n < 128 → j.signed_byte (b.create_number (f.of_ℕ n)) ≡ n
  pub byte_neg :
      (n : ℕ)
      → n < 128
      → j.signed_byte (b.create_number (f.sub f.zero_d (f.of_ℕ (suc n)))) ≡ 255 - n
  pub null_empty : j.is_null b.create_object ≡ false
  pub null_add : (o v : J) (name : Bytes) → j.is_null (b.add_item o name v) ≡ j.is_null o

module _ (D : Type 0) {J : Type 0} ⦃b : Builder D J⦄ where
  -- a run of calls of `cJSON_Add…ToObject`
  unfoldable pub add_fields : J → List (Bytes × J) → J
  add_fields o [] = o
  add_fields o ((name, v) ∷ fields) = add_fields (b.add_item o name v) fields

  unfoldable pub append_items : J → List J → J
  append_items a [] = a
  append_items a (v ∷ vs) = append_items (b.append_item a v) vs

  unfoldable pub object : List (Bytes × J) → J
  unfolding add_fields
  object fields = add_fields b.create_object fields

  unfoldable pub array : List J → J
  unfolding append_items
  array vs = append_items b.create_array vs
