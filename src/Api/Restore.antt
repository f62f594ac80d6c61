-- ===== src/Api/Restore.antt =====
-- A configuration that is read from one service and posted to another, and what a request can change.
use embedded_network_monitor.Prelude.{
  ◌+◌, ◌≤◌, ◌<◌, ◌≡◌, refl, ap, ◌∙◌, inl, inr, Bool, true, not, ◌&&◌, ◌||◌, none, some, [], ◌∷◌,
  ◌++◌, append-nil, append_assoc, arith, ltb, ◌==◌, if◌then◌else◌, Bool-cases, Bytes, codes, str_eq,
  str_eq→eq, length, All, length-append, take_all,
}
use embedded_network_monitor.Satellite.Json.{Json}
use embedded_network_monitor.Config.Entries.{
  Config, set_key, put, key_max, append_entry, val_max, Entry, find, max_entries,
}
use embedded_network_monitor.Prelude.Floating.{Floating}
use embedded_network_monitor.Api.Cjson.{Builder}
use embedded_network_monitor.Api.Routes.{
  Parser, handle_post_config, api_routes_handle, Answer, Server, Request,
}
use embedded_network_monitor.Config.RoundTrip.{Fresh}

-- What the theorems need of cJSON's parser beside its readers: an object that was built is one, and each
-- item that was added keeps its name, its text and its kind.
pub record IsParser (D : Type 0) (J : Type 0) ⦃j : Json J⦄ ⦃b : Builder D J⦄ ⦃p : Parser J⦄
    : Type 0 where
  pub items_empty : j.items b.create_object ≡ []
  pub items_add :
      (o v : J) (name : Bytes)
      → (w : J) × (j.items (b.add_item o name v) ≡ j.items o ++ w ∷ [])
        × (p.key w ≡ some name)
        × (j.text w ≡ j.text v)
        × (p.is_string w ≡ p.is_string v)
  pub text_string : (s : Bytes) → j.text (b.create_string s) ≡ some s
  pub string_string : (s : Bytes) → p.is_string (b.create_string s) ≡ true
  pub object_empty : p.is_object b.create_object ≡ true
  pub object_add : (o v : J) (name : Bytes) → p.is_object (b.add_item o name v) ≡ p.is_object o

-- no wildcard of `mg_match`
abbrev pub is_literal : Bytes → Bool
is_literal [] = true
is_literal (c ∷ s) = not (c == b'*' || c == b'?' || c == b'#') && is_literal s

-- the entries of `new` set in turn
abbrev pub set_all : Config → Config → Config
set_all cfg [] = cfg
set_all cfg (e ∷ new) = set_all (set_key cfg e.key e.value) new

set_key-fresh :
    (seen : Config) (e : Entry)
    → (length e.key < key_max) × (length e.value < val_max)
    → find seen e.key ≡ none
    → length seen < max_entries
    → set_key seen e.key e.value ≡ seen ++ e ∷ []
unfolding set_key put append_entry
set_key-fresh seen e h fresh room =
    let space : ltb (length seen) max_entries ≡ true = ground arith in
    rw (fresh, space)
      (rw (take_all 63 e.key (omega (arith, h.0)), take_all 127 e.value (omega (arith, h.1))) refl)

pub set_all-Fresh :
    (new seen : Config)
    → All (λ e. (length e.key < key_max) × (length e.value < val_max)) new
    → Fresh seen new
    → length seen + length new ≤ max_entries
    → set_all seen new ≡ seen ++ new
set_all-Fresh [] seen h fresh room = rw append-nil refl
set_all-Fresh (e ∷ new) seen h fresh room =
    ap (λ c. set_all c new) (set_key-fresh seen e h.0 fresh.0 (omega arith))
    ∙ set_all-Fresh new (seen ++ e ∷ []) h.1 fresh.1 (omega (arith, length-append seen (e ∷ [])))
    ∙ append_assoc seen (e ∷ []) new

module _ (D : Type 0) {J : Type 0} ⦃f : Floating D⦄ ⦃j : Json J⦄ ⦃b : Builder D J⦄ ⦃p : Parser J⦄
    (laws : IsParser D J) where
  -- Where `mg_match` of a pattern without wildcards is equality, a request changes the service only if
  -- it is a POST of /api/v1/config, and then as its handler says.
  pub state-api_routes_handle :
      (match : Bytes → Bytes → Bool) (screenshot : Answer J) (s : Server D) (hm : Request)
      → ((text pattern : Bytes)
          → is_literal pattern ≡ true
          → match text pattern ≡ str_eq text pattern)
      → (api_routes_handle match screenshot s hm).1 ≡ (
          if str_eq hm.method (codes "POST") && str_eq hm.uri (codes "/api/v1/config")
          then (handle_post_config {J = J} s hm.body).1
          else s)
  unfolding api_routes_handle str_eq
  state-api_routes_handle match screenshot s hm exact =
      rw
        (
          exact hm.method (codes "OPTIONS") refl,
          exact hm.method (codes "GET") refl,
          exact hm.method (codes "POST") refl,
          exact hm.uri (codes "/api/v1/config") refl,
        )
        (elim (Bool-cases (str_eq hm.method (codes "OPTIONS"))) [
          | inl e ↦ rw (e, str_eq→eq hm.method (codes "OPTIONS") e) refl
          | inr n ↦ rw n (elim (Bool-cases (str_eq hm.method (codes "GET"))) [
            | inl e ↦ rw (e, str_eq→eq hm.method (codes "GET") e) refl
            | inr m ↦ rw m (elim (Bool-cases (str_eq hm.method (codes "POST"))) [
              | inl e ↦ rw e (elim (Bool-cases (str_eq hm.uri (codes "/api/v1/config"))) [
                | inl u ↦ rw u refl
                | inr u ↦ rw u refl
              ])
              | inr e ↦ rw e refl
            ])
          ])
        ])
