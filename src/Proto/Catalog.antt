-- ===== src/Proto/Catalog.antt =====
-- The actions on resource definitions and API clients of planning/tenancit/proto/routes/store.js.
use tenancit.Base.{
  ℕ, zero, suc, ◌+◌, Bool, not, [], ◌∷◌, ◌++◌, filter, Option, Text, codes, text_eq, length, ◌-◌,
}
use tenancit.Proto.Types.{Definition, ApiClient}
use tenancit.Proto.Store.{
  Store, Platform, or_else, or_text, toggled, change_at, map_at, commit, uid, commit_definitions,
}

-- The argument of `addField`, whose own identifier would win.
pub record FieldInput : Type 0 where
  pub id : Option Text
  pub key : Text
  pub label : Text
  pub data_type : Text
  pub required : Bool
  pub is_secret : Bool

abbrev pub take : ℕ → Text → Text
take zero s = []
take (suc n) [] = []
take (suc n) (c ∷ s) = c ∷ take n s

abbrev pub drop : ℕ → Text → Text
drop zero s = s
drop (suc n) [] = []
drop (suc n) (c ∷ s) = drop n s

abbrev pub toggle_definition : Definition → Definition
toggle_definition d = record d { status = toggled (codes "active") (codes "inactive") d.status }

abbrev pub without_field : Text → Definition → Definition
without_field field_id d = record d { fields = filter (λ f. not (text_eq f.id field_id)) d.fields }

-- `random1` and `random2` are the texts of the two random numbers, `today` is the date.
unfoldable pub new_token : (random1 random2 : Text) → Text
new_token random1 random2 = codes "rt_live_" ++ (take 8 (drop 2 random1) ++ take 8 (drop 2 random2))

abbrev pub toggle_client : ApiClient → ApiClient
toggle_client c = record c { status = toggled (codes "active") (codes "revoked") c.status }

module _ (p : Platform) where
  unfoldable pub with_field : FieldInput → Definition → ℕ → Definition × ℕ
  with_field field d n = (
    record d {
      fields =
          d.fields
          ++ (record {
            id = or_else field.id (uid p (codes "f") n);
            key = field.key;
            label = field.label;
            data_type = field.data_type;
            required = field.required;
            is_secret = field.is_secret;
          }
              ∷ []);
    },
    n + 1,
  )

module _ (p : Platform) (writable : Bool) where
  unfoldable pub add_definition : (key name description icon : Text) → Store → Store × Text
  add_definition key name description icon s =
      let id = uid p (codes "def") s.counter in
      let def : Definition = record {
        id = id;
        key = key;
        name = name;
        status = codes "active";
        icon = or_text icon (codes "lucide:box");
        description = description;
        fields = [];
      } in
      (commit_definitions p writable (s.state.definitions ++ (def ∷ []), s.counter + 1) s, id)

  unfoldable pub toggle_definition_status : Text → Store → Store
  toggle_definition_status id s =
      commit_definitions p writable
        (map_at Definition.id id toggle_definition s.state.definitions, s.counter) s

  unfoldable pub add_field : Text → FieldInput → Store → Store
  add_field def_id field s =
      commit_definitions p writable
        (change_at Definition.id def_id (with_field p field) s.state.definitions s.counter) s

  unfoldable pub remove_field : (def_id field_id : Text) → Store → Store
  remove_field def_id field_id s =
      commit_definitions p writable
        (map_at Definition.id def_id (without_field field_id) s.state.definitions, s.counter) s

  unfoldable pub add_api_client : (name random1 random2 today : Text) → Store → Store × Text
  add_api_client name random1 random2 today s =
      let token = new_token random1 random2 in
      let client : ApiClient = record {
        id = uid p (codes "c") s.counter;
        name = name;
        status = codes "active";
        key_preview = codes "rt_live_••••••" ++ drop (length token - 4) token;
        created_at = today;
      } in
      (
        commit p writable (record s.state { api_clients = s.state.api_clients ++ (client ∷ []) })
            (record s { counter = s.counter + 1 }),
        token,
      )

  unfoldable pub toggle_api_client : Text → Store → Store
  toggle_api_client id s =
      commit p writable
        (record s.state { api_clients = map_at ApiClient.id id toggle_client s.state.api_clients })
        s
