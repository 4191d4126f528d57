-- ===== src/Proto/Store.antt =====
-- planning/tenancit/proto/routes/store.js. The store holds the state, the entry of local storage,
-- the count of identifiers and the listeners, with those that were called, in their order.
use tenancit.Base.{
  ℕ, Bool, not, List, [], ◌∷◌, ◌++◌, map, filter, Option, none, some, Text, text_eq, is_empty, ◌==◌,
  any, if◌then◌else◌,
}
use tenancit.Proto.Types.{Tenant, Definition, State}
use tenancit.Proto.Seed as Seed

pub record Store : Type 0 where
  pub state : State
  pub item : Option Text
  pub counter : ℕ
  pub listeners : List ℕ
  pub called : List ℕ

unfoldable pub seed : State
seed = record {
  tenants = Seed.tenants;
  definitions = Seed.definitions;
  api_clients = Seed.api_clients;
}

-- What `JSON.parse` does with a text: it throws, or it gives a state or another value.
pub data Parsed : Type 0 where
  unparsed other_value : Parsed
  parsed_state : State → Parsed

-- What the module uses of the platform: JSON, the clock's text at each identifier, decimals, and
-- lower case.
pub record Platform : Type 0 where
  pub stringify : State → Text
  pub parse : Text → Parsed
  pub now : ℕ → Text
  pub decimal : ℕ → Text
  pub to_lower_case : Text → Text

abbrev pub or_else {ℓ} : {A : Type ℓ} → Option A → A → A
or_else none a = a
or_else (some b) a = b

-- A page that has loaded.
abbrev pub page_of : State → Option Text → Store
page_of state item = record { state = state; item = item; counter = 1; listeners = []; called = [] }

abbrev pub map_option {ℓ} : {A B : Type ℓ} → (A → B) → Option A → Option B
map_option f none = none
map_option f (some a) = some (f a)

-- `a || b` on texts.
abbrev pub or_text : Text → Text → Text
or_text a b = if is_empty a then b else a

abbrev pub find {ℓ} : {A : Type ℓ} → (A → Bool) → List A → Option A
find p [] = none
find p (x ∷ xs) = let rest = find p xs in if p x then some x else rest

abbrev pub toggled : (on off status : Text) → Text
toggled on off status = if text_eq status on then off else on

-- The effect of `useStore` and its cleanup, on a set of listeners.
unfoldable pub subscribe : ℕ → Store → Store
subscribe l s =
    if any (λ k. k == l) s.listeners then s else record s { listeners = s.listeners ++ (l ∷ []) }

unfoldable pub unsubscribe : ℕ → Store → Store
unsubscribe l s = record s { listeners = filter (λ k. not (k == l)) s.listeners }

unfoldable pub find_tenant : Text → Store → Option Tenant
find_tenant id s = find (λ t. text_eq t.id id) s.state.tenants

unfoldable pub find_definition : Text → Store → Option Definition
find_definition id s = find (λ d. text_eq d.id id) s.state.definitions

unfoldable pub find_definition_by_key : Text → Store → Option Definition
find_definition_by_key key s = find (λ d. text_eq d.key key) s.state.definitions

-- `map` with the element of an identifier changed, where the change may draw identifiers.
unfoldable pub change_at {ℓ} :
    {A : Type ℓ} → (A → Text) → Text → (A → ℕ → A × ℕ) → List A → ℕ → List A × ℕ
change_at id_of id change [] n = ([], n)
change_at id_of id change (x ∷ xs) n =
    let here = if text_eq (id_of x) id then change x n else (x, n) in
    let rest = change_at id_of id change xs here.1 in (here.0 ∷ rest.0, rest.1)

-- `map` with the elements of an identifier changed, and no identifier drawn.
abbrev pub map_at {ℓ} : {A : Type ℓ} → (A → Text) → Text → (A → A) → List A → List A
map_at id_of id change xs = map (λ x. if text_eq (id_of x) id then change x else x) xs

-- `none` is a value that is not a state, which the source keeps; what the pages do with it is not
-- modelled. `JSON.parse` throws on a text that is not JSON, and the seed is taken.
unfoldable pub load_parsed : Parsed → Option State
load_parsed unparsed = some seed
load_parsed other_value = none
load_parsed (parsed_state state) = some state

module _ (p : Platform) where
  -- The identifier of a prefix, at the value of the counter before it is counted up.
  unfoldable pub uid : Text → ℕ → Text
  uid prefix n = prefix ++ (b'-' ∷ (p.now n ++ (b'-' ∷ p.decimal n)))

  -- The state at the start. `readable` tells whether `getItem` returns; where it throws the seed is
  -- taken, as it is for an empty text.
  unfoldable pub load_item : Option Text → Option State
  load_item none = some seed
  load_item (some raw) = if is_empty raw then some seed else load_parsed (p.parse raw)

  unfoldable pub load : (readable : Bool) → Option Text → Option State
  load readable item = if readable then load_item item else some seed

  unfoldable pub opened : (readable : Bool) → Option Text → Option Store
  opened readable item = map_option (λ state. page_of state item) (load readable item)

module _ (p : Platform) (writable : Bool) where
  -- `setItem` throws where the storage is not writable, and the error is dropped.
  unfoldable pub commit : State → Store → Store
  commit next s = record s {
    state = next;
    item = if writable then some (p.stringify next) else s.item;
    called = s.called ++ s.listeners;
  }

  unfoldable pub reset_state : Store → Store
  reset_state s = commit seed s

  abbrev pub commit_tenants : (List Tenant × ℕ) → Store → Store
  commit_tenants (tenants, n) s =
      commit (record s.state { tenants = tenants }) (record s { counter = n })

  abbrev pub commit_definitions : (List Definition × ℕ) → Store → Store
  commit_definitions (definitions, n) s =
      commit (record s.state { definitions = definitions }) (record s { counter = n })
