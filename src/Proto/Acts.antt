-- ===== src/Proto/Acts.antt =====
-- Every sequence of actions keeps the identifiers of a store apart.
use tenancit.Base.{
  ◌+◌, ◌≡◌, some, refl, sym, subst, Bool, true, false, not, List, [], ◌∷◌, none, Text, text_eq,
  codes, All-append, arith,
}
use tenancit.Proto.Types.{Tenant, Field, Definition, ApiClient}
use tenancit.Proto.Store.{
  Store, Platform, commit, change_at, reset_state, load, load_item, opened, page_of, seed,
}
use tenancit.Proto.Catalog.{
  add_definition, toggle_definition, toggle_definition_status, with_field, add_field, without_field,
  remove_field, add_api_client, toggle_client, toggle_api_client,
}
use tenancit.Proto.Action.{
  field_form, perform, perform_all, Action, reset, create_tenant, edit_tenant, create_domain,
  delete_domain, create_resource, switch_resource, delete_resource, create_definition,
  switch_definition, create_field, delete_field, create_client, switch_client,
}
use tenancit.Proto.Ids.{Numerals, IsNumbered, later-IsNumbered, filter-IsNumbered}
use tenancit.Proto.Numbered.{
  TenantNumbered, DefinitionNumbered, later_tenant, later_definition, later_All, change_at-Keeps,
  map_at_keeps,
}
use tenancit.Proto.SeedIds.{seed-IsNumberedState}
use tenancit.Proto.Unique.{IsNumberedStore, definitions-IsNumberedStore, more-IsNumbered}
use tenancit.Proto.Keeping.{
  map_at_ids, add_tenant-IsNumberedStore, update_tenant-IsNumberedStore, add_domain-IsNumberedStore,
  remove_domain-IsNumberedStore, add_resource-IsNumberedStore,
  toggle_resource_status-IsNumberedStore, remove_resource-IsNumberedStore,
}

module _ (p : Platform) (numerals : Numerals p) (w : Bool) where
  reset_state-IsNumberedStore : (s : Store) → IsNumberedStore p numerals (reset_state p w s)
  unfolding reset_state commit
  reset_state-IsNumberedStore s =
      let h = seed-IsNumberedState p numerals s.counter in
      record {
        tenants = h.tenants;
        in_tenants = h.in_tenants;
        definitions = h.definitions;
        in_definitions = h.in_definitions;
        clients = h.clients;
      }

  add_definition-IsNumberedStore :
      (key name description icon : Text) (s : Store)
      → IsNumberedStore p numerals s
      → IsNumberedStore p numerals (add_definition p w key name description icon s).0
  unfolding add_definition
  add_definition-IsNumberedStore key name description icon s h =
      definitions-IsNumberedStore p numerals w _ (s.counter + 1) s (omega arith)
        (more-IsNumbered p numerals Definition.id (codes "def") s.counter (s.counter + 1)
          s.state.definitions _ refl (omega arith) h.definitions)
        (All-append (DefinitionNumbered p numerals (s.counter + 1)) s.state.definitions _
          (later_All Definition.id (DefinitionNumbered p numerals) (later_definition p numerals)
            s.counter (s.counter + 1) s.state.definitions (omega arith) h.in_definitions)
          ((tt, tt), tt))
        h

  toggle_definition_status-IsNumberedStore :
      (id : Text) (s : Store)
      → IsNumberedStore p numerals s
      → IsNumberedStore p numerals (toggle_definition_status p w id s)
  unfolding toggle_definition_status
  toggle_definition_status-IsNumberedStore id s h =
      let (ids, each) =
        map_at_keeps Definition.id (DefinitionNumbered p numerals) (later_definition p numerals) id
          toggle_definition s.counter (λ d q. (refl, q)) s.state.definitions h.in_definitions in
      definitions-IsNumberedStore p numerals w _ s.counter s (omega arith)
        (subst (IsNumbered p numerals s.counter) (sym ids) h.definitions) each h

  add_field-IsNumberedStore :
      (id key label data_type : Text) (required is_secret : Bool) (s : Store)
      → IsNumberedStore p numerals s
      → IsNumberedStore p numerals
          (add_field p w id (field_form key label data_type required is_secret) s)
  unfolding add_field with_field
  add_field-IsNumberedStore id key label data_type required is_secret s h =
      let change = with_field p (field_form key label data_type required is_secret) in
      let (ids, le, each) =
        change_at-Keeps Definition.id (DefinitionNumbered p numerals) (later_definition p numerals)
          id change
          (λ d n q. (
            refl,
            omega arith,
            more-IsNumbered p numerals Field.id (codes "f") n (n + 1) d.fields _ refl (omega arith)
                q,
          ))
          s.state.definitions s.counter h.in_definitions in
      definitions-IsNumberedStore p numerals w
        (change_at Definition.id id change s.state.definitions s.counter).0
        (change_at Definition.id id change s.state.definitions s.counter).1 s le
        (subst (IsNumbered p numerals _) (sym ids)
          (later-IsNumbered p numerals s.counter _ _ le h.definitions))
        each h

  remove_field-IsNumberedStore :
      (id field_id : Text) (s : Store)
      → IsNumberedStore p numerals s
      → IsNumberedStore p numerals (remove_field p w id field_id s)
  unfolding remove_field
  remove_field-IsNumberedStore id field_id s h =
      let (ids, each) =
        map_at_keeps Definition.id (DefinitionNumbered p numerals) (later_definition p numerals) id
          (without_field field_id) s.counter
          (λ d q. (
            refl,
            filter-IsNumbered p numerals Field.id (λ x. not (text_eq x.id field_id)) s.counter
                d.fields q,
          ))
          s.state.definitions h.in_definitions in
      definitions-IsNumberedStore p numerals w _ s.counter s (omega arith)
        (subst (IsNumbered p numerals s.counter) (sym ids) h.definitions) each h

  add_api_client-IsNumberedStore :
      (name random1 random2 today : Text) (s : Store)
      → IsNumberedStore p numerals s
      → IsNumberedStore p numerals (add_api_client p w name random1 random2 today s).0
  unfolding add_api_client commit
  add_api_client-IsNumberedStore name random1 random2 today s h = record {
    tenants = later-IsNumbered p numerals s.counter (s.counter + 1) _ (omega arith) h.tenants;
    in_tenants =
        later_All Tenant.id (TenantNumbered p numerals) (later_tenant p numerals) s.counter
          (s.counter + 1) _ (omega arith) h.in_tenants;
    definitions =
        later-IsNumbered p numerals s.counter (s.counter + 1) _ (omega arith) h.definitions;
    in_definitions =
        later_All Definition.id (DefinitionNumbered p numerals) (later_definition p numerals)
          s.counter (s.counter + 1) _ (omega arith) h.in_definitions;
    clients =
        more-IsNumbered p numerals ApiClient.id (codes "c") s.counter (s.counter + 1)
          s.state.api_clients _ refl (omega arith) h.clients;
  }

  toggle_api_client-IsNumberedStore :
      (id : Text) (s : Store)
      → IsNumberedStore p numerals s
      → IsNumberedStore p numerals (toggle_api_client p w id s)
  unfolding toggle_api_client commit
  toggle_api_client-IsNumberedStore id s h = record {
    tenants = h.tenants;
    in_tenants = h.in_tenants;
    definitions = h.definitions;
    in_definitions = h.in_definitions;
    clients =
        subst (IsNumbered p numerals s.counter)
          (sym (map_at_ids ApiClient.id id toggle_client (λ c. refl) s.state.api_clients))
          h.clients;
  }

  pub perform-IsNumberedStore :
      (a : Action) (s : Store)
      → IsNumberedStore p numerals s
      → IsNumberedStore p numerals (perform p w a s)
  unfolding perform
  perform-IsNumberedStore reset s h = reset_state-IsNumberedStore s
  perform-IsNumberedStore (create_tenant n g o) s h =
      add_tenant-IsNumberedStore p numerals w n g o s h
  perform-IsNumberedStore (edit_tenant i n g o) s h =
      update_tenant-IsNumberedStore p numerals w i n g o s h
  perform-IsNumberedStore (create_domain i o) s h = add_domain-IsNumberedStore p numerals w i o s h
  perform-IsNumberedStore (delete_domain i o) s h =
      remove_domain-IsNumberedStore p numerals w i o s h
  perform-IsNumberedStore (create_resource i d v) s h =
      add_resource-IsNumberedStore p numerals w i d v s h
  perform-IsNumberedStore (switch_resource i r) s h =
      toggle_resource_status-IsNumberedStore p numerals w i r s h
  perform-IsNumberedStore (delete_resource i r) s h =
      remove_resource-IsNumberedStore p numerals w i r s h
  perform-IsNumberedStore (create_definition k n d i) s h =
      add_definition-IsNumberedStore k n d i s h
  perform-IsNumberedStore (switch_definition i) s h = toggle_definition_status-IsNumberedStore i s h
  perform-IsNumberedStore (create_field i k l d r z) s h = add_field-IsNumberedStore i k l d r z s h
  perform-IsNumberedStore (delete_field i f) s h = remove_field-IsNumberedStore i f s h
  perform-IsNumberedStore (create_client n a b t) s h = add_api_client-IsNumberedStore n a b t s h
  perform-IsNumberedStore (switch_client i) s h = toggle_api_client-IsNumberedStore i s h

module _ (p : Platform) where
  pub opened-none : (readable : Bool) → opened p readable none ≡ some (page_of seed none)
  unfolding opened load load_item
  opened-none true = refl
  opened-none false = refl

module _ (p : Platform) (numerals : Numerals p) where
  performed-IsNumberedStore :
      (actions : List (Bool × Action)) (s : Store)
      → IsNumberedStore p numerals s
      → IsNumberedStore p numerals (perform_all p actions s)
  unfolding perform_all
  performed-IsNumberedStore [] s h = h
  performed-IsNumberedStore ((w, a) ∷ rest) s h =
      performed-IsNumberedStore rest (perform p w a s) (perform-IsNumberedStore p numerals w a s h)

  pub page-IsNumberedStore : IsNumberedStore p numerals (page_of seed none)
  page-IsNumberedStore = seed-IsNumberedState p numerals 1

  -- A page opens without a stored state, and after every sequence of actions in it no two tenants, no
  -- two definitions and no two API clients share an identifier, nor do two domains or two resources
  -- of a tenant, nor two fields of a definition, and none of these identifiers is drawn again. It is
  -- said of a platform that writes different numbers as different texts without a dash.
  pub perform_all-IsNumberedStore :
      (actions : List (Bool × Action)) (readable : Bool)
      → (s : Store) × (opened p readable none ≡ some s)
        × IsNumberedStore p numerals (perform_all p actions s)
  perform_all-IsNumberedStore actions readable = (
    page_of seed none,
    opened-none p readable,
    performed-IsNumberedStore actions (page_of seed none) page-IsNumberedStore,
  )
