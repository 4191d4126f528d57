-- ===== src/Proto/Persist.antt =====
-- The state survives a reload of the page.
use tenancit.Base.{◌≡◌, refl, true, false, some, is_empty}
use tenancit.Proto.Types.{State}
use tenancit.Proto.Store.{
  Store, Platform, load, load_item, load_parsed, parsed_state, commit, reset_state,
}
use tenancit.Proto.Tenants.{
  add_tenant, update_tenant, mutate_tenant, add_domain, remove_domain, add_resource,
  toggle_resource_status, remove_resource,
}
use tenancit.Proto.Catalog.{
  add_definition, toggle_definition_status, add_field, remove_field, add_api_client,
  toggle_api_client,
}
use tenancit.Proto.Action.{Action, perform, reset}

module _ (p : Platform) where
  -- The storage has the state.
  abbrev pub IsSaved : Store → Type 0
  IsSaved s = s.item ≡ some (Platform.stringify p s.state)

  -- JSON reads the state back from its text, which is not empty.
  abbrev pub IsReadBack : State → Type 0
  IsReadBack t =
      (Platform.parse p (Platform.stringify p t) ≡ parsed_state t)
      × (is_empty (Platform.stringify p t) ≡ false)

  perform-IsSaved : (a : Action) (s : Store) → IsSaved (perform p true a s)
  unfolding perform commit reset_state add_tenant update_tenant mutate_tenant add_domain
      remove_domain add_resource toggle_resource_status remove_resource add_definition
      toggle_definition_status add_field remove_field add_api_client toggle_api_client
  perform-IsSaved reset s = refl
  perform-IsSaved a s = refl

  -- Where the storage takes the write, and JSON reads the state that an action leaves back from its
  -- text: a page that is loaded again starts with that state.
  pub load-perform :
      (a : Action) (s : Store)
      → IsReadBack (perform p true a s).state
      → load p true (perform p true a s).item ≡ some (perform p true a s).state
  unfolding load load_item load_parsed
  load-perform a s (back, written) = rw (perform-IsSaved a s, written, back) refl
