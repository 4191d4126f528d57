-- ===== src/Proto/Action.antt =====
-- What the pages of the prototype do with the store. Each action says whether the storage took the
-- write; the arguments are those that the pages give.
use tenancit.Base.{Bool, List, [], ◌∷◌, Option, none, some, Text}
use tenancit.Proto.Types.{Definition}
use tenancit.Proto.Store.{Store, Platform, reset_state}
use tenancit.Proto.Tenants.{
  Patch, add_tenant, update_tenant, add_domain, remove_domain, add_resource, toggle_resource_status,
  remove_resource,
}
use tenancit.Proto.Catalog.{
  FieldInput, add_definition, toggle_definition_status, add_field, remove_field, add_api_client,
  toggle_api_client,
}

pub data Action : Type 0 where
  reset : Action
  create_tenant : (name slug hostname : Text) → Action
  edit_tenant : (id name slug status : Text) → Action
  create_domain delete_domain : (tenant_id : Text) → Text → Action
  create_resource : (tenant_id : Text) → Definition → List (Text × Option Text) → Action
  switch_resource delete_resource : (tenant_id resource_id : Text) → Action
  create_definition : (key name description icon : Text) → Action
  switch_definition : (id : Text) → Action
  create_field : (def_id key label data_type : Text) (required is_secret : Bool) → Action
  delete_field : (def_id field_id : Text) → Action
  create_client : (name random1 random2 today : Text) → Action
  switch_client : (id : Text) → Action

-- `{ name, slug, status }` of the tenant page.
abbrev pub edit : (name slug status : Text) → Patch
edit name slug status = record {
  id = none;
  slug = some slug;
  name = some name;
  status = some status;
  domains = none;
  resources = none;
}

-- The form of a field, which has no identifier.
abbrev pub field_form : (key label data_type : Text) (required is_secret : Bool) → FieldInput
field_form key label data_type required is_secret = record {
  id = none;
  key = key;
  label = label;
  data_type = data_type;
  required = required;
  is_secret = is_secret;
}

module _ (p : Platform) where
  unfoldable pub perform : (writable : Bool) → Action → Store → Store
  perform w reset s = reset_state p w s
  perform w (create_tenant name slug hostname) s = (add_tenant p w name slug hostname s).0
  perform w (edit_tenant id name slug status) s = update_tenant p w id (edit name slug status) s
  perform w (create_domain tenant_id hostname) s = add_domain p w tenant_id hostname s
  perform w (delete_domain tenant_id domain_id) s = remove_domain p w tenant_id domain_id s
  perform w (create_resource tenant_id d values) s = add_resource p w tenant_id d values s
  perform w (switch_resource tenant_id id) s = toggle_resource_status p w tenant_id id s
  perform w (delete_resource tenant_id id) s = remove_resource p w tenant_id id s
  perform w (create_definition key name description icon) s =
      (add_definition p w key name description icon s).0
  perform w (switch_definition id) s = toggle_definition_status p w id s
  perform w (create_field id key label data_type required is_secret) s =
      add_field p w id (field_form key label data_type required is_secret) s
  perform w (delete_field id field_id) s = remove_field p w id field_id s
  perform w (create_client name random1 random2 today) s =
      (add_api_client p w name random1 random2 today s).0
  perform w (switch_client id) s = toggle_api_client p w id s

  unfoldable pub perform_all : List (Bool × Action) → Store → Store
  perform_all [] s = s
  perform_all ((w, a) ∷ rest) s = perform_all rest (perform w a s)
