-- ===== src/Proto/Visits.antt =====
-- Visits of the prototype's pages: the forms of the tenant page, and the actions that the pages do
-- without a form.
use tenancit.Base.{Bool, true, false, List, [], ◌∷◌, Option, Text}
use tenancit.Proto.Store.{Store, Platform}
use tenancit.Proto.Action.{perform, Action, create_resource, switch_resource}
use tenancit.Proto.Page.{save_edit, save_resource, save_domain}

pub data Visit : Type 0 where
  edit_form : (tenant_id name slug status : Text) → Visit
  resource_form : (tenant_id pick : Text) → List (Text × Option Text) → Visit
  domain_form : (tenant_id hostname : Text) → Visit
  act : Action → Visit

-- The actions that neither switch a resource nor add one past its form.
abbrev pub is_plain : Visit → Bool
is_plain (act (switch_resource i r)) = false
is_plain (act (create_resource i d v)) = false
is_plain v = true

module _ (p : Platform) where
  unfoldable pub page_step : Bool → Visit → Store → Store
  page_step w (edit_form i n g o) s = save_edit p w i n g o s
  page_step w (resource_form i k v) s = save_resource p w i k v s
  page_step w (domain_form i h) s = save_domain p w i h s
  page_step w (act a) s = perform p w a s

  unfoldable pub page_run : List (Bool × Visit) → Store → Store
  page_run [] s = s
  page_run ((w, v) ∷ rest) s = page_run rest (page_step w v s)
