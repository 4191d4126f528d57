-- ===== src/Panel/Navigation.antt =====
-- visibleNavGroups of web/src/lib/admin-navigation.ts. Of an item the permission, the target and
-- the label are kept; icons and the exact flag are display.
use tenancit.Base.{
  ◌≡◌, inl, inr, sym, ap, ◌∙◌, refl, Bool, false, List, [], ◌∷◌, ◌++◌, map, filter, length, ltb,
  arith, Text, codes, text_eq, any, Bool-cases,
}

pub record NavItem : Type 0 where
  pub label_key : Text
  pub permission : Text
  pub to : Text

pub record NavGroup : Type 0 where
  pub label_key : Text
  pub items : List NavItem

abbrev nav_item : (label_key permission to : Text) → NavItem
nav_item label_key permission to = record {
  label_key = label_key;
  permission = permission;
  to = to;
}

unfoldable pub nav_groups : List NavGroup
nav_groups =
    record {
      label_key = codes "nav.management";
      items =
          nav_item (codes "nav.overview") (codes "admin.read") (codes "/")
          ∷ nav_item (codes "nav.tenants") (codes "admin.read") (codes "/tenants")
          ∷ nav_item (codes "nav.definitions") (codes "admin.read") (codes "/resource-definitions")
          ∷ nav_item (codes "nav.apiClients") (codes "admin.read") (codes "/api-clients")
          ∷ nav_item (codes "nav.usage") (codes "admin.read") (codes "/usage")
          ∷ [];
    }
    ∷ record {
      label_key = codes "nav.operations";
      items =
          nav_item (codes "nav.health") (codes "admin.read") (codes "/operations/health")
          ∷ nav_item (codes "nav.integrations") (codes "integration.manage")
              (codes "/integrations/webhooks")
          ∷ nav_item (codes "nav.audit") (codes "audit.read") (codes "/audit-events")
          ∷ [];
    }
    ∷ record {
      label_key = codes "nav.system";
      items =
          nav_item (codes "nav.sessions") (codes "session.manage") (codes "/security/sessions")
          ∷ nav_item (codes "nav.settings") (codes "admin.read") (codes "/operations/settings")
          ∷ [];
    }
    ∷ []

abbrev pub may_see : List Text → NavItem → Bool
may_see permissions item = any (λ p. text_eq p item.permission) permissions

abbrev pub restrict : List Text → NavGroup → NavGroup
restrict permissions group = record group { items = filter (may_see permissions) group.items }

unfoldable pub visible_nav_groups : List Text → List NavGroup
visible_nav_groups permissions =
    filter (λ group. ltb 0 (length group.items)) (map (restrict permissions) nav_groups)

-- The items of groups, in their order.
unfoldable pub items_of : List NavGroup → List NavItem
items_of [] = []
items_of (g ∷ gs) = g.items ++ items_of gs

-- The groups that are kept of some groups.
unfoldable pub kept_groups : List Text → List NavGroup → List NavGroup
kept_groups permissions groups =
    filter (λ group. ltb 0 (length group.items)) (map (restrict permissions) groups)

filter-append {ℓ} :
    {A : Type ℓ} (p : A → Bool) (xs ys : List A) → filter p (xs ++ ys) ≡ filter p xs ++ filter p ys
filter-append p [] ys = refl
filter-append p (x ∷ xs) ys = elim (Bool-cases (p x)) [
  | inl kept ↦ rw kept (ap (λ l. x ∷ l) (filter-append p xs ys))
  | inr dropped ↦ rw dropped (filter-append p xs ys)
]

no_items {ℓ} : {A : Type ℓ} (xs : List A) → ltb 0 (length xs) ≡ false → xs ≡ []
no_items [] h = refl
no_items (x ∷ xs) h = ground arith

pub items_of-kept_groups :
    (permissions : List Text) (groups : List NavGroup)
    → items_of (kept_groups permissions groups) ≡ filter (may_see permissions) (items_of groups)
unfolding items_of kept_groups
items_of-kept_groups permissions [] = refl
items_of-kept_groups permissions (g ∷ gs) =
    let seen = may_see permissions in
    let shown = filter seen g.items in
    let more = items_of-kept_groups permissions gs in
    let cut = filter-append seen g.items (items_of gs) in
    elim (Bool-cases (ltb 0 (length shown))) [
      | inl some_shown ↦ rw some_shown (ap (λ l. shown ++ l) more ∙ sym cut)
      | inr none_shown ↦ rw none_shown (
          more
          ∙ ap (λ l. l ++ filter seen (items_of gs)) (sym (no_items shown none_shown))
          ∙ sym cut)
    ]
