-- ===== src/Panel/Permitted.antt =====
-- What the navigation shows, against the permissions that the server demands.
use mathlib.Core.Logic.{⊎_elim}
use tenancit.Base.{
  ◌≡◌, ◌↔◌, ◌⊎◌, inl, inr, refl, sym, ap, subst, Bool, true, List, [], ◌∷◌, map, filter, filter-All,
  length, ltb, All, All-map, Text, some, codes, text_eq, text_eq_iff, any, Bool-cases,
  if◌then◌else◌,
}
use tenancit.Api.Routes.{Route, admin_routes, find_route}
use tenancit.Panel.Navigation.{
  NavItem, nav_groups, may_see, restrict, visible_nav_groups, items_of, kept_groups,
  items_of-kept_groups,
}

-- The handler that gives a page of the navigation its rows.
abbrev pub page_handlers : List (Text × Text)
page_handlers =
    (codes "/", codes "overview")
    ∷ (codes "/tenants", codes "listTenants")
    ∷ (codes "/resource-definitions", codes "listDefinitions")
    ∷ (codes "/api-clients", codes "listAPIClients")
    ∷ (codes "/usage", codes "listAPIClientUsageOverview")
    ∷ (codes "/operations/health", codes "operationalHealth")
    ∷ (codes "/integrations/webhooks", codes "listWebhookTargets")
    ∷ (codes "/audit-events", codes "listAuditEvents")
    ∷ (codes "/security/sessions", codes "listAdminSessions")
    ∷ (codes "/operations/settings", codes "getSettings")
    ∷ []

unfoldable pub handler_at : Text → List (Text × Text) → Text
handler_at to [] = []
handler_at to ((path, handler) ∷ rest) =
    let found = handler_at to rest in if text_eq path to then handler else found

abbrev pub Holds : Text → List Text → Type 0
Holds t [] = ⊥
Holds t (p ∷ ps) = (p ≡ t) ⊎ Holds t ps

-- The route of a page's handler demands a permission that is held.
abbrev pub IsPermitted : List Text → Text → Type 0
IsPermitted permissions to =
    (r : Route) × (find_route (handler_at to page_handlers) admin_routes ≡ some r)
    × Holds r.permission permissions

-- The elements with a property, in their order, and no other.
abbrev pub IsSelection : {A : Type 0} → (A → Type 0) → List A → List A → Type 0
IsSelection P [] ys = ys ≡ []
IsSelection {A} P (x ∷ xs) ys =
    (P x × ((zs : List A) × (ys ≡ x ∷ zs) × IsSelection P xs zs)) ⊎ ((¬ P x) × IsSelection P xs ys)

any-Holds : (t : Text) (ps : List Text) → (any (λ p. text_eq p t) ps ≡ true) ↔ Holds t ps
any-Holds t [] = (λ h. cc, λ h. absurd h)
any-Holds t (p ∷ ps) =
    let (to, from) = text_eq_iff p t in
    elim (Bool-cases (text_eq p t)) [
      | inl hit ↦ rw hit (λ _. inl (to hit), λ _. refl)
      | inr miss ↦
          let (more, back) = any-Holds t ps in
          rw miss (λ h. inr (more h), ⊎_elim (λ e. cc (from e, miss)) back)
    ]

filter-IsSelection :
    {A : Type 0} (P : A → Type 0) (p : A → Bool) (xs : List A)
    → All (λ x. (p x ≡ true) ↔ P x) xs
    → IsSelection P xs (filter p xs)
filter-IsSelection P p [] h = refl
filter-IsSelection P p (x ∷ xs) ((to, from), h) = elim (Bool-cases (p x)) [
  | inl kept ↦ rw kept (inl (to kept, (filter p xs, refl, filter-IsSelection P p xs h)))
  | inr dropped ↦ rw dropped (inr (λ k. cc (from k, dropped), filter-IsSelection P p xs h))
]

-- An item of the navigation asks for the permission that the server demands.
abbrev IsAligned : NavItem → Type 0
IsAligned item =
    (r : Route) × (find_route (handler_at item.to page_handlers) admin_routes ≡ some r)
    × (r.permission ≡ item.permission)

nav_groups-IsAligned : All IsAligned (items_of nav_groups)
unfolding items_of nav_groups handler_at find_route admin_routes text_eq
nav_groups-IsAligned = (
  (_, refl, refl),
  (
    (_, refl, refl),
    (
      (_, refl, refl),
      (
        (_, refl, refl),
        (
          (_, refl, refl),
          (
            (_, refl, refl),
            ((_, refl, refl), ((_, refl, refl), ((_, refl, refl), ((_, refl, refl), tt)))),
          ),
        ),
      ),
    ),
  ),
)

may_see-IsPermitted :
    (permissions : List Text) (item : NavItem)
    → IsAligned item
    → (may_see permissions item ≡ true) ↔ IsPermitted permissions item.to
may_see-IsPermitted permissions item (r, found, same) =
    let (to, from) = any-Holds item.permission permissions in
    (
      λ h. (r, found, subst (λ x. Holds x permissions) (sym same) (to h)),
      λ (r', found', held).
          let one : r' ≡ r = cc in
          let moved : Holds r.permission permissions =
            subst (λ x. Holds x.permission permissions) one held in
          from (subst (λ x. Holds x permissions) same moved),
    )

map-IsSelection :
    {A B : Type 0} (f : A → B) (P : B → Type 0) (xs ys : List A)
    → IsSelection (λ x. P (f x)) xs ys
    → IsSelection P (map f xs) (map f ys)
map-IsSelection f P [] ys e = ap (map f) e
map-IsSelection f P (x ∷ xs) ys k =
    ⊎_elim (λ (h, (zs, e, more)). inl (h, (map f zs, ap (map f) e, map-IsSelection f P xs zs more)))
      (λ (n, more). inr (n, map-IsSelection f P xs ys more)) k

-- The paths of the pages.
abbrev pub page_paths : List Text
page_paths = map (λ h. h.0) page_handlers

abbrev pub target_of : NavItem → Text
target_of item = item.to

nav_groups-page_paths : map target_of (items_of nav_groups) ≡ page_paths
unfolding items_of nav_groups
nav_groups-page_paths = refl

items_of-IsPermitted :
    (permissions : List Text)
    → IsSelection
        (λ item. IsPermitted permissions item.to)
        (items_of nav_groups)
        (items_of (visible_nav_groups permissions))
unfolding visible_nav_groups kept_groups
items_of-IsPermitted permissions =
    subst (IsSelection (λ item. IsPermitted permissions item.to) (items_of nav_groups))
      (sym (items_of-kept_groups permissions nav_groups))
      (filter-IsSelection _ (may_see permissions) (items_of nav_groups)
        (All-map _ _ (items_of nav_groups) (may_see-IsPermitted permissions) nav_groups-IsAligned))

-- With any set of permissions, the navigation leads exactly to the pages that read from a handler
-- which the server opens to that set, each once and in the order of the pages. Its items are those
-- of its table for these pages, and it shows no group without items.
pub visible_nav_groups-IsPermitted :
    (permissions : List Text)
    → IsSelection
        (IsPermitted permissions)
        page_paths
        (map target_of (items_of (visible_nav_groups permissions)))
      × IsSelection
          (λ item. IsPermitted permissions item.to)
          (items_of nav_groups)
          (items_of (visible_nav_groups permissions))
      × All (λ group. ltb 0 (length group.items) ≡ true) (visible_nav_groups permissions)
unfolding visible_nav_groups
visible_nav_groups-IsPermitted permissions =
    let shown = items_of (visible_nav_groups permissions) in
    let chosen = items_of-IsPermitted permissions in
    (
      subst (λ pages. IsSelection (IsPermitted permissions) pages (map target_of shown))
          nav_groups-page_paths
          (map-IsSelection target_of (IsPermitted permissions) (items_of nav_groups) shown chosen),
      chosen,
      filter-All (λ group. ltb 0 (length group.items)) (map (restrict permissions) nav_groups),
    )
