-- ===== src/Panel/Tests.antt =====
-- Inputs of web/src/lib/tenant-overview.test.ts and idempotency.test.ts, and instances of the
-- theorems.
use tenancit.Panel.Avatar.{avatar_hue, hash_from, polynomial, avatar_hue-polynomial}
use tenancit.Base.{
  map, refl, ◌<◌, ◌%◌, some, ℕ, ◌≡◌, ◌↔◌, true, [], ◌∷◌, length, ltb, All, Text, codes,
}
use tenancit.Panel.Summary.{TenantResource, Input, attention, summarize_tenant_overview}
use tenancit.Panel.Readiness.{Means, summarize_tenant_overview-Means}
use tenancit.Panel.Attempt.{
  key_of, submit, submit_all, fresh_form, stable_idempotency_key-repeats_iff,
}
use tenancit.Panel.Permitted.{
  IsPermitted, IsSelection, page_paths, target_of, visible_nav_groups-IsPermitted,
}
use tenancit.Panel.Navigation.{visible_nav_groups, nav_groups, items_of}

abbrev database : TenantResource
database = record {
  status = codes "active";
  fields = record { required = true; value = codes "db.example" } ∷ [];
}

abbrev acme : Input
acme = record {
  domain_count = 1;
  resources = database ∷ record database { status = codes "inactive" } ∷ [];
  tenant_status = codes "active";
}

summarize_tenant_overview-Means_example :
    ((summarize_tenant_overview acme).readiness ≡ attention) ↔ Means attention acme
summarize_tenant_overview-Means_example = summarize_tenant_overview-Means acme attention

-- A source of keys that never repeats.
abbrev unary : ℕ → Text
unary n = n ∷ []

unary-injective : (m n : ℕ) → unary m ≡ unary n → m ≡ n
unary-injective m n e = cc

stable_idempotency_key-repeats_iff_example :
    (key_of unary
        (submit unary
          (submit_all unary (fresh_form unary) (codes "a" ∷ codes "b" ∷ []))
          (codes "a"))
        (codes "b")
      ≡ key_of unary (submit_all unary (fresh_form unary) (codes "a" ∷ codes "b" ∷ [])) (codes "a"))
    ↔ (codes "a" ≡ codes "b")
stable_idempotency_key-repeats_iff_example =
    stable_idempotency_key-repeats_iff unary unary-injective (codes "a" ∷ codes "b" ∷ [])
      (codes "a") (codes "b")

visible_nav_groups-IsPermitted_example :
    IsSelection
      (IsPermitted (codes "audit.read" ∷ []))
      page_paths
      (map target_of (items_of (visible_nav_groups (codes "audit.read" ∷ []))))
    × IsSelection
        (λ item. IsPermitted (codes "audit.read" ∷ []) item.to)
        (items_of nav_groups)
        (items_of (visible_nav_groups (codes "audit.read" ∷ [])))
    × All
        (λ group. ltb 0 (length group.items) ≡ true)
        (visible_nav_groups (codes "audit.read" ∷ []))
visible_nav_groups-IsPermitted_example = visible_nav_groups-IsPermitted (codes "audit.read" ∷ [])

hue : avatar_hue (some (codes "Acme")) ≡ 314
unfolding avatar_hue hash_from
hue = refl

avatar_hue-polynomial_example :
    (avatar_hue (some (codes "Acme")) ≡ (polynomial 0 (codes "Acme") % 4294967296) % 360)
    × (avatar_hue (some (codes "Acme")) < 360)
avatar_hue-polynomial_example = avatar_hue-polynomial (some (codes "Acme"))
