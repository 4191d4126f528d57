-- ===== src/Queries/Tests.antt =====
-- Keys and calls of web/src/lib/query-invalidation.test.ts, and instances of the theorems.
use tenancit.Base.{◌≡◌, ◌≢◌, Text, ◌↔◌, refl, true, false, codes, none, some}
use tenancit.Queries.Keys.{AdminQuery, query_key, tenant, tenant_domains, overview}
use tenancit.Queries.Cache.{
  Matching, is_prefix, is_same, is_invalidated, is_removed, remove_tenant_queries,
  should_retry_query,
}
use tenancit.Queries.Decode.{query_key-injective}
use tenancit.Queries.Isolation.{resources, change_of, query_of, calls_of-spares}
use tenancit.Queries.Coverage.{calls_of, IsTenants, remove_tenant_queries-IsTenants}

abbrev by_prefix : Matching
by_prefix = record {
  covers = is_prefix;
  equals = is_same;
  covers-prefix = λ p k. refl;
  equals-same = λ p k. refl;
}

retries :
    (should_retry_query 0 (some 404) ≡ false)
    × (should_retry_query 1 (some 503) ≡ true)
    × (should_retry_query 2 none ≡ false)
unfolding should_retry_query
retries = (refl, refl, refl)

query_key-injective_example : tenant (codes "1") ≡ tenant (codes "1")
query_key-injective_example = query_key-injective (tenant (codes "1")) (tenant (codes "1")) refl

calls_of-spares_example :
    (is_invalidated by_prefix
        (calls_of (change_of resources (codes "1")))
        (query_key (query_of resources (codes "1")))
      ≡ true)
    × (is_invalidated by_prefix (calls_of (change_of resources (codes "1"))) (query_key overview)
        ≡ true)
    × ((other : Text) (q : AdminQuery)
        → other ≢ codes "1"
        → IsTenants other q
        → is_invalidated by_prefix (calls_of (change_of resources (codes "1"))) (query_key q)
          ≡ false)
calls_of-spares_example = calls_of-spares by_prefix resources (codes "1")

remove_tenant_queries-IsTenants_example :
    (is_removed by_prefix
        (remove_tenant_queries (codes "1"))
        (query_key (tenant_domains (codes "1")))
      ≡ true)
    ↔ IsTenants (codes "1") (tenant_domains (codes "1"))
remove_tenant_queries-IsTenants_example =
    remove_tenant_queries-IsTenants by_prefix (codes "1") (tenant_domains (codes "1"))
