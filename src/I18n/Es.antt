-- ===== src/I18n/Es.antt =====
-- web/src/lib/i18n.tsx: esES.
use tenancit.Base.{List, ◌++◌, Text}
mod Access
mod Shared
mod Catalog
mod Activity
mod Account
mod Tenants
unfoldable pub use Access.{es_access}
unfoldable pub use Shared.{es_shared}
unfoldable pub use Catalog.{es_catalog}
unfoldable pub use Activity.{es_activity}
unfoldable pub use Account.{es_account}
unfoldable pub use Tenants.{es_tenants}

unfoldable pub es_es : List (Text × Text)
es_es = es_access ++ (es_shared ++ (es_catalog ++ (es_activity ++ (es_account ++ es_tenants))))
