-- ===== src/I18n/En.antt =====
-- web/src/lib/i18n.tsx: enUS.
use tenancit.Base.{List, ◌++◌, Text}
mod Access
mod Shared
mod Catalog
mod Activity
mod Account
mod Tenants
unfoldable pub use Access.{en_access}
unfoldable pub use Shared.{en_shared}
unfoldable pub use Catalog.{en_catalog}
unfoldable pub use Activity.{en_activity}
unfoldable pub use Account.{en_account}
unfoldable pub use Tenants.{en_tenants}

unfoldable pub en_us : List (Text × Text)
en_us = en_access ++ (en_shared ++ (en_catalog ++ (en_activity ++ (en_account ++ en_tenants))))
