-- ===== src/I18n/Pt.antt =====
-- web/src/lib/i18n.tsx: ptBR.
use tenancit.Base.{List, ◌++◌, Text}
mod Access
mod Shared
mod Catalog
mod Activity
mod Account
mod Tenants
unfoldable pub use Access.{pt_access}
unfoldable pub use Shared.{pt_shared}
unfoldable pub use Catalog.{pt_catalog}
unfoldable pub use Activity.{pt_activity}
unfoldable pub use Account.{pt_account}
unfoldable pub use Tenants.{pt_tenants}

unfoldable pub pt_br : List (Text × Text)
pt_br = pt_access ++ (pt_shared ++ (pt_catalog ++ (pt_activity ++ (pt_account ++ pt_tenants))))
