-- ===== src/I18n/En/Access.antt =====
-- web/src/lib/i18n.tsx: a part of enUS.
use tenancit.Base.{List, [], ◌∷◌, Text}
use tenancit.I18n.Entry.{entry}

unfoldable pub en_access : List (Text × Text)
en_access =
    entry "apiClients.actions" "Actions"
    ∷ entry "apiClients.clearSecretAccess.description"
        "These keys call /v1/resolve, which returns decrypted secrets over TLS. The token is shown only once, when it is created."
    ∷ entry "apiClients.clearSecretAccess.title" "Clear secret access"
    ∷ entry "apiClients.copied" "Copied"
    ∷ entry "apiClients.copy" "Copy"
    ∷ entry "apiClients.copyFailed" "Could not copy. Select and copy it manually."
    ∷ entry "apiClients.createdAt" "Created at"
    ∷ entry "apiClients.description" "Service keys for server-to-server usage."
    ∷ entry "apiClients.done" "Done"
    ∷ entry "apiClients.emptyActive" "No active keys."
    ∷ entry "apiClients.generateToken" "Generate token"
    ∷ entry "apiClients.help" "Help"
    ∷ entry "apiClients.filters" "Filters"
    ∷ entry "apiClients.helpTitle" "How to consume API keys"
    ∷ entry "apiClients.loading" "Loading API keys..."
    ∷ entry "apiClients.name" "Name"
    ∷ entry "apiClients.scopes" "Permissions"
    ∷ entry "apiClients.scopeIdentify" "Identify tenant"
    ∷ entry "apiClients.scopeIdentifyDescription"
        "Allows tenant identification without returning resources or secrets."
    ∷ entry "apiClients.scopeResolve" "Resolve resources"
    ∷ entry "apiClients.scopeResolveDescription"
        "Allows configuration retrieval, including decrypted secret fields."
    ∷ entry "apiClients.scopeEvents" "Read events"
    ∷ entry "apiClients.scopeEventsDescription"
        "Allows consuming the change feed without accessing configuration or secrets."
    ∷ entry "apiClients.scopeTenantList" "List tenants"
    ∷ entry "apiClients.scopeTenantListDescription"
        "Allows enumerating tenant identities (slug, name, status) — never resources or secrets."
    ∷ entry "apiClients.scopeResourceWrite" "Write values"
    ∷ entry "apiClients.scopeResourceWriteDescription"
        "Allows updating values of NON-secret fields on existing resources."
    ∷ entry "apiClients.rpmLimit" "Requests per minute"
    ∷ entry "apiClients.expiration" "Expiration"
    ∷ entry "apiClients.expirationDays" "{days} days"
    ∷ entry "apiClients.lastUsed" "Last used"
    ∷ entry "apiClients.filterStatus" "Filter by status"
    ∷ entry "apiClients.allStatuses" "All statuses"
    ∷ entry "apiClients.filterScope" "Filter by permission"
    ∷ entry "apiClients.allScopes" "All permissions"
    ∷ entry "apiClients.expiringSoon" "Expires within 30 days"
    ∷ entry "apiClients.inactive" "Inactive for 30 days"
    ∷ entry "apiClients.rotate" "Rotate key"
    ∷ entry "apiClients.rotated" "Key rotated. Copy the new token now."
    ∷ entry "apiClients.updated" "Key policy updated."
    ∷ entry "apiClients.deleted" "Key removed."
    ∷ entry "apiClients.editTitle" "Edit API key"
    ∷ entry "apiClients.deleteTitle" "Remove API key"
    ∷ entry "apiClients.deleteDescription"
        "Permanently remove revoked key {name}? Usage and audit history will be preserved."
    ∷ entry "apiClients.new" "New API key"
    ∷ entry "apiClients.newDialog.description" "The token will be shown only once after creation."
    ∷ entry "apiClients.newDialog.title" "New API key"
    ∷ entry "apiClients.reactivate" "Reactivate"
    ∷ entry "apiClients.revoke" "Revoke"
    ∷ entry "apiClients.search" "Search by name, date, or status..."
    ∷ entry "apiClients.resolveSnippet.copy" "Copy snippet"
    ∷ entry "apiClients.resolveSnippet.copied" "Snippet copied"
    ∷ entry "apiClients.resolveSnippet.description"
        "Use an active key to identify the tenant at the edge without touching secrets, then resolve configuration in the app by tenantId."
    ∷ entry "apiClients.resolveSnippet.edgeDescription"
        "The edge receives only the tenant slug; no resources or secrets are returned."
    ∷ entry "apiClients.resolveSnippet.edgeTitle" "1. Identify at the edge (no secrets)"
    ∷ entry "apiClients.resolveSnippet.fullDescription"
        "Returns all active resources for the tenant."
    ∷ entry "apiClients.resolveSnippet.fullTitle" "Full tenant"
    ∷ entry "apiClients.resolveSnippet.resourceDescription"
        "Returns only one resource definition for the tenant."
    ∷ entry "apiClients.resolveSnippet.resourceTitle" "Specific resource"
    ∷ entry "apiClients.resolveSnippet.tenantIdDescription"
        "The app resolves by the injected slug and revalidates with ETag without storing the secret body in the HTTP cache."
    ∷ entry "apiClients.resolveSnippet.tenantIdTitle" "2. Resolve in the app by tenantId"
    ∷ entry "apiClients.resolveSnippet.hostnameDescription"
        "A simple alternative that resolves all resources directly by hostname and returns secrets."
    ∷ entry "apiClients.resolveSnippet.hostnameTitle" "Alternative: resolve by hostname"
    ∷ entry "apiClients.resolveSnippet.title" "Consumer example"
    ∷ entry "apiClients.statusReactivated" "Key reactivated."
    ∷ entry "apiClients.statusRevoked" "Key revoked."
    ∷ entry "apiClients.title" "API Keys"
    ∷ entry "apiClients.token" "Token"
    ∷ entry "apiClients.tokenGenerated.description" "Copy it now; it cannot be viewed again."
    ∷ entry "apiClients.tokenGenerated.title" "Generated token"
    ∷ entry "app.subtitle" "Admin Console"
    ∷ entry "app.title" "Tenancit"
    ∷ entry "auth.description" "Enter the Tenancit admin token."
    ∷ entry "auth.enter" "Enter"
    ∷ entry "auth.hideToken" "Hide token"
    ∷ entry "auth.invalidToken" "Invalid or expired token. Enter a valid admin token."
    ∷ entry "auth.loading" "Checking administrative access…"
    ∷ entry "auth.oidcDescription" "Sign in with your corporate identity."
    ∷ entry "auth.oidcEnter" "Sign in with SSO"
    ∷ entry "auth.oidcSession" "Corporate session"
    ∷ entry "auth.requiredAccess" "Enter the admin token to access the console."
    ∷ entry "auth.requiredContinue" "Enter the admin token to continue."
    ∷ entry "auth.retry" "Try again"
    ∷ entry "auth.sessionExpired" "Your session has expired. Sign in again."
    ∷ entry "auth.showToken" "Show token"
    ∷ entry "auth.sharedCredential" "Administrative credential"
    ∷ entry "auth.sharedToken" "Shared token"
    ∷ entry "auth.title" "Administrative access"
    ∷ entry "auth.token" "Token"
    ∷ entry "auth.unavailable" "The authentication mode could not be verified."
    ∷ []
