-- ===== src/I18n/En/Account.antt =====
-- web/src/lib/i18n.tsx: a part of enUS.
use tenancit.Base.{List, [], ◌∷◌, Text}
use tenancit.I18n.Entry.{entry}

unfoldable pub en_account : List (Text × Text)
en_account =
    entry "sessions.current" "Current"
    ∷ entry "sessions.description" "Revoke individual access without affecting the current session."
    ∷ entry "sessions.empty" "No sessions found."
    ∷ entry "sessions.expires" "Expires"
    ∷ entry "sessions.lastUsed" "Last used"
    ∷ entry "sessions.principal" "Principal"
    ∷ entry "sessions.revoke" "Revoke session"
    ∷ entry "sessions.revokeDescription"
        "Revoke the session for {name}? Access will end immediately."
    ∷ entry "sessions.revoked" "Session revoked."
    ∷ entry "sessions.revokeTitle" "Revoke session"
    ∷ entry "sessions.roles" "Roles"
    ∷ entry "sessions.search" "Search by person, subject, or issuer…"
    ∷ entry "sessions.status.active" "active"
    ∷ entry "sessions.status.expired" "expired"
    ∷ entry "sessions.status.idle_expired" "idle expired"
    ∷ entry "sessions.status.revoked" "revoked"
    ∷ entry "sessions.title" "Administrative sessions"
    ∷ entry "settings.description" "Versioned and audited non-secret runtime policies."
    ∷ entry "settings.field.api_client_default_rpm" "Default RPM for new keys"
    ∷ entry "settings.field.api_client_default_ttl_days" "Default lifetime for new keys (days)"
    ∷ entry "settings.field.audit_retention_days" "Audit retention (days)"
    ∷ entry "settings.field.default_locale" "Default language"
    ∷ entry "settings.field.session_absolute_hours" "Maximum session duration (hours)"
    ∷ entry "settings.field.session_idle_minutes" "Maximum inactivity (minutes)"
    ∷ entry "settings.field.usage_retention_months" "Usage retention (months)"
    ∷ entry "settings.field.webhook_delivery_retention_days" "Webhook delivery retention (days)"
    ∷ entry "settings.field.outbox_event_retention_days" "Change feed retention (days)"
    ∷ entry "settings.hint.api_client_default_rpm"
        "Suggested by the create form; existing keys are unchanged."
    ∷ entry "settings.hint.api_client_default_ttl_days"
        "Suggested for new keys; existing tokens are not extended."
    ∷ entry "settings.hint.audit_retention_days"
        "Policy used by the administrative audit retention job."
    ∷ entry "settings.hint.default_locale"
        "Initial preference when the browser has not selected a language."
    ∷ entry "settings.hint.session_absolute_hours"
        "Applied to new sessions and never exceeded by idle expiry."
    ∷ entry "settings.hint.session_idle_minutes"
        "Re-evaluated during use and capped by absolute duration."
    ∷ entry "settings.hint.usage_retention_months" "Applied by the UTC telemetry retention job."
    ∷ entry "settings.hint.webhook_delivery_retention_days"
        "Removes completed deliveries and dead letters after the window."
    ∷ entry "settings.hint.outbox_event_retention_days"
        "Removes events without pending deliveries after the window."
    ∷ entry "settings.owner" "Owner: {owner}"
    ∷ entry "settings.revision" "Revision {revision}"
    ∷ entry "settings.saved" "Settings saved."
    ∷ entry "settings.saving" "Saving…"
    ∷ entry "settings.section.apiClients" "API keys"
    ∷ entry "settings.section.apiClientsDescription" "Safe defaults for new service credentials."
    ∷ entry "settings.section.console" "Console"
    ∷ entry "settings.section.consoleDescription"
        "Initial preferences for the administrative experience."
    ∷ entry "settings.section.retention" "Retention"
    ∷ entry "settings.section.retentionDescription" "Explicit windows for telemetry and auditing."
    ∷ entry "settings.section.security" "Security"
    ∷ entry "settings.section.securityDescription" "Human session expiration and inactivity."
    ∷ entry "settings.title" "Operational settings"
    ∷ entry "nav.overview" "Overview"
    ∷ entry "nav.tenants" "Tenants"
    ∷ entry "overview.activeDefinitions" "Active definitions"
    ∷ entry "overview.activeTenants" "Active tenants"
    ∷ entry "overview.authRequired" "Administrative authentication is required."
    ∷ entry "overview.description" "Multi-tenant resource configuration by client."
    ∷ entry "overview.domainHint" "mapped hostnames"
    ∷ entry "overview.domains" "Domains"
    ∷ entry "overview.loadError" "Could not load the overview."
    ∷ entry "overview.loading" "Loading overview..."
    ∷ entry "overview.resourceCount" "{count} resources"
    ∷ entry "overview.resourceHint" "active instances"
    ∷ entry "overview.resources" "Provisioned resources"
    ∷ entry "overview.totalTenants" "{count} total"
    ∷ entry "overview.typeHint" "resource types"
    ∷ entry "overview.title" "Overview"
    ∷ entry "overview.operationalHealth" "Operational health"
    ∷ entry "overview.operationalHealthHint" "Postgres, Valkey, and operational evidence"
    ∷ entry "overview.monthRequests" "Requests this month"
    ∷ entry "overview.monthRequestsHint" "all keys, current UTC month"
    ∷ entry "overview.expiringKeys" "Expiring keys"
    ∷ entry "overview.expiringKeysHint" "active keys expiring in the next 30 days"
    ∷ entry "overview.deadLetters" "Dead letters"
    ∷ entry "overview.deadLettersHint" "deliveries requiring intervention"
    ∷ entry "preferences.darkMode" "Turn on dark mode"
    ∷ entry "preferences.language" "Language"
    ∷ entry "preferences.lightMode" "Turn on light mode"
    ∷ entry "preferences.theme" "Theme"
    ∷ entry "preferences.theme.dark" "Dark"
    ∷ entry "preferences.theme.light" "Light"
    ∷ entry "preferences.theme.system" "System"
    ∷ entry "status.active" "active"
    ∷ entry "status.inactive" "inactive"
    ∷ entry "status.revoked" "revoked"
    ∷ []
