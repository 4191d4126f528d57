-- ===== src/I18n/En/Catalog.antt =====
-- web/src/lib/i18n.tsx: a part of enUS.
use tenancit.Base.{List, [], ◌∷◌, Text}
use tenancit.I18n.Entry.{entry}

unfoldable pub en_catalog : List (Text × Text)
en_catalog =
    entry "definitions.create" "Create definition"
    ∷ entry "definitions.description" "Catalog of resource types and their fields."
    ∷ entry "definitions.empty" "No definitions yet."
    ∷ entry "definitions.emptyDescription" "No description."
    ∷ entry "definitions.footerCounts" "Fields: {fieldCount} · Secrets: {secretCount}"
    ∷ entry "definitions.new" "New definition"
    ∷ entry "definitions.newDialog.description" "Define a resource type. Fields are added next."
    ∷ entry "definitions.newDialog.title" "New definition"
    ∷ entry "definitions.title" "Resource Definitions"
    ∷ entry "errors.conflict" "A record with this value already exists. Check for duplicates."
    ∷ entry "errors.definitionInUse"
        "This definition still has linked resources. Remove or migrate those resources before deleting it."
    ∷ entry "errors.forbidden" "You do not have permission for this action."
    ∷ entry "errors.generic" "Something went wrong. Please try again."
    ∷ entry "errors.invalidData" "Invalid data. Review the fields."
    ∷ entry "errors.notFound" "Record not found."
    ∷ entry "errors.precondition" "The data changed in another session. Review it and try again."
    ∷ entry "errors.server" "Server error. Please try again shortly."
    ∷ entry "errors.timeout" "The request took too long. Check the connection and try again."
    ∷ entry "nav.apiClients" "API Keys"
    ∷ entry "nav.usage" "Monthly usage"
    ∷ entry "nav.audit" "Audit"
    ∷ entry "nav.sessions" "Active sessions"
    ∷ entry "nav.settings" "Settings"
    ∷ entry "nav.integrations" "Webhooks"
    ∷ entry "nav.health" "Health"
    ∷ entry "operationsHealth.component" "Component"
    ∷ entry "operationsHealth.deadLetters" "Dead letters"
    ∷ entry "operationsHealth.deadLettersHint" "deliveries requiring intervention"
    ∷ entry "operationsHealth.dependencies" "Dependencies"
    ∷ entry "operationsHealth.dependenciesHint" "monitored external services"
    ∷ entry "operationsHealth.description"
        "Synchronous readiness, queues, and recent evidence from operational jobs."
    ∷ entry "operationsHealth.freshUntil" "Fresh until"
    ∷ entry "operationsHealth.inFlight" "Deliveries in flight"
    ∷ entry "operationsHealth.inFlightHint" "pending or waiting for another attempt"
    ∷ entry "operationsHealth.kind" "Kind"
    ∷ entry "operationsHealth.kind.backup" "Backup"
    ∷ entry "operationsHealth.kind.migration" "Migration"
    ∷ entry "operationsHealth.kind.restore" "Restore"
    ∷ entry "operationsHealth.kind.rewrap" "Rewrap"
    ∷ entry "operationsHealth.latency" "Latency"
    ∷ entry "operationsHealth.noDependencies" "No dependencies configured."
    ∷ entry "operationsHealth.noReports" "No operational reports received."
    ∷ entry "operationsHealth.occurredAt" "Occurred at"
    ∷ entry "operationsHealth.overall" "Overall status"
    ∷ entry "operationsHealth.overallHint" "combined readiness of dependencies"
    ∷ entry "operationsHealth.reports" "Operational reports"
    ∷ entry "operationsHealth.source" "Source"
    ∷ entry "operationsHealth.status.degraded" "degraded"
    ∷ entry "operationsHealth.status.failed" "failed"
    ∷ entry "operationsHealth.status.healthy" "healthy"
    ∷ entry "operationsHealth.status.stale" "stale"
    ∷ entry "operationsHealth.status.unavailable" "unavailable"
    ∷ entry "operationsHealth.title" "Operational health"
    ∷ entry "integrations.attempts" "Attempts"
    ∷ entry "integrations.activeTargets" "Active targets"
    ∷ entry "integrations.created" "Target created."
    ∷ entry "integrations.deliveries" "Deliveries"
    ∷ entry "integrations.delivered" "Delivered"
    ∷ entry "integrations.deadLetters" "Dead letters"
    ∷ entry "integrations.description" "Signed webhooks, retries, and dead letters."
    ∷ entry "integrations.disable" "Disable"
    ∷ entry "integrations.done" "Done"
    ∷ entry "integrations.emptyDeliveries" "No deliveries found."
    ∷ entry "integrations.emptyTargets" "No targets configured."
    ∷ entry "integrations.enable" "Enable"
    ∷ entry "integrations.endpoint" "Endpoint"
    ∷ entry "integrations.event" "Event"
    ∷ entry "integrations.format" "Format"
    ∷ entry "integrations.formatGeneric" "Generic"
    ∷ entry "integrations.inFlight" "Pending and retries"
    ∷ entry "integrations.name" "Name"
    ∷ entry "integrations.new" "New webhook"
    ∷ entry "integrations.newDescription"
        "Register an HTTPS receiver. The full URL and secret remain encrypted."
    ∷ entry "integrations.openCircuits" "{count} open circuits"
    ∷ entry "integrations.replay" "Replay delivery"
    ∷ entry "integrations.replayed" "Delivery queued again."
    ∷ entry "integrations.searchDeliveries" "Search deliveries…"
    ∷ entry "integrations.searchTargets" "Search targets…"
    ∷ entry "integrations.secretDescription" "Copy it now. The secret will not be shown again."
    ∷ entry "integrations.secretTitle" "Signing secret generated"
    ∷ entry "integrations.signingSecret" "Signing secret"
    ∷ entry "integrations.target" "Target"
    ∷ entry "integrations.targets" "Targets"
    ∷ entry "integrations.title" "Webhooks and integrations"
    ∷ entry "integrations.url" "Receiver URL"
    ∷ []
