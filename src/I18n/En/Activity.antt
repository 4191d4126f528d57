-- ===== src/I18n/En/Activity.antt =====
-- web/src/lib/i18n.tsx: a part of enUS.
use tenancit.Base.{List, [], ◌∷◌, Text}
use tenancit.I18n.Entry.{entry}

unfoldable pub en_activity : List (Text × Text)
en_activity =
    entry "usage.title" "API key usage"
    ∷ entry "usage.description" "Operational volume aggregated by key, operation, and UTC day."
    ∷ entry "usage.month" "Month"
    ∷ entry "usage.prevMonth" "Previous month"
    ∷ entry "usage.nextMonth" "Next month"
    ∷ entry "usage.prevYear" "Previous year"
    ∷ entry "usage.nextYear" "Next year"
    ∷ entry "usage.today" "Today"
    ∷ entry "usage.client" "Key"
    ∷ entry "usage.allClients" "All keys"
    ∷ entry "usage.operation" "Operation"
    ∷ entry "usage.operationIdentify" "Identify"
    ∷ entry "usage.operationResolve" "Resolve"
    ∷ entry "usage.allOperations" "All operations"
    ∷ entry "usage.requests" "Requests"
    ∷ entry "usage.requestsHint" "in the selected period and filters"
    ∷ entry "usage.errors" "Errors"
    ∷ entry "usage.errorsHint" "HTTP 4xx and 5xx responses"
    ∷ entry "usage.limited" "Rate limited"
    ∷ entry "usage.limitedHint" "rejected by the request limit"
    ∷ entry "usage.daily" "Daily usage"
    ∷ entry "usage.empty" "No usage recorded in this period."
    ∷ entry "audit.title" "Administrative audit"
    ∷ entry "audit.description" "Append-only trail of administrative actions and secret reveals."
    ∷ entry "audit.action" "Action"
    ∷ entry "audit.target" "Target"
    ∷ entry "audit.result" "Result"
    ∷ entry "audit.allResults" "All results"
    ∷ entry "audit.actorNotice"
        "While sign-in uses the shared token, the trail identifies the administrative credential, not a person."
    ∷ entry "audit.when" "When"
    ∷ entry "audit.actor" "Actor"
    ∷ entry "audit.request" "Request ID"
    ∷ entry "audit.empty" "No events found."
    ∷ entry "audit.next" "Next page"
    ∷ entry "audit.previous" "Previous page"
    ∷ entry "audit.applyFilters" "Apply filters"
    ∷ entry "audit.export" "Export trail"
    ∷ entry "audit.download" "Download once"
    ∷ entry "audit.exportStatus" "Export: {status} · {rows} events"
    ∷ entry "audit.partitionHealth" "Partitions through"
    ∷ entry "audit.overviewTab" "Overview"
    ∷ entry "audit.eventsTab" "Events"
    ∷ entry "audit.partitionHealthHint" "partitioning prepared through this date"
    ∷ entry "audit.defaultRows" "Legacy events"
    ∷ entry "audit.defaultRowsHint" "events still in the default partition"
    ∷ entry "audit.legalHolds" "Active legal holds"
    ∷ entry "audit.legalHoldsHint" "retention holds preventing disposal"
    ∷ entry "audit.manageHolds" "Manage legal holds"
    ∷ entry "audit.legalHoldDescription"
        "Preserve investigation windows before retention removes partitions."
    ∷ entry "audit.holdFrom" "Start"
    ∷ entry "audit.holdTo" "End"
    ∷ entry "audit.holdReason" "Reason and reference"
    ∷ entry "audit.createHold" "Create legal hold"
    ∷ entry "audit.releaseHold" "Release"
    ∷ entry "audit.holdReleased" "Released"
    ∷ entry "audit.noHolds" "No legal holds recorded."
    ∷ entry "nav.definitions" "Resources"
    ∷ entry "nav.logout" "Log out"
    ∷ entry "nav.account" "Account"
    ∷ entry "nav.management" "Management"
    ∷ entry "nav.operations" "Operations"
    ∷ entry "nav.security" "Security"
    ∷ entry "nav.system" "System"
    ∷ []
