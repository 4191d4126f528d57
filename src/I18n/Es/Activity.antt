-- ===== src/I18n/Es/Activity.antt =====
-- web/src/lib/i18n.tsx: a part of esES.
use tenancit.Base.{List, [], ◌∷◌, Text}
use tenancit.I18n.Entry.{entry}

unfoldable pub es_activity : List (Text × Text)
es_activity =
    entry "usage.title" "Uso de claves de API"
    ∷ entry "usage.description" "Volumen operativo agregado por clave, operación y día UTC."
    ∷ entry "usage.month" "Mes"
    ∷ entry "usage.prevMonth" "Mes anterior"
    ∷ entry "usage.nextMonth" "Mes siguiente"
    ∷ entry "usage.prevYear" "Año anterior"
    ∷ entry "usage.nextYear" "Año siguiente"
    ∷ entry "usage.today" "Hoy"
    ∷ entry "usage.client" "Clave"
    ∷ entry "usage.allClients" "Todas las claves"
    ∷ entry "usage.operation" "Operación"
    ∷ entry "usage.operationIdentify" "Identificación"
    ∷ entry "usage.operationResolve" "Resolución"
    ∷ entry "usage.allOperations" "Todas las operaciones"
    ∷ entry "usage.requests" "Solicitudes"
    ∷ entry "usage.requestsHint" "en el período y filtros seleccionados"
    ∷ entry "usage.errors" "Errores"
    ∷ entry "usage.errorsHint" "respuestas HTTP 4xx y 5xx"
    ∷ entry "usage.limited" "Limitadas"
    ∷ entry "usage.limitedHint" "rechazadas por el límite de solicitudes"
    ∷ entry "usage.daily" "Uso diario"
    ∷ entry "usage.empty" "No hay uso registrado en este período."
    ∷ entry "audit.title" "Auditoría administrativa"
    ∷ entry "audit.description"
        "Registro append-only de acciones administrativas y revelaciones de secretos."
    ∷ entry "audit.action" "Acción"
    ∷ entry "audit.target" "Objetivo"
    ∷ entry "audit.result" "Resultado"
    ∷ entry "audit.allResults" "Todos los resultados"
    ∷ entry "audit.actorNotice"
        "Mientras el acceso use el token compartido, el registro identifica la credencial administrativa, no a una persona."
    ∷ entry "audit.when" "Cuándo"
    ∷ entry "audit.actor" "Actor"
    ∷ entry "audit.request" "Request ID"
    ∷ entry "audit.empty" "No se encontraron eventos."
    ∷ entry "audit.next" "Página siguiente"
    ∷ entry "audit.previous" "Página anterior"
    ∷ entry "audit.applyFilters" "Aplicar filtros"
    ∷ entry "audit.export" "Exportar registro"
    ∷ entry "audit.download" "Descargar una vez"
    ∷ entry "audit.exportStatus" "Exportación: {status} · {rows} eventos"
    ∷ entry "audit.partitionHealth" "Particiones hasta"
    ∷ entry "audit.overviewTab" "Visión general"
    ∷ entry "audit.eventsTab" "Eventos"
    ∷ entry "audit.partitionHealthHint" "particionado preparado hasta esta fecha"
    ∷ entry "audit.defaultRows" "Eventos heredados"
    ∷ entry "audit.defaultRowsHint" "eventos aún en la partición predeterminada"
    ∷ entry "audit.legalHolds" "Legal holds activos"
    ∷ entry "audit.legalHoldsHint" "retenciones que impiden el descarte"
    ∷ entry "audit.manageHolds" "Gestionar legal holds"
    ∷ entry "audit.legalHoldDescription"
        "Conserva ventanas bajo investigación antes de que la retención elimine particiones."
    ∷ entry "audit.holdFrom" "Inicio"
    ∷ entry "audit.holdTo" "Fin"
    ∷ entry "audit.holdReason" "Motivo y referencia"
    ∷ entry "audit.createHold" "Crear legal hold"
    ∷ entry "audit.releaseHold" "Liberar"
    ∷ entry "audit.holdReleased" "Liberado"
    ∷ entry "audit.noHolds" "No hay legal holds registrados."
    ∷ entry "nav.definitions" "Recursos"
    ∷ entry "nav.logout" "Salir"
    ∷ entry "nav.account" "Cuenta"
    ∷ entry "nav.management" "Gestión"
    ∷ entry "nav.operations" "Operación"
    ∷ entry "nav.security" "Seguridad"
    ∷ entry "nav.system" "Sistema"
    ∷ []
