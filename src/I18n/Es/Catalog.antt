-- ===== src/I18n/Es/Catalog.antt =====
-- web/src/lib/i18n.tsx: a part of esES.
use tenancit.Base.{List, [], ◌∷◌, Text}
use tenancit.I18n.Entry.{entry}

unfoldable pub es_catalog : List (Text × Text)
es_catalog =
    entry "definitions.create" "Crear definición"
    ∷ entry "definitions.description" "Catálogo de tipos de recurso y sus campos."
    ∷ entry "definitions.empty" "Aún no hay definiciones."
    ∷ entry "definitions.emptyDescription" "Sin descripción."
    ∷ entry "definitions.footerCounts" "Campos: {fieldCount} · Secretos: {secretCount}"
    ∷ entry "definitions.new" "Nueva definición"
    ∷ entry "definitions.newDialog.description"
        "Define un tipo de recurso. Los campos se agregan después."
    ∷ entry "definitions.newDialog.title" "Nueva definición"
    ∷ entry "definitions.title" "Definiciones de recurso"
    ∷ entry "errors.conflict" "Ya existe un registro con ese valor. Verifica si no está duplicado."
    ∷ entry "errors.definitionInUse"
        "Esta definición todavía tiene recursos vinculados. Elimina o migra esos recursos antes de borrarla."
    ∷ entry "errors.forbidden" "No tienes permiso para esta acción."
    ∷ entry "errors.generic" "Algo salió mal. Inténtalo de nuevo."
    ∷ entry "errors.invalidData" "Datos inválidos. Revisa los campos."
    ∷ entry "errors.notFound" "Registro no encontrado."
    ∷ entry "errors.precondition"
        "Los datos cambiaron en otra sesión. Revísalos e inténtalo de nuevo."
    ∷ entry "errors.server" "Error del servidor. Inténtalo en unos instantes."
    ∷ entry "errors.timeout"
        "La solicitud tardó demasiado. Verifica la conexión e inténtalo nuevamente."
    ∷ entry "nav.apiClients" "Claves de API"
    ∷ entry "nav.usage" "Uso mensual"
    ∷ entry "nav.audit" "Auditoría"
    ∷ entry "nav.sessions" "Sesiones activas"
    ∷ entry "nav.settings" "Configuración"
    ∷ entry "nav.integrations" "Webhooks"
    ∷ entry "nav.health" "Salud"
    ∷ entry "operationsHealth.component" "Componente"
    ∷ entry "operationsHealth.deadLetters" "Dead letters"
    ∷ entry "operationsHealth.deadLettersHint" "entregas que requieren intervención"
    ∷ entry "operationsHealth.dependencies" "Dependencias"
    ∷ entry "operationsHealth.dependenciesHint" "servicios externos supervisados"
    ∷ entry "operationsHealth.description"
        "Readiness síncrona, colas y evidencia reciente de jobs operativos."
    ∷ entry "operationsHealth.freshUntil" "Válido hasta"
    ∷ entry "operationsHealth.inFlight" "Entregas en tránsito"
    ∷ entry "operationsHealth.inFlightHint" "pendientes o esperando otro intento"
    ∷ entry "operationsHealth.kind" "Tipo"
    ∷ entry "operationsHealth.kind.backup" "Backup"
    ∷ entry "operationsHealth.kind.migration" "Migración"
    ∷ entry "operationsHealth.kind.restore" "Restore"
    ∷ entry "operationsHealth.kind.rewrap" "Rewrap"
    ∷ entry "operationsHealth.latency" "Latencia"
    ∷ entry "operationsHealth.noDependencies" "No hay dependencias configuradas."
    ∷ entry "operationsHealth.noReports" "No se recibieron reports operativos."
    ∷ entry "operationsHealth.occurredAt" "Ejecutado en"
    ∷ entry "operationsHealth.overall" "Estado general"
    ∷ entry "operationsHealth.overallHint" "disponibilidad combinada de las dependencias"
    ∷ entry "operationsHealth.reports" "Reports operativos"
    ∷ entry "operationsHealth.source" "Origen"
    ∷ entry "operationsHealth.status.degraded" "degradado"
    ∷ entry "operationsHealth.status.failed" "falló"
    ∷ entry "operationsHealth.status.healthy" "saludable"
    ∷ entry "operationsHealth.status.stale" "desactualizado"
    ∷ entry "operationsHealth.status.unavailable" "no disponible"
    ∷ entry "operationsHealth.title" "Salud operativa"
    ∷ entry "integrations.attempts" "Intentos"
    ∷ entry "integrations.activeTargets" "Destinos activos"
    ∷ entry "integrations.created" "Destino creado."
    ∷ entry "integrations.deliveries" "Entregas"
    ∷ entry "integrations.delivered" "Entregadas"
    ∷ entry "integrations.deadLetters" "Dead letters"
    ∷ entry "integrations.description" "Webhooks firmados, reintentos y dead letters."
    ∷ entry "integrations.disable" "Desactivar"
    ∷ entry "integrations.done" "Listo"
    ∷ entry "integrations.emptyDeliveries" "No se encontraron entregas."
    ∷ entry "integrations.emptyTargets" "No hay destinos configurados."
    ∷ entry "integrations.enable" "Activar"
    ∷ entry "integrations.endpoint" "Endpoint"
    ∷ entry "integrations.event" "Evento"
    ∷ entry "integrations.format" "Formato"
    ∷ entry "integrations.formatGeneric" "Genérico"
    ∷ entry "integrations.inFlight" "Pendientes y reintentos"
    ∷ entry "integrations.name" "Nombre"
    ∷ entry "integrations.new" "Nuevo webhook"
    ∷ entry "integrations.newDescription"
        "Registra un receiver HTTPS. La URL completa y el secret permanecen cifrados."
    ∷ entry "integrations.openCircuits" "{count} circuitos abiertos"
    ∷ entry "integrations.replay" "Reprocesar entrega"
    ∷ entry "integrations.replayed" "Entrega encolada nuevamente."
    ∷ entry "integrations.searchDeliveries" "Buscar entregas…"
    ∷ entry "integrations.searchTargets" "Buscar destinos…"
    ∷ entry "integrations.secretDescription" "Cópialo ahora. El secret no se mostrará nuevamente."
    ∷ entry "integrations.secretTitle" "Signing secret generado"
    ∷ entry "integrations.signingSecret" "Signing secret"
    ∷ entry "integrations.target" "Destino"
    ∷ entry "integrations.targets" "Destinos"
    ∷ entry "integrations.title" "Webhooks e integraciones"
    ∷ entry "integrations.url" "URL del receiver"
    ∷ []
