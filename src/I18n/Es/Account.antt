-- ===== src/I18n/Es/Account.antt =====
-- web/src/lib/i18n.tsx: a part of esES.
use tenancit.Base.{List, [], ◌∷◌, Text}
use tenancit.I18n.Entry.{entry}

unfoldable pub es_account : List (Text × Text)
es_account =
    entry "sessions.current" "Actual"
    ∷ entry "sessions.description" "Revoca accesos individuales sin afectar la sesión actual."
    ∷ entry "sessions.empty" "No se encontraron sesiones."
    ∷ entry "sessions.expires" "Vence"
    ∷ entry "sessions.lastUsed" "Último uso"
    ∷ entry "sessions.principal" "Principal"
    ∷ entry "sessions.revoke" "Revocar sesión"
    ∷ entry "sessions.revokeDescription"
        "¿Revocar la sesión de {name}? El acceso terminará inmediatamente."
    ∷ entry "sessions.revoked" "Sesión revocada."
    ∷ entry "sessions.revokeTitle" "Revocar sesión"
    ∷ entry "sessions.roles" "Roles"
    ∷ entry "sessions.search" "Buscar por persona, subject o issuer…"
    ∷ entry "sessions.status.active" "activa"
    ∷ entry "sessions.status.expired" "vencida"
    ∷ entry "sessions.status.idle_expired" "inactiva vencida"
    ∷ entry "sessions.status.revoked" "revocada"
    ∷ entry "sessions.title" "Sesiones administrativas"
    ∷ entry "settings.description" "Políticas runtime no secretas, versionadas y auditadas."
    ∷ entry "settings.field.api_client_default_rpm" "RPM predeterminado de nuevas claves"
    ∷ entry "settings.field.api_client_default_ttl_days"
        "Validez predeterminada de nuevas claves (días)"
    ∷ entry "settings.field.audit_retention_days" "Retención de auditoría (días)"
    ∷ entry "settings.field.default_locale" "Idioma predeterminado"
    ∷ entry "settings.field.session_absolute_hours" "Duración máxima de sesión (horas)"
    ∷ entry "settings.field.session_idle_minutes" "Inactividad máxima (minutos)"
    ∷ entry "settings.field.usage_retention_months" "Retención de uso (meses)"
    ∷ entry "settings.field.webhook_delivery_retention_days" "Retención de entregas webhook (días)"
    ∷ entry "settings.field.outbox_event_retention_days" "Retención del change feed (días)"
    ∷ entry "settings.hint.api_client_default_rpm"
        "Sugerencia del formulario; no cambia claves existentes."
    ∷ entry "settings.hint.api_client_default_ttl_days"
        "Sugerencia para nuevas claves; no extiende tokens existentes."
    ∷ entry "settings.hint.audit_retention_days"
        "Política usada por el job de retención de auditoría."
    ∷ entry "settings.hint.default_locale"
        "Preferencia inicial si el navegador aún no eligió un idioma."
    ∷ entry "settings.hint.session_absolute_hours"
        "Se aplica a nuevas sesiones y limita la expiración por inactividad."
    ∷ entry "settings.hint.session_idle_minutes"
        "Se reevalúa durante el uso y respeta la duración absoluta."
    ∷ entry "settings.hint.usage_retention_months"
        "Se aplica por el job UTC de retención de telemetría."
    ∷ entry "settings.hint.webhook_delivery_retention_days"
        "Elimina entregas completadas y dead letters después de la ventana."
    ∷ entry "settings.hint.outbox_event_retention_days"
        "Elimina eventos sin entregas pendientes después de la ventana."
    ∷ entry "settings.owner" "Responsable: {owner}"
    ∷ entry "settings.revision" "Revisión {revision}"
    ∷ entry "settings.saved" "Configuración guardada."
    ∷ entry "settings.saving" "Guardando…"
    ∷ entry "settings.section.apiClients" "Claves de API"
    ∷ entry "settings.section.apiClientsDescription"
        "Valores seguros para nuevas credenciales de servicio."
    ∷ entry "settings.section.console" "Consola"
    ∷ entry "settings.section.consoleDescription"
        "Preferencias iniciales de la experiencia administrativa."
    ∷ entry "settings.section.retention" "Retención"
    ∷ entry "settings.section.retentionDescription"
        "Ventanas explícitas para telemetría y auditoría."
    ∷ entry "settings.section.security" "Seguridad"
    ∷ entry "settings.section.securityDescription" "Expiración e inactividad de sesiones humanas."
    ∷ entry "settings.title" "Configuración operativa"
    ∷ entry "nav.overview" "Vista general"
    ∷ entry "nav.tenants" "Tenants"
    ∷ entry "overview.activeDefinitions" "Definiciones activas"
    ∷ entry "overview.activeTenants" "Tenants activos"
    ∷ entry "overview.authRequired" "Se requiere autenticación administrativa."
    ∷ entry "overview.description" "Configuración multi-tenant de recursos por cliente."
    ∷ entry "overview.domainHint" "hostnames mapeados"
    ∷ entry "overview.domains" "Dominios"
    ∷ entry "overview.loadError" "No se pudo cargar la vista general."
    ∷ entry "overview.loading" "Cargando vista general..."
    ∷ entry "overview.resourceCount" "{count} recursos"
    ∷ entry "overview.resourceHint" "instancias activas"
    ∷ entry "overview.resources" "Recursos provisionados"
    ∷ entry "overview.totalTenants" "{count} en total"
    ∷ entry "overview.typeHint" "tipos de recurso"
    ∷ entry "overview.title" "Vista general"
    ∷ entry "overview.operationalHealth" "Salud operativa"
    ∷ entry "overview.operationalHealthHint" "Postgres, Valkey y evidencias operativas"
    ∷ entry "overview.monthRequests" "Solicitudes del mes"
    ∷ entry "overview.monthRequestsHint" "todas las claves, mes UTC actual"
    ∷ entry "overview.expiringKeys" "Claves por vencer"
    ∷ entry "overview.expiringKeysHint" "activas con vencimiento en los próximos 30 días"
    ∷ entry "overview.deadLetters" "Dead letters"
    ∷ entry "overview.deadLettersHint" "entregas que requieren intervención"
    ∷ entry "preferences.darkMode" "Activar modo oscuro"
    ∷ entry "preferences.language" "Idioma"
    ∷ entry "preferences.lightMode" "Activar modo claro"
    ∷ entry "preferences.theme" "Tema"
    ∷ entry "preferences.theme.dark" "Oscuro"
    ∷ entry "preferences.theme.light" "Claro"
    ∷ entry "preferences.theme.system" "Sistema"
    ∷ entry "status.active" "activo"
    ∷ entry "status.inactive" "inactivo"
    ∷ entry "status.revoked" "revocado"
    ∷ []
