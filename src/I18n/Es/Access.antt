-- ===== src/I18n/Es/Access.antt =====
-- web/src/lib/i18n.tsx: a part of esES.
use tenancit.Base.{List, [], ◌∷◌, Text}
use tenancit.I18n.Entry.{entry}

unfoldable pub es_access : List (Text × Text)
es_access =
    entry "apiClients.actions" "Acciones"
    ∷ entry "apiClients.clearSecretAccess.description"
        "Estas claves llaman a /v1/resolve, que devuelve secretos descifrados sobre TLS. El token solo se muestra una vez, al crearlo."
    ∷ entry "apiClients.clearSecretAccess.title" "Acceso a secretos en claro"
    ∷ entry "apiClients.copied" "Copiado"
    ∷ entry "apiClients.copy" "Copiar"
    ∷ entry "apiClients.copyFailed" "No se pudo copiar. Selecciónalo y cópialo manualmente."
    ∷ entry "apiClients.createdAt" "Creado el"
    ∷ entry "apiClients.description" "Claves de servicio para consumo server-to-server."
    ∷ entry "apiClients.done" "Finalizar"
    ∷ entry "apiClients.emptyActive" "Ninguna clave activa."
    ∷ entry "apiClients.generateToken" "Generar token"
    ∷ entry "apiClients.help" "Ayuda"
    ∷ entry "apiClients.filters" "Filtros"
    ∷ entry "apiClients.helpTitle" "Cómo consumir claves de API"
    ∷ entry "apiClients.loading" "Cargando claves de API..."
    ∷ entry "apiClients.name" "Nombre"
    ∷ entry "apiClients.scopes" "Permisos"
    ∷ entry "apiClients.scopeIdentify" "Identificar tenant"
    ∷ entry "apiClients.scopeIdentifyDescription"
        "Permite identificar el tenant sin devolver recursos ni secretos."
    ∷ entry "apiClients.scopeResolve" "Resolver recursos"
    ∷ entry "apiClients.scopeResolveDescription"
        "Permite obtener configuraciones, incluidos campos secretos descifrados."
    ∷ entry "apiClients.scopeEvents" "Leer eventos"
    ∷ entry "apiClients.scopeEventsDescription"
        "Permite consumir el change feed sin acceder a configuraciones ni secretos."
    ∷ entry "apiClients.scopeTenantList" "Listar tenants"
    ∷ entry "apiClients.scopeTenantListDescription"
        "Permite enumerar identidades de tenants (slug, nombre, estado) — nunca recursos ni secretos."
    ∷ entry "apiClients.scopeResourceWrite" "Escribir valores"
    ∷ entry "apiClients.scopeResourceWriteDescription"
        "Permite actualizar valores de campos NO secretos en resources existentes."
    ∷ entry "apiClients.rpmLimit" "Límite por minuto"
    ∷ entry "apiClients.expiration" "Expiración"
    ∷ entry "apiClients.expirationDays" "{days} días"
    ∷ entry "apiClients.lastUsed" "Último uso"
    ∷ entry "apiClients.filterStatus" "Filtrar por estado"
    ∷ entry "apiClients.allStatuses" "Todos los estados"
    ∷ entry "apiClients.filterScope" "Filtrar por permiso"
    ∷ entry "apiClients.allScopes" "Todos los permisos"
    ∷ entry "apiClients.expiringSoon" "Expira en 30 días"
    ∷ entry "apiClients.inactive" "Inactiva durante 30 días"
    ∷ entry "apiClients.rotate" "Rotar clave"
    ∷ entry "apiClients.rotated" "Clave rotada. Copia el nuevo token ahora."
    ∷ entry "apiClients.updated" "Política de la clave actualizada."
    ∷ entry "apiClients.deleted" "Clave eliminada."
    ∷ entry "apiClients.editTitle" "Editar clave de API"
    ∷ entry "apiClients.deleteTitle" "Eliminar clave de API"
    ∷ entry "apiClients.deleteDescription"
        "¿Eliminar permanentemente la clave revocada {name}? Se conservarán el uso y la auditoría."
    ∷ entry "apiClients.new" "Nueva clave"
    ∷ entry "apiClients.newDialog.description"
        "El token se mostrará una sola vez después de la creación."
    ∷ entry "apiClients.newDialog.title" "Nueva clave de API"
    ∷ entry "apiClients.reactivate" "Reactivar"
    ∷ entry "apiClients.revoke" "Revocar"
    ∷ entry "apiClients.search" "Buscar por nombre, fecha o estado..."
    ∷ entry "apiClients.resolveSnippet.copy" "Copiar snippet"
    ∷ entry "apiClients.resolveSnippet.copied" "Snippet copiado"
    ∷ entry "apiClients.resolveSnippet.description"
        "Usa una clave activa para identificar el tenant en el borde sin tocar secretos y resuelve la configuración en la app por tenantId."
    ∷ entry "apiClients.resolveSnippet.edgeDescription"
        "El borde recibe solo el slug del tenant; no devuelve recursos ni secretos."
    ∷ entry "apiClients.resolveSnippet.edgeTitle" "1. Identificar en el borde (sin secretos)"
    ∷ entry "apiClients.resolveSnippet.fullDescription"
        "Devuelve todos los recursos activos del tenant."
    ∷ entry "apiClients.resolveSnippet.fullTitle" "Tenant completo"
    ∷ entry "apiClients.resolveSnippet.resourceDescription"
        "Devuelve solo una definición de recurso del tenant."
    ∷ entry "apiClients.resolveSnippet.resourceTitle" "Recurso específico"
    ∷ entry "apiClients.resolveSnippet.tenantIdDescription"
        "La app resuelve por el slug inyectado y revalida con ETag sin guardar el cuerpo secreto en la caché HTTP."
    ∷ entry "apiClients.resolveSnippet.tenantIdTitle" "2. Resolver en la app por tenantId"
    ∷ entry "apiClients.resolveSnippet.hostnameDescription"
        "Alternativa simple que resuelve todos los recursos directamente por hostname y devuelve secretos."
    ∷ entry "apiClients.resolveSnippet.hostnameTitle" "Alternativa: resolver por hostname"
    ∷ entry "apiClients.resolveSnippet.title" "Ejemplo de consumo"
    ∷ entry "apiClients.statusReactivated" "Clave reactivada."
    ∷ entry "apiClients.statusRevoked" "Clave revocada."
    ∷ entry "apiClients.title" "Claves de API"
    ∷ entry "apiClients.token" "Token"
    ∷ entry "apiClients.tokenGenerated.description" "Cópialo ahora; no podrás verlo nuevamente."
    ∷ entry "apiClients.tokenGenerated.title" "Token generado"
    ∷ entry "app.subtitle" "Consola admin"
    ∷ entry "app.title" "Tenancit"
    ∷ entry "auth.description" "Informa el token administrativo de Tenancit."
    ∷ entry "auth.enter" "Entrar"
    ∷ entry "auth.hideToken" "Ocultar token"
    ∷ entry "auth.invalidToken" "Token inválido o vencido. Informa un token administrativo válido."
    ∷ entry "auth.loading" "Verificando el acceso administrativo…"
    ∷ entry "auth.oidcDescription" "Inicia sesión con tu identidad corporativa."
    ∷ entry "auth.oidcEnter" "Entrar con SSO"
    ∷ entry "auth.oidcSession" "Sesión corporativa"
    ∷ entry "auth.requiredAccess" "Informa el token administrativo para acceder al panel."
    ∷ entry "auth.requiredContinue" "Informa el token administrativo para continuar."
    ∷ entry "auth.retry" "Intentar de nuevo"
    ∷ entry "auth.sessionExpired" "Tu sesión ha vencido. Inicia sesión nuevamente."
    ∷ entry "auth.showToken" "Mostrar token"
    ∷ entry "auth.sharedCredential" "Credencial administrativa"
    ∷ entry "auth.sharedToken" "Token compartido"
    ∷ entry "auth.title" "Acceso administrativo"
    ∷ entry "auth.token" "Token"
    ∷ entry "auth.unavailable" "No se pudo verificar el modo de autenticación."
    ∷ []
