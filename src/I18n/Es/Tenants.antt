-- ===== src/I18n/Es/Tenants.antt =====
-- web/src/lib/i18n.tsx: a part of esES.
use tenancit.Base.{List, [], ◌∷◌, Text}
use tenancit.I18n.Entry.{entry}

unfoldable pub es_tenants : List (Text × Text)
es_tenants =
    entry "tenantDetail.addDomain" "Agregar dominio"
    ∷ entry "tenantDetail.addResource" "Agregar recurso"
    ∷ entry "tenantDetail.addResourceDialog.description"
        "Elige un tipo, define un alias único y usa valores propios o heredados de otro recurso."
    ∷ entry "tenantDetail.addResourceDialog.empty" "No hay definiciones de recurso activas."
    ∷ entry "tenantDetail.addResourceDialog.title" "Agregar recurso"
    ∷ entry "tenantDetail.backToTenants" "Volver a Tenants"
    ∷ entry "tenantDetail.confirmRemoveDomainDescription"
        "El hostname {hostname} dejará de resolver a este tenant inmediatamente."
    ∷ entry "tenantDetail.confirmRemoveDomainTitle" "¿Eliminar dominio?"
    ∷ entry "tenantDetail.confirmRemoveResourceDescription"
        "El recurso {resourceName} se eliminará de este tenant. Las aplicaciones consumidoras pueden perder esta configuración."
    ∷ entry "tenantDetail.confirmRemoveResourceTitle" "¿Eliminar recurso?"
    ∷ entry "tenantDetail.deactivate" "Desactivar"
    ∷ entry "tenantDetail.duplicate" "Duplicar"
    ∷ entry "tenantDetail.duplicateDescription"
        "Crea una copia independiente con los valores efectivos actuales. Los cambios futuros del origen no se heredarán."
    ∷ entry "tenantDetail.duplicateHint" "Usa un alias único para la nueva copia independiente."
    ∷ entry "tenantDetail.duplicateTitle" "Duplicar recurso"
    ∷ entry "tenantDetail.dangerZone.description"
        "La desactivación es reversible. La eliminación siguiente es permanente y borra dominios, recursos y valores secretos."
    ∷ entry "tenantDetail.dangerZone.title" "Zona de peligro"
    ∷ entry "tenantDetail.deleteAction" "Eliminar tenant permanentemente"
    ∷ entry "tenantDetail.deleteConfirm" "Eliminar permanentemente"
    ∷ entry "tenantDetail.deleteDescription"
        "Esta acción no se puede deshacer. El tenant {slug}, sus dominios, recursos y valores secretos se eliminarán en cascada."
    ∷ entry "tenantDetail.deleteInputLabelPrefix" "Escribe"
    ∷ entry "tenantDetail.deleteInputLabelSuffix" "para confirmar"
    ∷ entry "tenantDetail.deleteInputPlaceholder" "slug del tenant"
    ∷ entry "tenantDetail.deleteTitle" "¿Eliminar tenant permanentemente?"
    ∷ entry "tenantDetail.deleted" "Tenant eliminado permanentemente."
    ∷ entry "tenantDetail.domainAdded" "Dominio agregado."
    ∷ entry "tenantDetail.domainRemoved" "Dominio eliminado."
    ∷ entry "tenantDetail.domainUpdated" "Dominio actualizado."
    ∷ entry "tenantDetail.domainsDescription" "Hostnames que resuelven a este tenant."
    ∷ entry "tenantDetail.domainsEmpty"
        "Ningún dominio. Agrega al menos uno para resolver el tenant."
    ∷ entry "tenantDetail.domainsSearch" "Buscar por hostname..."
    ∷ entry "tenantDetail.editDomainDescription"
        "Cambia el hostname que resuelve hacia este tenant."
    ∷ entry "tenantDetail.editDomainTitle" "Renombrar dominio"
    ∷ entry "tenantDetail.renameDomain" "Renombrar"
    ∷ entry "tenantDetail.domainsTab" "Dominios"
    ∷ entry "tenantDetail.editDescription" "Actualiza los datos del cliente."
    ∷ entry "tenantDetail.editFieldDescription"
        "Actualiza el valor de {field}. Los valores secretos nunca se completan previamente en el formulario."
    ∷ entry "tenantDetail.editFieldTitle" "Editar campo"
    ∷ entry "tenantDetail.editTitle" "Editar tenant"
    ∷ entry "tenantDetail.enableSecretReveal" "Habilitar revelación de secretos"
    ∷ entry "tenantDetail.fieldsColumn" "Campos"
    ∷ entry "tenantDetail.fieldCount.many" "{count} campos"
    ∷ entry "tenantDetail.fieldCount.one" "{count} campo"
    ∷ entry "tenantDetail.headerDescription"
        "Identificador {slug}. Gestiona la configuración, los recursos y los dominios de este tenant."
    ∷ entry "tenantDetail.hideSecrets" "Ocultar secretos"
    ∷ entry "tenantDetail.loadError" "No se pudo cargar el tenant."
    ∷ entry "tenantDetail.newDomainDescription" "Hostname exacto que resuelve a este tenant."
    ∷ entry "tenantDetail.newDomainTitle" "Agregar dominio"
    ∷ entry "tenantDetail.noResource" "Ningún recurso"
    ∷ entry "tenantDetail.noResourceDescription"
        "Este tenant todavía no tiene recursos provisionados."
    ∷ entry "tenantDetail.notFound" "Tenant no encontrado."
    ∷ entry "tenantDetail.overviewTab" "Visión general"
    ∷ entry "tenantDetail.reactivate" "Reactivar"
    ∷ entry "tenantDetail.attention.description"
        "Pendientes que afectan el consumo o merecen revisión operativa."
    ∷ entry "tenantDetail.attention.emptyDescription"
        "El dominio, el estado y los recursos esenciales están configurados."
    ∷ entry "tenantDetail.attention.emptyTitle" "No se encontraron pendientes"
    ∷ entry "tenantDetail.attention.inactive_resources.description"
        "Los recursos inactivos no son devueltos por la Consumer API."
    ∷ entry "tenantDetail.attention.inactive_resources.title" "{count} recurso(s) inactivo(s)"
    ∷ entry "tenantDetail.attention.inactive_tenant.description"
        "Un tenant inactivo no puede ser resuelto por las aplicaciones consumidoras."
    ∷ entry "tenantDetail.attention.inactive_tenant.title" "Tenant inactivo"
    ∷ entry "tenantDetail.attention.incomplete_resources.description"
        "Hay recursos con campos obligatorios sin valor."
    ∷ entry "tenantDetail.attention.incomplete_resources.title"
        "{count} configuración(es) incompleta(s)"
    ∷ entry "tenantDetail.attention.missing_active_resource.description"
        "Agrega o reactiva un recurso para disponibilizar configuración al consumidor."
    ∷ entry "tenantDetail.attention.missing_active_resource.title" "Ningún recurso activo"
    ∷ entry "tenantDetail.attention.missing_domain.description"
        "Sin hostname, la aplicación no puede identificar este tenant por dominio."
    ∷ entry "tenantDetail.attention.missing_domain.title" "Ningún dominio registrado"
    ∷ entry "tenantDetail.attention.title" "Elementos que requieren atención"
    ∷ entry "tenantDetail.readiness.attention" "Atención"
    ∷ entry "tenantDetail.readiness.completeHint" "todos los campos obligatorios están completos"
    ∷ entry "tenantDetail.readiness.domains" "Dominios"
    ∷ entry "tenantDetail.readiness.incomplete" "Incompleto"
    ∷ entry "tenantDetail.readiness.incompleteHint" "revisa los campos obligatorios faltantes"
    ∷ entry "tenantDetail.readiness.incompleteResources" "Configuraciones incompletas"
    ∷ entry "tenantDetail.readiness.missingDomain" "agrega un dominio"
    ∷ entry "tenantDetail.readiness.missingResource" "agrega un recurso activo"
    ∷ entry "tenantDetail.readiness.ready" "Listo"
    ∷ entry "tenantDetail.readiness.requirementsHint"
        "{count} de {total} requisitos esenciales cumplidos"
    ∷ entry "tenantDetail.readiness.resources" "Recursos activos/total"
    ∷ entry "tenantDetail.readiness.resourcesHint" "instancias disponibles para configuración"
    ∷ entry "tenantDetail.readiness.title" "Preparación para consumo"
    ∷ entry "tenantDetail.resourceAdded" "Recurso agregado."
    ∷ entry "tenantDetail.editResourceIdentityTitle" "Editar recurso"
    ∷ entry "tenantDetail.editResourceIdentityDescription"
        "Actualiza el nombre visible y el alias único usado por la Consumer API."
    ∷ entry "tenantDetail.resourceAlias" "Alias"
    ∷ entry "tenantDetail.resourceAliasHint"
        "Identificador único usado por la Consumer API, como postgres.agility."
    ∷ entry "tenantDetail.resourceNameHint"
        "Nombre legible para identificar esta instancia en la consola."
    ∷ entry "tenantDetail.resourceUpdated" "Nombre y alias actualizados."
    ∷ entry "tenantDetail.resourceDuplicated" "Recurso duplicado como copia independiente."
    ∷ entry "tenantDetail.resourceFieldUpdated" "Campo actualizado."
    ∷ entry "tenantDetail.resourceFieldInherited" "El campo volvió a heredar el valor del origen."
    ∷ entry "tenantDetail.resourceDetailsDescription"
        "Tipo {type} · alias {alias}. Consulta los campos y valores de este recurso."
    ∷ entry "tenantDetail.resourceLinkedDescription"
        "Vinculado a {source}. Los valores sin override siguen al origen."
    ∷ entry "tenantDetail.resourceOrigin" "Origen de los valores"
    ∷ entry "tenantDetail.resourceRemoved" "Recurso eliminado."
    ∷ entry "tenantDetail.resourceStatusActivated" "Recurso reactivado."
    ∷ entry "tenantDetail.resourceStatusDeactivated" "Recurso desactivado."
    ∷ entry "tenantDetail.resourceType" "Tipo de recurso"
    ∷ entry "tenantDetail.independent" "Independiente"
    ∷ entry "tenantDetail.independentHint" "Los valores pertenecen solo a este recurso."
    ∷ entry "tenantDetail.inheritPlaceholder" "Deja vacío para heredar"
    ∷ entry "tenantDetail.inherited" "heredado"
    ∷ entry "tenantDetail.linked" "Vinculado"
    ∷ entry "tenantDetail.linkedHint"
        "Los campos vacíos heredan el origen; los valores informados son overrides locales."
    ∷ entry "tenantDetail.linkTo" "Vincular a {alias}"
    ∷ entry "tenantDetail.resourcesTab" "Recursos"
    ∷ entry "tenantDetail.resourcesSearch" "Buscar por nombre, tipo o estado..."
    ∷ entry "tenantDetail.secretsDisabled" "Secretos ocultos."
    ∷ entry "tenantDetail.secretsEnabled" "Revelación por campo habilitada."
    ∷ entry "tenantDetail.secretsColumn" "Secretos"
    ∷ entry "tenantDetail.useSource" "Usar valor del origen"
    ∷ entry "tenantDetail.secretCount.many" "{count} secretos"
    ∷ entry "tenantDetail.secretCount.one" "{count} secreto"
    ∷ entry "tenantDetail.saveResource" "Guardar recurso"
    ∷ entry "tenantDetail.selectResource" "Selecciona..."
    ∷ entry "tenantDetail.updated" "Tenant actualizado."
    ∷ entry "tenants.create" "Crear tenant"
    ∷ entry "tenants.description" "Clientes y sus dominios."
    ∷ entry "tenants.empty" "No se encontraron tenants."
    ∷ entry "tenants.new" "Nuevo tenant"
    ∷ entry "tenants.newDialog.description"
        "Registra un cliente. Los dominios y recursos se agregan después."
    ∷ entry "tenants.newDialog.title" "Nuevo tenant"
    ∷ entry "tenants.search" "Buscar por nombre o slug..."
    ∷ entry "tenants.title" "Tenants"
    ∷ []
