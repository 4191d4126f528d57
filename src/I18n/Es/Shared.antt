-- ===== src/I18n/Es/Shared.antt =====
-- web/src/lib/i18n.tsx: a part of esES.
use tenancit.Base.{List, [], ◌∷◌, Text}
use tenancit.I18n.Entry.{entry}

unfoldable pub es_shared : List (Text × Text)
es_shared =
    entry "common.actions" "Acciones"
    ∷ entry "common.add" "Agregar"
    ∷ entry "common.back" "Volver"
    ∷ entry "common.cancel" "Cancelar"
    ∷ entry "common.close" "Cerrar"
    ∷ entry "common.create" "Crear"
    ∷ entry "common.description" "Descripción"
    ∷ entry "common.dismiss" "Descartar"
    ∷ entry "common.edit" "Editar"
    ∷ entry "common.field" "Campo"
    ∷ entry "common.hide" "Ocultar"
    ∷ entry "common.hostname" "Hostname"
    ∷ entry "common.key" "Key"
    ∷ entry "common.label" "Label"
    ∷ entry "common.name" "Nombre"
    ∷ entry "common.loading" "Cargando..."
    ∷ entry "common.remove" "Eliminar"
    ∷ entry "common.removeConfirm" "Eliminar"
    ∷ entry "common.review" "Revisar"
    ∷ entry "common.reveal" "Revelar"
    ∷ entry "common.save" "Guardar"
    ∷ entry "common.secret" "Secreto"
    ∷ entry "common.slug" "Slug"
    ∷ entry "common.status" "Status"
    ∷ entry "common.type" "Tipo"
    ∷ entry "common.value" "Valor"
    ∷ entry "validation.dateRange" "La fecha final debe ser posterior a la fecha inicial."
    ∷ entry "validation.definitionKey"
        "Usa hasta 63 caracteres: comienza con una letra minúscula y usa solo letras minúsculas, números, guiones o guiones bajos."
    ∷ entry "validation.boolean" "Usa true o false."
    ∷ entry "validation.hostname"
        "Usa solo labels DNS con letras, números y guiones, como app.ejemplo.com."
    ∷ entry "validation.integer" "Introduce un número entero, sin decimales."
    ∷ entry "validation.tenantSlug"
        "Usa hasta 63 caracteres con letras minúsculas, números y guiones simples entre palabras."
    ∷ entry "validation.webhookURL"
        "Usa una URL HTTPS sin credenciales ni fragmento. HTTP se acepta solo en localhost."
    ∷ entry "dataTable.firstPage" "Primera página"
    ∷ entry "dataTable.item" "elemento"
    ∷ entry "dataTable.items" "elementos"
    ∷ entry "dataTable.lastPage" "Última página"
    ∷ entry "dataTable.nextPage" "Página siguiente"
    ∷ entry "dataTable.page" "Página"
    ∷ entry "dataTable.pageOf" "de"
    ∷ entry "dataTable.previousPage" "Página anterior"
    ∷ entry "dataTable.rowsPerPage" "Filas por página"
    ∷ entry "dataTable.sortAsc" "Ordenar ascendente"
    ∷ entry "dataTable.sortDesc" "Ordenar descendente"
    ∷ entry "dataTable.sortReset" "Limpiar ordenación"
    ∷ entry "dataTable.sort" "Ordenar"
    ∷ entry "dataTable.sortBy" "Ordenar por"
    ∷ entry "dataTable.ascending" "Ascendente"
    ∷ entry "dataTable.descending" "Descendente"
    ∷ entry "dataTable.columns" "Columnas"
    ∷ entry "dataTable.clearFilters" "Limpiar filtros"
    ∷ entry "dataTable.resetPreferences" "Restablecer tabla"
    ∷ entry "dataTable.noResults" "Sin resultados."
    ∷ entry "definitionDetail.activate" "Activar"
    ∷ entry "definitionDetail.addField" "Agregar campo"
    ∷ entry "definitionDetail.back" "Volver"
    ∷ entry "definitionDetail.dataTypeBool" "Booleano"
    ∷ entry "definitionDetail.dataTypeInt" "Entero"
    ∷ entry "definitionDetail.dataTypeString" "Texto"
    ∷ entry "definitionDetail.deactivate" "Desactivar"
    ∷ entry "definitionDetail.emptyDescription"
        "Ningún campo. Agrega los campos que componen este recurso."
    ∷ entry "definitionDetail.editDescription"
        "Actualiza el nombre y la descripción. La clave técnica {key} permanece inmutable."
    ∷ entry "definitionDetail.editFieldAction" "Editar campo {key}"
    ∷ entry "definitionDetail.editFieldDescription"
        "Actualiza la etiqueta y la obligatoriedad de {key}. Para cambiar la clave, el tipo o el almacenamiento secreto, crea un campo nuevo y migra los valores."
    ∷ entry "definitionDetail.editFieldTitle" "Editar campo"
    ∷ entry "definitionDetail.editTitle" "Editar definición"
    ∷ entry "definitionDetail.fieldAdded" "Campo agregado."
    ∷ entry "definitionDetail.fieldRemoved" "Campo eliminado."
    ∷ entry "definitionDetail.fieldUpdated" "Campo actualizado."
    ∷ entry "definitionDetail.fieldsDescription"
        "Definición dinámica de los campos de este tipo de recurso."
    ∷ entry "definitionDetail.fieldsTitle" "Campos"
    ∷ entry "definitionDetail.loadError" "No se pudo cargar la definición."
    ∷ entry "definitionDetail.newField" "Nuevo campo"
    ∷ entry "definitionDetail.newFieldDescription" "Agrega un campo a este tipo de recurso."
    ∷ entry "definitionDetail.notFound" "Definición no encontrada."
    ∷ entry "definitionDetail.open" "Abrir definición {name}"
    ∷ entry "definitionDetail.removeDescription"
        "La definición {name} será eliminada. La eliminación no está permitida mientras haya recursos vinculados."
    ∷ entry "definitionDetail.removeTitle" "¿Eliminar definición?"
    ∷ entry "definitionDetail.removed" "Definición eliminada."
    ∷ entry "definitionDetail.removeFieldDescription"
        "El campo {fieldKey} se eliminará de esta definición. Esto puede afectar recursos y formularios que dependen de él."
    ∷ entry "definitionDetail.removeFieldTitle" "¿Eliminar campo?"
    ∷ entry "definitionDetail.requiredDescription" "Exigido al crear el recurso."
    ∷ entry "definitionDetail.requiredTitle" "Obligatorio"
    ∷ entry "definitionDetail.secretDescription" "Cifrado con AES-256-GCM."
    ∷ entry "definitionDetail.statusActivated" "Definición activada."
    ∷ entry "definitionDetail.statusDeactivated" "Definición desactivada."
    ∷ entry "definitionDetail.updated" "Definición actualizada."
    ∷ []
