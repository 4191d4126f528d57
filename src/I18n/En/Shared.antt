-- ===== src/I18n/En/Shared.antt =====
-- web/src/lib/i18n.tsx: a part of enUS.
use tenancit.Base.{List, [], ◌∷◌, Text}
use tenancit.I18n.Entry.{entry}

unfoldable pub en_shared : List (Text × Text)
en_shared =
    entry "common.actions" "Actions"
    ∷ entry "common.add" "Add"
    ∷ entry "common.back" "Back"
    ∷ entry "common.cancel" "Cancel"
    ∷ entry "common.close" "Close"
    ∷ entry "common.create" "Create"
    ∷ entry "common.description" "Description"
    ∷ entry "common.dismiss" "Dismiss"
    ∷ entry "common.edit" "Edit"
    ∷ entry "common.field" "Field"
    ∷ entry "common.hide" "Hide"
    ∷ entry "common.hostname" "Hostname"
    ∷ entry "common.key" "Key"
    ∷ entry "common.label" "Label"
    ∷ entry "common.name" "Name"
    ∷ entry "common.loading" "Loading..."
    ∷ entry "common.remove" "Remove"
    ∷ entry "common.removeConfirm" "Remove"
    ∷ entry "common.review" "Review"
    ∷ entry "common.reveal" "Reveal"
    ∷ entry "common.save" "Save"
    ∷ entry "common.secret" "Secret"
    ∷ entry "common.slug" "Slug"
    ∷ entry "common.status" "Status"
    ∷ entry "common.type" "Type"
    ∷ entry "common.value" "Value"
    ∷ entry "validation.dateRange" "The end date must be later than the start date."
    ∷ entry "validation.definitionKey"
        "Use up to 63 characters: start with a lowercase letter and use only lowercase letters, numbers, hyphens, or underscores."
    ∷ entry "validation.boolean" "Use true or false."
    ∷ entry "validation.hostname"
        "Use only DNS labels with letters, numbers, and hyphens, such as app.example.com."
    ∷ entry "validation.integer" "Enter a whole number without decimal places."
    ∷ entry "validation.tenantSlug"
        "Use up to 63 characters with lowercase letters, numbers, and single hyphens between words."
    ∷ entry "validation.webhookURL"
        "Use an HTTPS URL without credentials or a fragment. HTTP is accepted only on localhost."
    ∷ entry "dataTable.firstPage" "First page"
    ∷ entry "dataTable.item" "item"
    ∷ entry "dataTable.items" "items"
    ∷ entry "dataTable.lastPage" "Last page"
    ∷ entry "dataTable.nextPage" "Next page"
    ∷ entry "dataTable.page" "Page"
    ∷ entry "dataTable.pageOf" "of"
    ∷ entry "dataTable.previousPage" "Previous page"
    ∷ entry "dataTable.rowsPerPage" "Rows per page"
    ∷ entry "dataTable.sortAsc" "Sort ascending"
    ∷ entry "dataTable.sortDesc" "Sort descending"
    ∷ entry "dataTable.sortReset" "Clear sorting"
    ∷ entry "dataTable.sort" "Sort"
    ∷ entry "dataTable.sortBy" "Sort by"
    ∷ entry "dataTable.ascending" "Ascending"
    ∷ entry "dataTable.descending" "Descending"
    ∷ entry "dataTable.columns" "Columns"
    ∷ entry "dataTable.clearFilters" "Clear filters"
    ∷ entry "dataTable.resetPreferences" "Reset table"
    ∷ entry "dataTable.noResults" "No results."
    ∷ entry "definitionDetail.activate" "Activate"
    ∷ entry "definitionDetail.addField" "Add field"
    ∷ entry "definitionDetail.back" "Back"
    ∷ entry "definitionDetail.dataTypeBool" "Boolean"
    ∷ entry "definitionDetail.dataTypeInt" "Integer"
    ∷ entry "definitionDetail.dataTypeString" "Text"
    ∷ entry "definitionDetail.deactivate" "Deactivate"
    ∷ entry "definitionDetail.emptyDescription"
        "No fields. Add the fields that make up this resource."
    ∷ entry "definitionDetail.editDescription"
        "Update the name and description. The technical key {key} remains immutable."
    ∷ entry "definitionDetail.editFieldAction" "Edit field {key}"
    ∷ entry "definitionDetail.editFieldDescription"
        "Update the label and requirement for {key}. To change key, type, or secret storage, create a new field and migrate the values."
    ∷ entry "definitionDetail.editFieldTitle" "Edit field"
    ∷ entry "definitionDetail.editTitle" "Edit definition"
    ∷ entry "definitionDetail.fieldAdded" "Field added."
    ∷ entry "definitionDetail.fieldRemoved" "Field removed."
    ∷ entry "definitionDetail.fieldUpdated" "Field updated."
    ∷ entry "definitionDetail.fieldsDescription" "Dynamic field definition for this resource type."
    ∷ entry "definitionDetail.fieldsTitle" "Fields"
    ∷ entry "definitionDetail.loadError" "Could not load the definition."
    ∷ entry "definitionDetail.newField" "New field"
    ∷ entry "definitionDetail.newFieldDescription" "Add a field to this resource type."
    ∷ entry "definitionDetail.notFound" "Definition not found."
    ∷ entry "definitionDetail.open" "Open definition {name}"
    ∷ entry "definitionDetail.removeDescription"
        "The {name} definition will be removed. Removal is blocked while resources are linked to it."
    ∷ entry "definitionDetail.removeTitle" "Remove definition?"
    ∷ entry "definitionDetail.removed" "Definition removed."
    ∷ entry "definitionDetail.removeFieldDescription"
        "The field {fieldKey} will be removed from this definition. This can affect resources and forms that depend on it."
    ∷ entry "definitionDetail.removeFieldTitle" "Remove field?"
    ∷ entry "definitionDetail.requiredDescription" "Required when creating the resource."
    ∷ entry "definitionDetail.requiredTitle" "Required"
    ∷ entry "definitionDetail.secretDescription" "Encrypted with AES-256-GCM."
    ∷ entry "definitionDetail.statusActivated" "Definition activated."
    ∷ entry "definitionDetail.statusDeactivated" "Definition deactivated."
    ∷ entry "definitionDetail.updated" "Definition updated."
    ∷ []
