-- ===== src/I18n/En/Tenants.antt =====
-- web/src/lib/i18n.tsx: a part of enUS.
use tenancit.Base.{List, [], ◌∷◌, Text}
use tenancit.I18n.Entry.{entry}

unfoldable pub en_tenants : List (Text × Text)
en_tenants =
    entry "tenantDetail.addDomain" "Add domain"
    ∷ entry "tenantDetail.addResource" "Add resource"
    ∷ entry "tenantDetail.addResourceDialog.description"
        "Choose a type, define a unique alias, and use local values or inherit from another resource."
    ∷ entry "tenantDetail.addResourceDialog.empty" "There are no active resource definitions."
    ∷ entry "tenantDetail.addResourceDialog.title" "Add resource"
    ∷ entry "tenantDetail.backToTenants" "Back to Tenants"
    ∷ entry "tenantDetail.confirmRemoveDomainDescription"
        "The hostname {hostname} will stop resolving to this tenant immediately."
    ∷ entry "tenantDetail.confirmRemoveDomainTitle" "Remove domain?"
    ∷ entry "tenantDetail.confirmRemoveResourceDescription"
        "The resource {resourceName} will be removed from this tenant. Consumer applications can lose this configuration."
    ∷ entry "tenantDetail.confirmRemoveResourceTitle" "Remove resource?"
    ∷ entry "tenantDetail.deactivate" "Deactivate"
    ∷ entry "tenantDetail.duplicate" "Duplicate"
    ∷ entry "tenantDetail.duplicateDescription"
        "Creates an independent copy with the current effective values. Future source changes will not be inherited."
    ∷ entry "tenantDetail.duplicateHint" "Use a unique alias for the new independent copy."
    ∷ entry "tenantDetail.duplicateTitle" "Duplicate resource"
    ∷ entry "tenantDetail.dangerZone.description"
        "Deactivation is reversible. The deletion below is permanent and removes domains, resources, and secret values."
    ∷ entry "tenantDetail.dangerZone.title" "Danger zone"
    ∷ entry "tenantDetail.deleteAction" "Delete tenant permanently"
    ∷ entry "tenantDetail.deleteConfirm" "Delete permanently"
    ∷ entry "tenantDetail.deleteDescription"
        "This action cannot be undone. Tenant {slug}, its domains, resources, and secret values will be removed by cascade."
    ∷ entry "tenantDetail.deleteInputLabelPrefix" "Type"
    ∷ entry "tenantDetail.deleteInputLabelSuffix" "to confirm"
    ∷ entry "tenantDetail.deleteInputPlaceholder" "tenant slug"
    ∷ entry "tenantDetail.deleteTitle" "Delete tenant permanently?"
    ∷ entry "tenantDetail.deleted" "Tenant permanently deleted."
    ∷ entry "tenantDetail.domainAdded" "Domain added."
    ∷ entry "tenantDetail.domainRemoved" "Domain removed."
    ∷ entry "tenantDetail.domainUpdated" "Domain updated."
    ∷ entry "tenantDetail.domainsDescription" "Hostnames that resolve to this tenant."
    ∷ entry "tenantDetail.domainsEmpty" "No domains. Add at least one to resolve the tenant."
    ∷ entry "tenantDetail.domainsSearch" "Search by hostname..."
    ∷ entry "tenantDetail.editDomainDescription" "Change the hostname that resolves to this tenant."
    ∷ entry "tenantDetail.editDomainTitle" "Rename domain"
    ∷ entry "tenantDetail.renameDomain" "Rename"
    ∷ entry "tenantDetail.domainsTab" "Domains"
    ∷ entry "tenantDetail.editDescription" "Update the client data."
    ∷ entry "tenantDetail.editFieldDescription"
        "Update the value of {field}. Secret values are never prefilled in the form."
    ∷ entry "tenantDetail.editFieldTitle" "Edit field"
    ∷ entry "tenantDetail.editTitle" "Edit tenant"
    ∷ entry "tenantDetail.enableSecretReveal" "Enable secret reveal"
    ∷ entry "tenantDetail.fieldsColumn" "Fields"
    ∷ entry "tenantDetail.fieldCount.many" "{count} fields"
    ∷ entry "tenantDetail.fieldCount.one" "{count} field"
    ∷ entry "tenantDetail.headerDescription"
        "Identifier {slug}. Manage this tenant's configuration, resources, and domains."
    ∷ entry "tenantDetail.hideSecrets" "Hide secrets"
    ∷ entry "tenantDetail.loadError" "Could not load the tenant."
    ∷ entry "tenantDetail.newDomainDescription" "Exact hostname that resolves to this tenant."
    ∷ entry "tenantDetail.newDomainTitle" "Add domain"
    ∷ entry "tenantDetail.noResource" "No resources"
    ∷ entry "tenantDetail.noResourceDescription"
        "This tenant does not have provisioned resources yet."
    ∷ entry "tenantDetail.notFound" "Tenant not found."
    ∷ entry "tenantDetail.overviewTab" "Overview"
    ∷ entry "tenantDetail.reactivate" "Reactivate"
    ∷ entry "tenantDetail.attention.description"
        "Issues that affect consumption or deserve operational review."
    ∷ entry "tenantDetail.attention.emptyDescription"
        "Domain, status, and essential resources are configured."
    ∷ entry "tenantDetail.attention.emptyTitle" "No issues found"
    ∷ entry "tenantDetail.attention.inactive_resources.description"
        "Inactive resources are not returned by the Consumer API."
    ∷ entry "tenantDetail.attention.inactive_resources.title" "{count} inactive resource(s)"
    ∷ entry "tenantDetail.attention.inactive_tenant.description"
        "An inactive tenant cannot be resolved by consuming applications."
    ∷ entry "tenantDetail.attention.inactive_tenant.title" "Inactive tenant"
    ∷ entry "tenantDetail.attention.incomplete_resources.description"
        "Some resources have required fields without a value."
    ∷ entry "tenantDetail.attention.incomplete_resources.title"
        "{count} incomplete configuration(s)"
    ∷ entry "tenantDetail.attention.missing_active_resource.description"
        "Add or reactivate a resource to make configuration available to consumers."
    ∷ entry "tenantDetail.attention.missing_active_resource.title" "No active resources"
    ∷ entry "tenantDetail.attention.missing_domain.description"
        "Without a hostname, applications cannot identify this tenant by domain."
    ∷ entry "tenantDetail.attention.missing_domain.title" "No registered domains"
    ∷ entry "tenantDetail.attention.title" "Items requiring attention"
    ∷ entry "tenantDetail.readiness.attention" "Attention"
    ∷ entry "tenantDetail.readiness.completeHint" "all required fields are filled"
    ∷ entry "tenantDetail.readiness.domains" "Domains"
    ∷ entry "tenantDetail.readiness.incomplete" "Incomplete"
    ∷ entry "tenantDetail.readiness.incompleteHint" "review missing required fields"
    ∷ entry "tenantDetail.readiness.incompleteResources" "Incomplete configurations"
    ∷ entry "tenantDetail.readiness.missingDomain" "add a domain"
    ∷ entry "tenantDetail.readiness.missingResource" "add an active resource"
    ∷ entry "tenantDetail.readiness.ready" "Ready"
    ∷ entry "tenantDetail.readiness.requirementsHint"
        "{count} of {total} essential requirements met"
    ∷ entry "tenantDetail.readiness.resources" "Active/total resources"
    ∷ entry "tenantDetail.readiness.resourcesHint" "instances available for configuration"
    ∷ entry "tenantDetail.readiness.title" "Consumption readiness"
    ∷ entry "tenantDetail.resourceAdded" "Resource added."
    ∷ entry "tenantDetail.editResourceIdentityTitle" "Edit resource"
    ∷ entry "tenantDetail.editResourceIdentityDescription"
        "Update the display name and the unique alias used by the Consumer API."
    ∷ entry "tenantDetail.resourceAlias" "Alias"
    ∷ entry "tenantDetail.resourceAliasHint"
        "Unique identifier used by the Consumer API, such as postgres.agility."
    ∷ entry "tenantDetail.resourceNameHint"
        "Readable name used to identify this instance in the console."
    ∷ entry "tenantDetail.resourceUpdated" "Name and alias updated."
    ∷ entry "tenantDetail.resourceDuplicated" "Resource duplicated as an independent copy."
    ∷ entry "tenantDetail.resourceFieldUpdated" "Field updated."
    ∷ entry "tenantDetail.resourceFieldInherited" "The field now inherits from the source again."
    ∷ entry "tenantDetail.resourceDetailsDescription"
        "Type {type} · alias {alias}. Review this resource's fields and values."
    ∷ entry "tenantDetail.resourceLinkedDescription"
        "Linked to {source}. Values without an override follow the source."
    ∷ entry "tenantDetail.resourceOrigin" "Value source"
    ∷ entry "tenantDetail.resourceRemoved" "Resource removed."
    ∷ entry "tenantDetail.resourceStatusActivated" "Resource reactivated."
    ∷ entry "tenantDetail.resourceStatusDeactivated" "Resource deactivated."
    ∷ entry "tenantDetail.resourceType" "Resource type"
    ∷ entry "tenantDetail.independent" "Independent"
    ∷ entry "tenantDetail.independentHint" "Values belong only to this resource."
    ∷ entry "tenantDetail.inheritPlaceholder" "Leave empty to inherit"
    ∷ entry "tenantDetail.inherited" "inherited"
    ∷ entry "tenantDetail.linked" "Linked"
    ∷ entry "tenantDetail.linkedHint"
        "Empty fields inherit the source; filled values are local overrides."
    ∷ entry "tenantDetail.linkTo" "Link to {alias}"
    ∷ entry "tenantDetail.resourcesTab" "Resources"
    ∷ entry "tenantDetail.resourcesSearch" "Search by name, type, or status..."
    ∷ entry "tenantDetail.secretsDisabled" "Secrets hidden."
    ∷ entry "tenantDetail.secretsEnabled" "Field-level reveal enabled."
    ∷ entry "tenantDetail.secretsColumn" "Secrets"
    ∷ entry "tenantDetail.useSource" "Use source value"
    ∷ entry "tenantDetail.secretCount.many" "{count} secrets"
    ∷ entry "tenantDetail.secretCount.one" "{count} secret"
    ∷ entry "tenantDetail.saveResource" "Save resource"
    ∷ entry "tenantDetail.selectResource" "Select..."
    ∷ entry "tenantDetail.updated" "Tenant updated."
    ∷ entry "tenants.create" "Create tenant"
    ∷ entry "tenants.description" "Clients and their domains."
    ∷ entry "tenants.empty" "No tenants found."
    ∷ entry "tenants.new" "New tenant"
    ∷ entry "tenants.newDialog.description"
        "Register a client. Domains and resources are added next."
    ∷ entry "tenants.newDialog.title" "New tenant"
    ∷ entry "tenants.search" "Search by name or slug..."
    ∷ entry "tenants.title" "Tenants"
    ∷ []
