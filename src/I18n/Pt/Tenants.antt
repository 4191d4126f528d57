-- ===== src/I18n/Pt/Tenants.antt =====
-- web/src/lib/i18n.tsx: a part of ptBR.
use tenancit.Base.{List, [], ◌∷◌, Text}
use tenancit.I18n.Entry.{entry}

unfoldable pub pt_tenants : List (Text × Text)
pt_tenants =
    entry "tenantDetail.addDomain" "Adicionar domínio"
    ∷ entry "tenantDetail.addResource" "Adicionar recurso"
    ∷ entry "tenantDetail.addResourceDialog.description"
        "Escolha um tipo, defina um alias único e use valores próprios ou herde de outro recurso."
    ∷ entry "tenantDetail.addResourceDialog.empty" "Não há definições de recurso ativas."
    ∷ entry "tenantDetail.addResourceDialog.title" "Adicionar recurso"
    ∷ entry "tenantDetail.backToTenants" "Voltar para Tenants"
    ∷ entry "tenantDetail.confirmRemoveDomainDescription"
        "O hostname {hostname} deixará de resolver para este tenant imediatamente."
    ∷ entry "tenantDetail.confirmRemoveDomainTitle" "Remover domínio?"
    ∷ entry "tenantDetail.confirmRemoveResourceDescription"
        "O recurso {resourceName} será removido deste tenant. Aplicações consumidoras podem perder essa configuração."
    ∷ entry "tenantDetail.confirmRemoveResourceTitle" "Remover recurso?"
    ∷ entry "tenantDetail.deactivate" "Desativar"
    ∷ entry "tenantDetail.duplicate" "Duplicar"
    ∷ entry "tenantDetail.duplicateDescription"
        "Cria uma cópia independente com os valores efetivos atuais. Mudanças futuras no original não serão herdadas."
    ∷ entry "tenantDetail.duplicateHint"
        "Use um alias único para identificar a nova cópia independente."
    ∷ entry "tenantDetail.duplicateTitle" "Duplicar recurso"
    ∷ entry "tenantDetail.dangerZone.description"
        "A desativação é reversível. A exclusão abaixo é permanente e remove domínios, recursos e valores secretos."
    ∷ entry "tenantDetail.dangerZone.title" "Zona de perigo"
    ∷ entry "tenantDetail.deleteAction" "Excluir tenant permanentemente"
    ∷ entry "tenantDetail.deleteConfirm" "Excluir permanentemente"
    ∷ entry "tenantDetail.deleteDescription"
        "Esta ação não pode ser desfeita. O tenant {slug}, seus domínios, recursos e valores secretos serão removidos em cascata."
    ∷ entry "tenantDetail.deleteInputLabelPrefix" "Digite"
    ∷ entry "tenantDetail.deleteInputLabelSuffix" "para confirmar"
    ∷ entry "tenantDetail.deleteInputPlaceholder" "slug do tenant"
    ∷ entry "tenantDetail.deleteTitle" "Excluir tenant permanentemente?"
    ∷ entry "tenantDetail.deleted" "Tenant excluído permanentemente."
    ∷ entry "tenantDetail.domainAdded" "Domínio adicionado."
    ∷ entry "tenantDetail.domainRemoved" "Domínio removido."
    ∷ entry "tenantDetail.domainUpdated" "Domínio atualizado."
    ∷ entry "tenantDetail.domainsDescription" "Hostnames que resolvem para este tenant."
    ∷ entry "tenantDetail.domainsEmpty"
        "Nenhum domínio. Adicione ao menos um para resolver o tenant."
    ∷ entry "tenantDetail.domainsSearch" "Buscar por hostname..."
    ∷ entry "tenantDetail.editDomainDescription" "Altere o hostname que resolve para este tenant."
    ∷ entry "tenantDetail.editDomainTitle" "Renomear domínio"
    ∷ entry "tenantDetail.renameDomain" "Renomear"
    ∷ entry "tenantDetail.domainsTab" "Domínios"
    ∷ entry "tenantDetail.editDescription" "Atualize os dados do cliente."
    ∷ entry "tenantDetail.editFieldDescription"
        "Atualize o valor de {field}. Valores secretos não são preenchidos no formulário."
    ∷ entry "tenantDetail.editFieldTitle" "Editar campo"
    ∷ entry "tenantDetail.editTitle" "Editar tenant"
    ∷ entry "tenantDetail.enableSecretReveal" "Habilitar revelação de segredos"
    ∷ entry "tenantDetail.fieldsColumn" "Campos"
    ∷ entry "tenantDetail.fieldCount.many" "{count} campos"
    ∷ entry "tenantDetail.fieldCount.one" "{count} campo"
    ∷ entry "tenantDetail.headerDescription"
        "Identificador {slug}. Gerencie a configuração, os recursos e os domínios deste tenant."
    ∷ entry "tenantDetail.hideSecrets" "Ocultar segredos"
    ∷ entry "tenantDetail.loadError" "Não foi possível carregar o tenant."
    ∷ entry "tenantDetail.newDomainDescription" "Hostname exato que resolve para este tenant."
    ∷ entry "tenantDetail.newDomainTitle" "Adicionar domínio"
    ∷ entry "tenantDetail.noResource" "Nenhum recurso"
    ∷ entry "tenantDetail.noResourceDescription" "Este tenant ainda não tem recursos provisionados."
    ∷ entry "tenantDetail.notFound" "Tenant não encontrado."
    ∷ entry "tenantDetail.overviewTab" "Visão geral"
    ∷ entry "tenantDetail.reactivate" "Reativar"
    ∷ entry "tenantDetail.attention.description"
        "Pendências que afetam o consumo ou merecem revisão operacional."
    ∷ entry "tenantDetail.attention.emptyDescription"
        "Domínio, estado e recursos essenciais estão configurados."
    ∷ entry "tenantDetail.attention.emptyTitle" "Nenhuma pendência encontrada"
    ∷ entry "tenantDetail.attention.inactive_resources.description"
        "Recursos desativados não são retornados pela Consumer API."
    ∷ entry "tenantDetail.attention.inactive_resources.title" "{count} recurso(s) inativo(s)"
    ∷ entry "tenantDetail.attention.inactive_tenant.description"
        "Um tenant inativo não pode ser resolvido pelas aplicações consumidoras."
    ∷ entry "tenantDetail.attention.inactive_tenant.title" "Tenant inativo"
    ∷ entry "tenantDetail.attention.incomplete_resources.description"
        "Existem recursos com campos obrigatórios sem valor."
    ∷ entry "tenantDetail.attention.incomplete_resources.title"
        "{count} configuração(ões) incompleta(s)"
    ∷ entry "tenantDetail.attention.missing_active_resource.description"
        "Adicione ou reative um recurso para disponibilizar configuração ao consumidor."
    ∷ entry "tenantDetail.attention.missing_active_resource.title" "Nenhum recurso ativo"
    ∷ entry "tenantDetail.attention.missing_domain.description"
        "Sem hostname, a aplicação não consegue identificar este tenant por domínio."
    ∷ entry "tenantDetail.attention.missing_domain.title" "Nenhum domínio cadastrado"
    ∷ entry "tenantDetail.attention.title" "Itens que exigem atenção"
    ∷ entry "tenantDetail.readiness.attention" "Atenção"
    ∷ entry "tenantDetail.readiness.completeHint" "todos os campos obrigatórios estão preenchidos"
    ∷ entry "tenantDetail.readiness.domains" "Domínios"
    ∷ entry "tenantDetail.readiness.incomplete" "Incompleto"
    ∷ entry "tenantDetail.readiness.incompleteHint" "revise os campos obrigatórios ausentes"
    ∷ entry "tenantDetail.readiness.incompleteResources" "Configurações incompletas"
    ∷ entry "tenantDetail.readiness.missingDomain" "adicione um domínio"
    ∷ entry "tenantDetail.readiness.missingResource" "adicione um recurso ativo"
    ∷ entry "tenantDetail.readiness.ready" "Pronto"
    ∷ entry "tenantDetail.readiness.requirementsHint"
        "{count} de {total} requisitos essenciais atendidos"
    ∷ entry "tenantDetail.readiness.resources" "Recursos ativos/total"
    ∷ entry "tenantDetail.readiness.resourcesHint" "instâncias disponíveis para configuração"
    ∷ entry "tenantDetail.readiness.title" "Prontidão para consumo"
    ∷ entry "tenantDetail.resourceAdded" "Recurso adicionado."
    ∷ entry "tenantDetail.editResourceIdentityTitle" "Editar recurso"
    ∷ entry "tenantDetail.editResourceIdentityDescription"
        "Atualize o nome exibido e o alias único usado pela Consumer API."
    ∷ entry "tenantDetail.resourceAlias" "Alias"
    ∷ entry "tenantDetail.resourceAliasHint"
        "Identificador único usado pela Consumer API, como postgres.agility."
    ∷ entry "tenantDetail.resourceNameHint"
        "Nome legível para identificar esta instância no console."
    ∷ entry "tenantDetail.resourceUpdated" "Nome e alias atualizados."
    ∷ entry "tenantDetail.resourceDuplicated" "Recurso duplicado como cópia independente."
    ∷ entry "tenantDetail.resourceFieldUpdated" "Campo atualizado."
    ∷ entry "tenantDetail.resourceFieldInherited" "O campo voltou a herdar o valor da origem."
    ∷ entry "tenantDetail.resourceDetailsDescription"
        "Tipo {type} · alias {alias}. Consulte os campos e valores deste recurso."
    ∷ entry "tenantDetail.resourceLinkedDescription"
        "Vinculado a {source}. Valores sem override acompanham a origem."
    ∷ entry "tenantDetail.resourceOrigin" "Origem dos valores"
    ∷ entry "tenantDetail.resourceRemoved" "Recurso removido."
    ∷ entry "tenantDetail.resourceStatusActivated" "Recurso reativado."
    ∷ entry "tenantDetail.resourceStatusDeactivated" "Recurso desativado."
    ∷ entry "tenantDetail.resourceType" "Tipo de recurso"
    ∷ entry "tenantDetail.independent" "Independente"
    ∷ entry "tenantDetail.independentHint" "Os valores pertencem apenas a este recurso."
    ∷ entry "tenantDetail.inheritPlaceholder" "Deixe vazio para herdar"
    ∷ entry "tenantDetail.inherited" "herdado"
    ∷ entry "tenantDetail.linked" "Vinculado"
    ∷ entry "tenantDetail.linkedHint"
        "Campos vazios herdam a origem; valores preenchidos são overrides locais."
    ∷ entry "tenantDetail.linkTo" "Vincular a {alias}"
    ∷ entry "tenantDetail.resourcesTab" "Recursos"
    ∷ entry "tenantDetail.resourcesSearch" "Buscar por nome, tipo ou status..."
    ∷ entry "tenantDetail.secretsDisabled" "Segredos ocultados."
    ∷ entry "tenantDetail.secretsEnabled" "Revelação por campo habilitada."
    ∷ entry "tenantDetail.secretsColumn" "Segredos"
    ∷ entry "tenantDetail.useSource" "Usar valor da origem"
    ∷ entry "tenantDetail.secretCount.many" "{count} segredos"
    ∷ entry "tenantDetail.secretCount.one" "{count} segredo"
    ∷ entry "tenantDetail.saveResource" "Salvar recurso"
    ∷ entry "tenantDetail.selectResource" "Selecione..."
    ∷ entry "tenantDetail.updated" "Tenant atualizado."
    ∷ entry "tenants.create" "Criar tenant"
    ∷ entry "tenants.description" "Clientes e seus domínios."
    ∷ entry "tenants.empty" "Nenhum tenant encontrado."
    ∷ entry "tenants.new" "Novo tenant"
    ∷ entry "tenants.newDialog.description"
        "Cadastre um cliente. Domínios e recursos são adicionados em seguida."
    ∷ entry "tenants.newDialog.title" "Novo tenant"
    ∷ entry "tenants.search" "Buscar por nome ou slug..."
    ∷ entry "tenants.title" "Tenants"
    ∷ []
