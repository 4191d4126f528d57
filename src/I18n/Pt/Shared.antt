-- ===== src/I18n/Pt/Shared.antt =====
-- web/src/lib/i18n.tsx: a part of ptBR.
use tenancit.Base.{List, [], ◌∷◌, Text}
use tenancit.I18n.Entry.{entry}

unfoldable pub pt_shared : List (Text × Text)
pt_shared =
    entry "common.actions" "Ações"
    ∷ entry "common.add" "Adicionar"
    ∷ entry "common.back" "Voltar"
    ∷ entry "common.cancel" "Cancelar"
    ∷ entry "common.close" "Fechar"
    ∷ entry "common.create" "Criar"
    ∷ entry "common.description" "Descrição"
    ∷ entry "common.dismiss" "Dispensar"
    ∷ entry "common.edit" "Editar"
    ∷ entry "common.field" "Campo"
    ∷ entry "common.hide" "Ocultar"
    ∷ entry "common.hostname" "Hostname"
    ∷ entry "common.key" "Key"
    ∷ entry "common.label" "Label"
    ∷ entry "common.name" "Nome"
    ∷ entry "common.loading" "Carregando..."
    ∷ entry "common.remove" "Remover"
    ∷ entry "common.removeConfirm" "Remover"
    ∷ entry "common.review" "Revisar"
    ∷ entry "common.reveal" "Revelar"
    ∷ entry "common.save" "Salvar"
    ∷ entry "common.secret" "Segredo"
    ∷ entry "common.slug" "Slug"
    ∷ entry "common.status" "Status"
    ∷ entry "common.type" "Tipo"
    ∷ entry "common.value" "Valor"
    ∷ entry "validation.dateRange" "A data final deve ser posterior à data inicial."
    ∷ entry "validation.definitionKey"
        "Use até 63 caracteres: comece com uma letra minúscula e use apenas letras minúsculas, números, hífen ou sublinhado."
    ∷ entry "validation.boolean" "Use true ou false."
    ∷ entry "validation.hostname"
        "Use apenas labels DNS com letras, números e hífens, como app.exemplo.com."
    ∷ entry "validation.integer" "Informe um número inteiro, sem casas decimais."
    ∷ entry "validation.tenantSlug"
        "Use até 63 caracteres com letras minúsculas, números e hífens simples entre palavras."
    ∷ entry "validation.webhookURL"
        "Use uma URL HTTPS sem credenciais nem fragmento. HTTP é aceito apenas em localhost."
    ∷ entry "dataTable.firstPage" "Primeira página"
    ∷ entry "dataTable.item" "item"
    ∷ entry "dataTable.items" "itens"
    ∷ entry "dataTable.lastPage" "Última página"
    ∷ entry "dataTable.nextPage" "Próxima página"
    ∷ entry "dataTable.page" "Página"
    ∷ entry "dataTable.pageOf" "de"
    ∷ entry "dataTable.previousPage" "Página anterior"
    ∷ entry "dataTable.rowsPerPage" "Linhas por página"
    ∷ entry "dataTable.sortAsc" "Ordenar crescente"
    ∷ entry "dataTable.sortDesc" "Ordenar decrescente"
    ∷ entry "dataTable.sortReset" "Limpar ordenação"
    ∷ entry "dataTable.sort" "Ordenar"
    ∷ entry "dataTable.sortBy" "Ordenar por"
    ∷ entry "dataTable.ascending" "Crescente"
    ∷ entry "dataTable.descending" "Decrescente"
    ∷ entry "dataTable.columns" "Colunas"
    ∷ entry "dataTable.clearFilters" "Limpar filtros"
    ∷ entry "dataTable.resetPreferences" "Restaurar tabela"
    ∷ entry "dataTable.noResults" "Nenhum resultado."
    ∷ entry "definitionDetail.activate" "Ativar"
    ∷ entry "definitionDetail.addField" "Adicionar campo"
    ∷ entry "definitionDetail.back" "Voltar"
    ∷ entry "definitionDetail.dataTypeBool" "Booleano"
    ∷ entry "definitionDetail.dataTypeInt" "Inteiro"
    ∷ entry "definitionDetail.dataTypeString" "Texto"
    ∷ entry "definitionDetail.deactivate" "Desativar"
    ∷ entry "definitionDetail.emptyDescription"
        "Nenhum campo. Adicione os campos que compõem este recurso."
    ∷ entry "definitionDetail.editDescription"
        "Atualize o nome e a descrição. A chave técnica {key} permanece imutável."
    ∷ entry "definitionDetail.editFieldAction" "Editar campo {key}"
    ∷ entry "definitionDetail.editFieldDescription"
        "Atualize o label e a obrigatoriedade de {key}. Para alterar chave, tipo ou segredo, crie um novo campo e migre os valores."
    ∷ entry "definitionDetail.editFieldTitle" "Editar campo"
    ∷ entry "definitionDetail.editTitle" "Editar definição"
    ∷ entry "definitionDetail.fieldAdded" "Campo adicionado."
    ∷ entry "definitionDetail.fieldRemoved" "Campo removido."
    ∷ entry "definitionDetail.fieldUpdated" "Campo atualizado."
    ∷ entry "definitionDetail.fieldsDescription"
        "Definição dinâmica dos campos deste tipo de recurso."
    ∷ entry "definitionDetail.fieldsTitle" "Campos"
    ∷ entry "definitionDetail.loadError" "Não foi possível carregar a definição."
    ∷ entry "definitionDetail.newField" "Novo campo"
    ∷ entry "definitionDetail.newFieldDescription" "Adicione um campo a este tipo de recurso."
    ∷ entry "definitionDetail.notFound" "Definição não encontrada."
    ∷ entry "definitionDetail.open" "Abrir definição {name}"
    ∷ entry "definitionDetail.removeDescription"
        "A definição {name} será removida. A remoção não é permitida enquanto houver recursos vinculados."
    ∷ entry "definitionDetail.removeTitle" "Remover definição?"
    ∷ entry "definitionDetail.removed" "Definição removida."
    ∷ entry "definitionDetail.removeFieldDescription"
        "O campo {fieldKey} será removido desta definição. Isso pode afetar recursos e formulários que dependem dele."
    ∷ entry "definitionDetail.removeFieldTitle" "Remover campo?"
    ∷ entry "definitionDetail.requiredDescription" "Exigido na criação do recurso."
    ∷ entry "definitionDetail.requiredTitle" "Obrigatório"
    ∷ entry "definitionDetail.secretDescription" "Criptografado com AES-256-GCM."
    ∷ entry "definitionDetail.statusActivated" "Definição ativada."
    ∷ entry "definitionDetail.statusDeactivated" "Definição desativada."
    ∷ entry "definitionDetail.updated" "Definição atualizada."
    ∷ []
