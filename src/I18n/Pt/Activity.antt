-- ===== src/I18n/Pt/Activity.antt =====
-- web/src/lib/i18n.tsx: a part of ptBR.
use tenancit.Base.{List, [], ◌∷◌, Text}
use tenancit.I18n.Entry.{entry}

unfoldable pub pt_activity : List (Text × Text)
pt_activity =
    entry "usage.title" "Uso das chaves de API"
    ∷ entry "usage.description" "Volume operacional agregado por chave, operação e dia UTC."
    ∷ entry "usage.month" "Mês"
    ∷ entry "usage.prevMonth" "Mês anterior"
    ∷ entry "usage.nextMonth" "Próximo mês"
    ∷ entry "usage.prevYear" "Ano anterior"
    ∷ entry "usage.nextYear" "Próximo ano"
    ∷ entry "usage.today" "Hoje"
    ∷ entry "usage.client" "Chave"
    ∷ entry "usage.allClients" "Todas as chaves"
    ∷ entry "usage.operation" "Operação"
    ∷ entry "usage.operationIdentify" "Identificação"
    ∷ entry "usage.operationResolve" "Resolução"
    ∷ entry "usage.allOperations" "Todas as operações"
    ∷ entry "usage.requests" "Requisições"
    ∷ entry "usage.requestsHint" "no período e filtros selecionados"
    ∷ entry "usage.errors" "Erros"
    ∷ entry "usage.errorsHint" "respostas HTTP 4xx e 5xx"
    ∷ entry "usage.limited" "Limitadas"
    ∷ entry "usage.limitedHint" "recusadas pelo limite de requisições"
    ∷ entry "usage.daily" "Uso diário"
    ∷ entry "usage.empty" "Nenhum uso registrado neste período."
    ∷ entry "audit.title" "Auditoria administrativa"
    ∷ entry "audit.description"
        "Trilha append-only das ações administrativas e revelações de segredos."
    ∷ entry "audit.action" "Ação"
    ∷ entry "audit.target" "Alvo"
    ∷ entry "audit.result" "Resultado"
    ∷ entry "audit.allResults" "Todos os resultados"
    ∷ entry "audit.actorNotice"
        "Enquanto o login usa o token compartilhado, a trilha identifica a credencial administrativa, não uma pessoa."
    ∷ entry "audit.when" "Quando"
    ∷ entry "audit.actor" "Ator"
    ∷ entry "audit.request" "Request ID"
    ∷ entry "audit.empty" "Nenhum evento encontrado."
    ∷ entry "audit.next" "Próxima página"
    ∷ entry "audit.previous" "Página anterior"
    ∷ entry "audit.applyFilters" "Aplicar filtros"
    ∷ entry "audit.export" "Exportar trilha"
    ∷ entry "audit.download" "Baixar uma vez"
    ∷ entry "audit.exportStatus" "Exportação: {status} · {rows} eventos"
    ∷ entry "audit.partitionHealth" "Partições até"
    ∷ entry "audit.overviewTab" "Visão geral"
    ∷ entry "audit.eventsTab" "Eventos"
    ∷ entry "audit.partitionHealthHint" "particionamento preparado até esta data"
    ∷ entry "audit.defaultRows" "Eventos no legado"
    ∷ entry "audit.defaultRowsHint" "eventos ainda na partição padrão"
    ∷ entry "audit.legalHolds" "Legal holds ativos"
    ∷ entry "audit.legalHoldsHint" "retenções que impedem o descarte"
    ∷ entry "audit.manageHolds" "Gerenciar legal holds"
    ∷ entry "audit.legalHoldDescription"
        "Preserve janelas sob investigação antes que a retenção remova partições."
    ∷ entry "audit.holdFrom" "Início"
    ∷ entry "audit.holdTo" "Fim"
    ∷ entry "audit.holdReason" "Motivo e referência"
    ∷ entry "audit.createHold" "Criar legal hold"
    ∷ entry "audit.releaseHold" "Liberar"
    ∷ entry "audit.holdReleased" "Liberado"
    ∷ entry "audit.noHolds" "Nenhum legal hold registrado."
    ∷ entry "nav.definitions" "Recursos"
    ∷ entry "nav.logout" "Sair"
    ∷ entry "nav.account" "Conta"
    ∷ entry "nav.management" "Gestão"
    ∷ entry "nav.operations" "Operação"
    ∷ entry "nav.security" "Segurança"
    ∷ entry "nav.system" "Sistema"
    ∷ []
