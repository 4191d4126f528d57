-- ===== src/I18n/Pt/Catalog.antt =====
-- web/src/lib/i18n.tsx: a part of ptBR.
use tenancit.Base.{List, [], ◌∷◌, Text}
use tenancit.I18n.Entry.{entry}

unfoldable pub pt_catalog : List (Text × Text)
pt_catalog =
    entry "definitions.create" "Criar definição"
    ∷ entry "definitions.description" "Catálogo de tipos de recurso e seus campos."
    ∷ entry "definitions.empty" "Nenhuma definição ainda."
    ∷ entry "definitions.emptyDescription" "Sem descrição."
    ∷ entry "definitions.footerCounts" "Campos: {fieldCount} · Segredos: {secretCount}"
    ∷ entry "definitions.new" "Nova definição"
    ∷ entry "definitions.newDialog.description"
        "Defina um tipo de recurso. Os campos são adicionados em seguida."
    ∷ entry "definitions.newDialog.title" "Nova definição"
    ∷ entry "definitions.title" "Definições de recurso"
    ∷ entry "errors.conflict"
        "Já existe um registro com esse valor. Verifique se não está duplicando."
    ∷ entry "errors.definitionInUse"
        "Esta definição ainda possui recursos vinculados. Remova ou migre esses recursos antes de excluí-la."
    ∷ entry "errors.forbidden" "Você não possui permissão para esta ação."
    ∷ entry "errors.generic" "Algo deu errado. Tente novamente."
    ∷ entry "errors.invalidData" "Dados inválidos. Revise os campos."
    ∷ entry "errors.notFound" "Registro não encontrado."
    ∷ entry "errors.precondition" "Os dados mudaram em outra sessão. Revise e tente novamente."
    ∷ entry "errors.server" "Erro no servidor. Tente novamente em instantes."
    ∷ entry "errors.timeout" "A solicitação demorou demais. Verifique a conexão e tente novamente."
    ∷ entry "nav.apiClients" "Chaves de API"
    ∷ entry "nav.usage" "Uso mensal"
    ∷ entry "nav.audit" "Auditoria"
    ∷ entry "nav.sessions" "Sessões ativas"
    ∷ entry "nav.settings" "Configurações"
    ∷ entry "nav.integrations" "Webhooks"
    ∷ entry "nav.health" "Saúde"
    ∷ entry "operationsHealth.component" "Componente"
    ∷ entry "operationsHealth.deadLetters" "Dead letters"
    ∷ entry "operationsHealth.deadLettersHint" "entregas que exigem intervenção"
    ∷ entry "operationsHealth.dependencies" "Dependências"
    ∷ entry "operationsHealth.dependenciesHint" "serviços externos monitorados"
    ∷ entry "operationsHealth.description"
        "Readiness síncrona, filas e evidências recentes de jobs operacionais."
    ∷ entry "operationsHealth.freshUntil" "Válido até"
    ∷ entry "operationsHealth.inFlight" "Entregas em trânsito"
    ∷ entry "operationsHealth.inFlightHint" "pendentes ou em nova tentativa"
    ∷ entry "operationsHealth.kind" "Tipo"
    ∷ entry "operationsHealth.kind.backup" "Backup"
    ∷ entry "operationsHealth.kind.migration" "Migração"
    ∷ entry "operationsHealth.kind.restore" "Restore"
    ∷ entry "operationsHealth.kind.rewrap" "Rewrap"
    ∷ entry "operationsHealth.latency" "Latência"
    ∷ entry "operationsHealth.noDependencies" "Nenhuma dependência configurada."
    ∷ entry "operationsHealth.noReports" "Nenhum report operacional recebido."
    ∷ entry "operationsHealth.occurredAt" "Executado em"
    ∷ entry "operationsHealth.overall" "Estado geral"
    ∷ entry "operationsHealth.overallHint" "readiness combinada das dependências"
    ∷ entry "operationsHealth.reports" "Reports operacionais"
    ∷ entry "operationsHealth.source" "Origem"
    ∷ entry "operationsHealth.status.degraded" "degradado"
    ∷ entry "operationsHealth.status.failed" "falhou"
    ∷ entry "operationsHealth.status.healthy" "saudável"
    ∷ entry "operationsHealth.status.stale" "desatualizado"
    ∷ entry "operationsHealth.status.unavailable" "indisponível"
    ∷ entry "operationsHealth.title" "Saúde operacional"
    ∷ entry "integrations.attempts" "Tentativas"
    ∷ entry "integrations.activeTargets" "Destinos ativos"
    ∷ entry "integrations.created" "Destino criado."
    ∷ entry "integrations.deliveries" "Entregas"
    ∷ entry "integrations.delivered" "Entregues"
    ∷ entry "integrations.deadLetters" "Dead letters"
    ∷ entry "integrations.description" "Webhooks assinados, tentativas e dead letters."
    ∷ entry "integrations.disable" "Desativar"
    ∷ entry "integrations.done" "Concluído"
    ∷ entry "integrations.emptyDeliveries" "Nenhuma entrega encontrada."
    ∷ entry "integrations.emptyTargets" "Nenhum destino configurado."
    ∷ entry "integrations.enable" "Ativar"
    ∷ entry "integrations.endpoint" "Endpoint"
    ∷ entry "integrations.event" "Evento"
    ∷ entry "integrations.format" "Formato"
    ∷ entry "integrations.formatGeneric" "Genérico"
    ∷ entry "integrations.inFlight" "Pendentes e retentativas"
    ∷ entry "integrations.name" "Nome"
    ∷ entry "integrations.new" "Novo webhook"
    ∷ entry "integrations.newDescription"
        "Cadastre um receiver HTTPS. URL completa e secret permanecem cifrados."
    ∷ entry "integrations.openCircuits" "{count} circuitos abertos"
    ∷ entry "integrations.replay" "Reprocessar entrega"
    ∷ entry "integrations.replayed" "Entrega reenfileirada."
    ∷ entry "integrations.searchDeliveries" "Buscar entregas…"
    ∷ entry "integrations.searchTargets" "Buscar destinos…"
    ∷ entry "integrations.secretDescription" "Copie agora. O secret não será exibido novamente."
    ∷ entry "integrations.secretTitle" "Signing secret gerado"
    ∷ entry "integrations.signingSecret" "Signing secret"
    ∷ entry "integrations.target" "Destino"
    ∷ entry "integrations.targets" "Destinos"
    ∷ entry "integrations.title" "Webhooks e integrações"
    ∷ entry "integrations.url" "URL do receiver"
    ∷ []
