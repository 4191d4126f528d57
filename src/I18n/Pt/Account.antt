-- ===== src/I18n/Pt/Account.antt =====
-- web/src/lib/i18n.tsx: a part of ptBR.
use tenancit.Base.{List, [], ◌∷◌, Text}
use tenancit.I18n.Entry.{entry}

unfoldable pub pt_account : List (Text × Text)
pt_account =
    entry "sessions.current" "Atual"
    ∷ entry "sessions.description" "Revogue acessos individuais sem afetar a sessão atual."
    ∷ entry "sessions.empty" "Nenhuma sessão encontrada."
    ∷ entry "sessions.expires" "Expira em"
    ∷ entry "sessions.lastUsed" "Último uso"
    ∷ entry "sessions.principal" "Principal"
    ∷ entry "sessions.revoke" "Revogar sessão"
    ∷ entry "sessions.revokeDescription"
        "Revogar a sessão de {name}? O acesso será encerrado imediatamente."
    ∷ entry "sessions.revoked" "Sessão revogada."
    ∷ entry "sessions.revokeTitle" "Revogar sessão"
    ∷ entry "sessions.roles" "Papéis"
    ∷ entry "sessions.search" "Buscar por pessoa, subject ou issuer…"
    ∷ entry "sessions.status.active" "ativa"
    ∷ entry "sessions.status.expired" "expirada"
    ∷ entry "sessions.status.idle_expired" "inativa expirada"
    ∷ entry "sessions.status.revoked" "revogada"
    ∷ entry "sessions.title" "Sessões administrativas"
    ∷ entry "settings.description" "Políticas runtime não secretas, versionadas e auditadas."
    ∷ entry "settings.field.api_client_default_rpm" "RPM padrão de novas chaves"
    ∷ entry "settings.field.api_client_default_ttl_days" "Validade padrão de novas chaves (dias)"
    ∷ entry "settings.field.audit_retention_days" "Retenção da auditoria (dias)"
    ∷ entry "settings.field.default_locale" "Idioma padrão"
    ∷ entry "settings.field.session_absolute_hours" "Duração máxima da sessão (horas)"
    ∷ entry "settings.field.session_idle_minutes" "Inatividade máxima (minutos)"
    ∷ entry "settings.field.usage_retention_months" "Retenção de uso (meses)"
    ∷ entry "settings.field.webhook_delivery_retention_days" "Retenção de entregas webhook (dias)"
    ∷ entry "settings.field.outbox_event_retention_days" "Retenção do change feed (dias)"
    ∷ entry "settings.hint.api_client_default_rpm"
        "Sugestão aplicada ao formulário de criação; não altera chaves existentes."
    ∷ entry "settings.hint.api_client_default_ttl_days"
        "Sugestão para novas chaves; tokens existentes não são prorrogados."
    ∷ entry "settings.hint.audit_retention_days"
        "Política usada pelo job de retenção da trilha administrativa."
    ∷ entry "settings.hint.default_locale"
        "Preferência inicial quando o navegador ainda não escolheu um idioma."
    ∷ entry "settings.hint.session_absolute_hours"
        "Aplicada a novas sessões; nunca ultrapassada pela expiração por inatividade."
    ∷ entry "settings.hint.session_idle_minutes"
        "Reavaliada durante o uso e limitada pela duração absoluta."
    ∷ entry "settings.hint.usage_retention_months"
        "Aplicada pelo job UTC de retenção de telemetria."
    ∷ entry "settings.hint.webhook_delivery_retention_days"
        "Remove entregas concluídas e dead letters após a janela."
    ∷ entry "settings.hint.outbox_event_retention_days"
        "Remove eventos sem entregas pendentes após a janela."
    ∷ entry "settings.owner" "Responsável: {owner}"
    ∷ entry "settings.revision" "Revisão {revision}"
    ∷ entry "settings.saved" "Configurações salvas."
    ∷ entry "settings.saving" "Salvando…"
    ∷ entry "settings.section.apiClients" "Chaves de API"
    ∷ entry "settings.section.apiClientsDescription"
        "Defaults seguros para novas credenciais de serviço."
    ∷ entry "settings.section.console" "Console"
    ∷ entry "settings.section.consoleDescription"
        "Preferências iniciais da experiência administrativa."
    ∷ entry "settings.section.retention" "Retenção"
    ∷ entry "settings.section.retentionDescription"
        "Janelas explícitas para telemetria e auditoria."
    ∷ entry "settings.section.security" "Segurança"
    ∷ entry "settings.section.securityDescription" "Expiração e inatividade de sessões humanas."
    ∷ entry "settings.title" "Configurações operacionais"
    ∷ entry "nav.overview" "Visão geral"
    ∷ entry "nav.tenants" "Tenants"
    ∷ entry "overview.activeDefinitions" "Definições ativas"
    ∷ entry "overview.activeTenants" "Tenants ativos"
    ∷ entry "overview.authRequired" "Autenticação administrativa necessária."
    ∷ entry "overview.description" "Configuração multi-tenant de recursos por cliente."
    ∷ entry "overview.domainHint" "hostnames mapeados"
    ∷ entry "overview.domains" "Domínios"
    ∷ entry "overview.loadError" "Não foi possível carregar a visão geral."
    ∷ entry "overview.loading" "Carregando visão geral..."
    ∷ entry "overview.resourceCount" "{count} recursos"
    ∷ entry "overview.resourceHint" "instâncias ativas"
    ∷ entry "overview.resources" "Recursos provisionados"
    ∷ entry "overview.totalTenants" "{count} no total"
    ∷ entry "overview.typeHint" "tipos de recurso"
    ∷ entry "overview.title" "Visão geral"
    ∷ entry "overview.operationalHealth" "Saúde operacional"
    ∷ entry "overview.operationalHealthHint" "Postgres, Valkey e evidências operacionais"
    ∷ entry "overview.monthRequests" "Requisições no mês"
    ∷ entry "overview.monthRequestsHint" "todas as chaves, mês UTC atual"
    ∷ entry "overview.expiringKeys" "Chaves expirando"
    ∷ entry "overview.expiringKeysHint" "ativas com vencimento nos próximos 30 dias"
    ∷ entry "overview.deadLetters" "Dead letters"
    ∷ entry "overview.deadLettersHint" "entregas que exigem intervenção"
    ∷ entry "preferences.darkMode" "Ativar modo escuro"
    ∷ entry "preferences.language" "Idioma"
    ∷ entry "preferences.lightMode" "Ativar modo claro"
    ∷ entry "preferences.theme" "Tema"
    ∷ entry "preferences.theme.dark" "Escuro"
    ∷ entry "preferences.theme.light" "Claro"
    ∷ entry "preferences.theme.system" "Sistema"
    ∷ entry "status.active" "ativo"
    ∷ entry "status.inactive" "inativo"
    ∷ entry "status.revoked" "revogado"
    ∷ []
