-- ===== src/I18n/Pt/Access.antt =====
-- web/src/lib/i18n.tsx: a part of ptBR.
use tenancit.Base.{List, [], ◌∷◌, Text}
use tenancit.I18n.Entry.{entry}

unfoldable pub pt_access : List (Text × Text)
pt_access =
    entry "apiClients.actions" "Ações"
    ∷ entry "apiClients.clearSecretAccess.description"
        "Estas chaves chamam /v1/resolve, que retorna segredos descriptografados sobre TLS. O token só é exibido uma vez, na criação."
    ∷ entry "apiClients.clearSecretAccess.title" "Acesso a segredos em claro"
    ∷ entry "apiClients.copied" "Copiado"
    ∷ entry "apiClients.copy" "Copiar"
    ∷ entry "apiClients.copyFailed" "Não foi possível copiar. Selecione e copie manualmente."
    ∷ entry "apiClients.createdAt" "Criado em"
    ∷ entry "apiClients.description" "Chaves de serviço para consumo server-to-server."
    ∷ entry "apiClients.done" "Concluir"
    ∷ entry "apiClients.emptyActive" "Nenhuma chave ativa."
    ∷ entry "apiClients.generateToken" "Gerar token"
    ∷ entry "apiClients.help" "Ajuda"
    ∷ entry "apiClients.filters" "Filtros"
    ∷ entry "apiClients.helpTitle" "Como consumir chaves de API"
    ∷ entry "apiClients.loading" "Carregando chaves de API..."
    ∷ entry "apiClients.name" "Nome"
    ∷ entry "apiClients.scopes" "Permissões"
    ∷ entry "apiClients.scopeIdentify" "Identificar tenant"
    ∷ entry "apiClients.scopeIdentifyDescription"
        "Permite identificar o tenant, sem retornar recursos ou segredos."
    ∷ entry "apiClients.scopeResolve" "Resolver recursos"
    ∷ entry "apiClients.scopeResolveDescription"
        "Permite obter configurações, incluindo campos secretos descriptografados."
    ∷ entry "apiClients.scopeEvents" "Ler eventos"
    ∷ entry "apiClients.scopeEventsDescription"
        "Permite consumir o change feed sem acessar configurações ou secrets."
    ∷ entry "apiClients.scopeTenantList" "Listar tenants"
    ∷ entry "apiClients.scopeTenantListDescription"
        "Permite enumerar identidades de tenants (slug, nome, status) — nunca recursos ou secrets."
    ∷ entry "apiClients.scopeResourceWrite" "Escrever valores"
    ∷ entry "apiClients.scopeResourceWriteDescription"
        "Permite atualizar valores de campos NÃO-secretos de resources existentes."
    ∷ entry "apiClients.rpmLimit" "Limite por minuto"
    ∷ entry "apiClients.expiration" "Expiração"
    ∷ entry "apiClients.expirationDays" "{days} dias"
    ∷ entry "apiClients.lastUsed" "Último uso"
    ∷ entry "apiClients.filterStatus" "Filtrar por status"
    ∷ entry "apiClients.allStatuses" "Todos os status"
    ∷ entry "apiClients.filterScope" "Filtrar por permissão"
    ∷ entry "apiClients.allScopes" "Todas as permissões"
    ∷ entry "apiClients.expiringSoon" "Expira em 30 dias"
    ∷ entry "apiClients.inactive" "Inativa há 30 dias"
    ∷ entry "apiClients.rotate" "Rotacionar chave"
    ∷ entry "apiClients.rotated" "Chave rotacionada. Copie o novo token agora."
    ∷ entry "apiClients.updated" "Política da chave atualizada."
    ∷ entry "apiClients.deleted" "Chave removida."
    ∷ entry "apiClients.editTitle" "Editar chave de API"
    ∷ entry "apiClients.deleteTitle" "Remover chave de API"
    ∷ entry "apiClients.deleteDescription"
        "Remover permanentemente a chave revogada {name}? O histórico de uso e auditoria será preservado."
    ∷ entry "apiClients.new" "Nova chave"
    ∷ entry "apiClients.newDialog.description" "O token será exibido uma única vez após a criação."
    ∷ entry "apiClients.newDialog.title" "Nova chave de API"
    ∷ entry "apiClients.reactivate" "Reativar"
    ∷ entry "apiClients.revoke" "Revogar"
    ∷ entry "apiClients.search" "Buscar por nome, data ou status..."
    ∷ entry "apiClients.resolveSnippet.copy" "Copiar snippet"
    ∷ entry "apiClients.resolveSnippet.copied" "Snippet copiado"
    ∷ entry "apiClients.resolveSnippet.description"
        "Use uma chave ativa para identificar o tenant na borda sem acessar segredos; resolva a configuração no app pelo tenantId."
    ∷ entry "apiClients.resolveSnippet.edgeDescription"
        "A borda obtém apenas o slug do tenant; nenhum recurso ou segredo é retornado."
    ∷ entry "apiClients.resolveSnippet.edgeTitle" "1. Identificar na borda (sem segredos)"
    ∷ entry "apiClients.resolveSnippet.fullDescription"
        "Retorna todos os recursos ativos do tenant."
    ∷ entry "apiClients.resolveSnippet.fullTitle" "Tenant completo"
    ∷ entry "apiClients.resolveSnippet.resourceDescription"
        "Retorna apenas uma definição de recurso do tenant."
    ∷ entry "apiClients.resolveSnippet.resourceTitle" "Recurso específico"
    ∷ entry "apiClients.resolveSnippet.tenantIdDescription"
        "O app resolve pelo slug injetado e revalida com ETag sem armazenar o corpo secreto no cache HTTP."
    ∷ entry "apiClients.resolveSnippet.tenantIdTitle" "2. Resolver no app por tenantId"
    ∷ entry "apiClients.resolveSnippet.hostnameDescription"
        "Alternativa simples que resolve todos os recursos diretamente pelo hostname e retorna segredos."
    ∷ entry "apiClients.resolveSnippet.hostnameTitle" "Alternativa: resolver por hostname"
    ∷ entry "apiClients.resolveSnippet.title" "Exemplo de consumo"
    ∷ entry "apiClients.statusReactivated" "Chave reativada."
    ∷ entry "apiClients.statusRevoked" "Chave revogada."
    ∷ entry "apiClients.title" "Chaves de API"
    ∷ entry "apiClients.token" "Token"
    ∷ entry "apiClients.tokenGenerated.description"
        "Copie agora; não será possível visualizá-lo novamente."
    ∷ entry "apiClients.tokenGenerated.title" "Token gerado"
    ∷ entry "app.subtitle" "Console admin"
    ∷ entry "app.title" "Tenancit"
    ∷ entry "auth.description" "Informe o token administrativo do Tenancit."
    ∷ entry "auth.enter" "Entrar"
    ∷ entry "auth.hideToken" "Ocultar token"
    ∷ entry "auth.invalidToken"
        "Token inválido ou expirado. Informe um token administrativo válido."
    ∷ entry "auth.loading" "Verificando o acesso administrativo…"
    ∷ entry "auth.oidcDescription" "Entre com sua identidade corporativa."
    ∷ entry "auth.oidcEnter" "Entrar com SSO"
    ∷ entry "auth.oidcSession" "Sessão corporativa"
    ∷ entry "auth.requiredAccess" "Informe o token administrativo para acessar o painel."
    ∷ entry "auth.requiredContinue" "Informe o token administrativo para continuar."
    ∷ entry "auth.retry" "Tentar novamente"
    ∷ entry "auth.sessionExpired" "Sua sessão expirou. Entre novamente."
    ∷ entry "auth.showToken" "Mostrar token"
    ∷ entry "auth.sharedCredential" "Credencial administrativa"
    ∷ entry "auth.sharedToken" "Token compartilhado"
    ∷ entry "auth.title" "Acesso administrativo"
    ∷ entry "auth.token" "Token"
    ∷ entry "auth.unavailable" "Não foi possível verificar o modo de autenticação."
    ∷ []
