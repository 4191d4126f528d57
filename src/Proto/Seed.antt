-- ===== src/Proto/Seed.antt =====
-- The example data of planning/tenancit/proto/routes/_data.js.
use tenancit.Base.{List, [], ◌∷◌, Bool, true, false, none, some, Text, codes}
use tenancit.Proto.Types.{Tenant, Field, Definition, ApiClient}

-- A field of a definition, by position.
abbrev field_of : (id key label data_type : Text) (required is_secret : Bool) → Field
field_of id key label data_type required is_secret = record {
  id = id;
  key = key;
  label = label;
  data_type = data_type;
  required = required;
  is_secret = is_secret;
}

unfoldable pub definitions : List Definition
definitions =
    record {
      id = codes "def-postgres";
      key = codes "postgres";
      name = codes "PostgreSQL Connection";
      status = codes "active";
      icon = codes "lucide:database";
      description = codes "Conexão de banco de dados PostgreSQL dedicada por tenant.";
      fields =
          field_of (codes "f1") (codes "host") (codes "Host") (codes "string") true false
          ∷ field_of (codes "f2") (codes "port") (codes "Porta") (codes "int") true false
          ∷ field_of (codes "f3") (codes "database") (codes "Database") (codes "string") true false
          ∷ field_of (codes "f4") (codes "username") (codes "Usuário") (codes "string") true false
          ∷ field_of (codes "f5") (codes "password") (codes "Senha") (codes "string") true true
          ∷ field_of (codes "f6") (codes "sslmode") (codes "SSL Mode") (codes "string") false false
          ∷ [];
    }
    ∷ record {
      id = codes "def-minio";
      key = codes "minio";
      name = codes "MinIO / S3 Bucket";
      status = codes "active";
      icon = codes "lucide:hard-drive";
      description = codes "Configuração de object storage (bucket + credenciais) por tenant.";
      fields =
          field_of (codes "m1") (codes "endpoint") (codes "Endpoint") (codes "string") true false
          ∷ field_of (codes "m2") (codes "bucket") (codes "Bucket") (codes "string") true false
          ∷ field_of (codes "m3") (codes "access_key") (codes "Access Key") (codes "string") true
              false
          ∷ field_of (codes "m4") (codes "secret_key") (codes "Secret Key") (codes "string") true
              true
          ∷ [];
    }
    ∷ record {
      id = codes "def-smtp";
      key = codes "smtp";
      name = codes "SMTP";
      status = codes "inactive";
      icon = codes "lucide:mail";
      description = codes "Servidor de e-mail por tenant.";
      fields =
          field_of (codes "s1") (codes "host") (codes "Host") (codes "string") true false
          ∷ field_of (codes "s2") (codes "username") (codes "Usuário") (codes "string") true false
          ∷ field_of (codes "s3") (codes "password") (codes "Senha") (codes "string") true true
          ∷ [];
    }
    ∷ []

unfoldable pub tenants : List Tenant
tenants =
    record {
      id = codes "t-acme";
      slug = codes "acme";
      name = codes "Acme Corp";
      status = codes "active";
      domains =
          record { id = codes "d1"; hostname = codes "app.acme.test" }
          ∷ record { id = codes "d2"; hostname = codes "portal.acme.test" }
          ∷ [];
      resources =
          record {
            id = codes "r1";
            definition_key = codes "postgres";
            definition_name = codes "PostgreSQL Connection";
            status = codes "active";
            values =
                (codes "host", some (codes "db.acme.example"))
                ∷ (codes "port", some (codes "5432"))
                ∷ (codes "database", some (codes "acme_prod"))
                ∷ (codes "username", some (codes "acme_app"))
                ∷ (codes "password", none)
                ∷ (codes "sslmode", some (codes "require"))
                ∷ [];
          }
          ∷ record {
            id = codes "r2";
            definition_key = codes "minio";
            definition_name = codes "MinIO / S3 Bucket";
            status = codes "active";
            values =
                (codes "endpoint", some (codes "https://s3.example.test"))
                ∷ (codes "bucket", some (codes "demo-acme-assets"))
                ∷ (codes "access_key", none)
                ∷ (codes "secret_key", none)
                ∷ [];
          }
          ∷ [];
    }
    ∷ record {
      id = codes "t-globex";
      slug = codes "globex";
      name = codes "Globex Ltda";
      status = codes "active";
      domains = record { id = codes "d3"; hostname = codes "portal.globex.test" } ∷ [];
      resources =
          record {
            id = codes "r3";
            definition_key = codes "postgres";
            definition_name = codes "PostgreSQL Connection";
            status = codes "active";
            values =
                (codes "host", some (codes "db.globex.example"))
                ∷ (codes "port", some (codes "5432"))
                ∷ (codes "database", some (codes "globex_prod"))
                ∷ (codes "username", some (codes "globex_app"))
                ∷ (codes "password", none)
                ∷ (codes "sslmode", some (codes "require"))
                ∷ [];
          }
          ∷ [];
    }
    ∷ record {
      id = codes "t-initech";
      slug = codes "initech";
      name = codes "Initech";
      status = codes "inactive";
      domains = record { id = codes "d4"; hostname = codes "app.initech.test" } ∷ [];
      resources = [];
    }
    ∷ []

unfoldable pub api_clients : List ApiClient
api_clients =
    record {
      id = codes "c1";
      name = codes "consumer-api";
      status = codes "active";
      key_preview = codes "rt_demo_••••••8f2a";
      created_at = codes "2026-04-12";
    }
    ∷ record {
      id = codes "c2";
      name = codes "billing-service";
      status = codes "active";
      key_preview = codes "rt_demo_••••••1c90";
      created_at = codes "2026-05-02";
    }
    ∷ record {
      id = codes "c3";
      name = codes "demo-importer";
      status = codes "revoked";
      key_preview = codes "rt_demo_••••••44de";
      created_at = codes "2026-01-20";
    }
    ∷ []
