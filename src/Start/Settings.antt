-- ===== src/Start/Settings.antt =====
-- internal/config/config.go; the environment is a function.
use locker.Prelude.{Option, none, some, Text, codes}

pub record Config : Type 0 where
  pub db_host : Text
  pub db_port : Text
  pub db_user : Text
  pub db_password : Text
  pub db_name : Text
  pub port : Text
  pub jwt_secret : Text
  pub yookassa_shop_id : Text
  pub yookassa_api_key : Text
  pub environment : Text

-- `os.LookupEnv`.
abbrev pub Environment : Type 0
Environment = Text → Option Text

unfoldable pub get_env : Environment → Text → Text → Text
get_env env key default = elim (env key) [ none ↦ default | some v ↦ v ]

unfoldable pub new_config : Environment → Config
unfolding get_env
new_config env = record {
  db_host = get_env env (codes "DB_HOST") (codes "localhost");
  db_port = get_env env (codes "DB_PORT") (codes "5432");
  db_user = get_env env (codes "DB_USER") (codes "postgres");
  db_password = get_env env (codes "DB_PASSWORD") (codes "postgres");
  db_name = get_env env (codes "DB_NAME") (codes "locker");
  port = get_env env (codes "PORT") (codes "8080");
  jwt_secret = get_env env (codes "JWT_SECRET") (codes "dev-secret-key");
  yookassa_shop_id = get_env env (codes "YOOKASSA_SHOP_ID") (codes "");
  yookassa_api_key = get_env env (codes "YOOKASSA_API_KEY") (codes "");
  environment = get_env env (codes "ENVIRONMENT") (codes "development");
}
