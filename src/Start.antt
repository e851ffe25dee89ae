-- ===== src/Start.antt =====
-- What `main` of cmd/api/main.go does before it serves: the settings, the database, the demo data, the
-- clean-up's timer. The routes are in Http/Routes, the middlewares in Observability. What the driver of
-- the database answers comes from outside; `some` is an error.
pub mod Settings
pub mod Cron
pub mod Url
pub mod Serving
use locker.Prelude.{ℕ, ◌*◌, Bool, Option, none, some, List, [], ◌∷◌, ◌++◌, Text, codes}
use locker.Prelude.Int.{ℤ, pos}
use locker.Store.{Db}
use locker.Service.Flow.{init}
use locker.Observability.Logger.{Payload, Logger, text, thing, info, error}
use locker.Start.Settings.{Config, Environment, new_config}

-- `sslmode=disable` and the five settings of the database.
unfoldable pub db_url : Config → Text
db_url c =
    codes "postgres://"
    ++ c.db_user
    ++ b':'
      ∷ (c.db_password
          ++ b'@'
            ∷ (c.db_host ++ b':' ∷ (c.db_port ++ b'/' ∷ (c.db_name ++ codes "?sslmode=disable"))))

pub record Driver : Type 0 where
  pub connect : Text → Option Text
  pub ping : Text → Option Text
  pub seed : Option Text

-- The server that listens: its address, the secret of the service that makes tokens and that of the
-- guard, the life of a token and the interval of the clean-up in nanoseconds.
pub record Server : Type 0 where
  pub address : Text
  pub token_secret : Text
  pub guard_secret : Text
  pub token_ttl : ℤ
  pub interval : ℤ
  pub db : Db

-- `log.Fatal` behind a line, or the server with the lines before it.
pub data Started : Type 0 where
  fatal : Payload → Started
  serving : Server → List Payload → Started

abbrev pub second : ℕ
second = 1000000000

abbrev pub server_of : Config → ℕ → Db → Server
server_of c now db = record {
  address = b':' ∷ c.port;
  token_secret = c.jwt_secret;
  guard_secret = c.jwt_secret;
  token_ttl = pos (3600 * second);
  interval = pos (60 * second);
  db = init now db;
}

unfoldable pub start : Driver → Text → Environment → ℕ → Db → Started
unfolding new_config db_url error info init
start d ts env now db =
    let c = new_config env in
    let l : Logger = record { env = c.environment; ts = ts } in
    elim (d.connect (db_url c)) [
      | some e ↦ fatal (error l (codes "failed to connect db") (thing e ∷ []))
      | none ↦ elim (d.ping (db_url c)) [
        | some e ↦ fatal (error l (codes "failed to ping db") (thing e ∷ []))
        | none ↦ elim d.seed [
          | some e ↦ fatal (error l (codes "failed to seed demo data") (thing e ∷ []))
          | none ↦ serving (server_of c now db) (
              info l (codes "expired selection cleanup started")
                (text (codes "interval") ∷ text (codes "1m0s") ∷ [])
              ∷ info l (codes "starting server on port") (text c.port ∷ [])
              ∷ [])
        ]
      ]
    ]
