-- ===== src/Store/Mysql.antt =====
-- pkg/db/mysql/mysql.go: the client of a MySQL database.
--
-- gorm and database/sql are the parameter `Driver`: `Db` is gorm's handle, and `Pool` the pool of
-- connections under it with its settings.
use zerogame.Shared.{◌≡◌, refl, String, Option, none, some, if◌then◌else◌}
use zerogame.Shared.Int.{ℤ, pos, ltb_ℤ}
use zerogame.Store.Redis.{Result, ok, err, Duration}

pub record Config : Type 0 where
  pub dsn : String
  pub max_open_conns : ℤ
  pub max_idle_conns : ℤ
  pub max_lifetime_sec : Duration
  pub log_mode : ℤ

module _ (E Db Pool : Type 0) where
  pub record Driver : Type 0 where
    pub silent : ℤ
    pub open_db : String → ℤ → Result E Db
    pub sql_db : Db → Result E Pool
    pub set_max_open_conns : ℤ → Pool → Pool
    pub set_max_idle_conns : ℤ → Pool → Pool
    pub set_conn_max_lifetime : Duration → Pool → Pool
    pub ping : Pool → Option E
    pub close : Pool → Option E

  -- The three errors of `NewClient`, and gorm's own.
  pub data MysqlError : Type 0 where
    connect_failed instance_failed ping_failed library : E → MysqlError

  module _ (driver : Driver) where
    abbrev log_level : Config → ℤ
    log_level cfg = if ltb_ℤ (pos 0) cfg.log_mode then cfg.log_mode else driver.silent

    -- The three `if`s on the settings.
    unfoldable configured : Config → Pool → Pool
    configured cfg pool =
        let opened =
          if ltb_ℤ (pos 0) cfg.max_open_conns
          then driver.set_max_open_conns cfg.max_open_conns pool
          else pool in
        let idle =
          if ltb_ℤ (pos 0) cfg.max_idle_conns
          then driver.set_max_idle_conns cfg.max_idle_conns opened
          else opened in
        if ltb_ℤ (pos 0) cfg.max_lifetime_sec
        then driver.set_conn_max_lifetime cfg.max_lifetime_sec idle
        else idle

    abbrev pinged : Db → Option E → Result MysqlError Db
    pinged db none = ok db
    pinged db (some e) = err (ping_failed e)

    abbrev with_pool : Config → Db → Result E Pool → Result MysqlError Db
    with_pool cfg db (err e) = err (instance_failed e)
    with_pool cfg db (ok pool) = pinged db (driver.ping (configured cfg pool))

    abbrev with_db : Config → Result E Db → Result MysqlError Db
    with_db cfg (err e) = err (connect_failed e)
    with_db cfg (ok db) = with_pool cfg db (driver.sql_db db)

    unfoldable new_mysql_client : Config → Result MysqlError Db
    unfolding configured
    new_mysql_client cfg = with_db cfg (driver.open_db cfg.dsn (log_level cfg))

    abbrev shut : Result E Pool → Result MysqlError (Unit {0})
    shut (err e) = err (library e)
    shut (ok pool) = elim (driver.close pool) [ none ↦ ok tt | some e ↦ err (library e) ]

    unfoldable close_client : Db → Result MysqlError (Unit {0})
    close_client db = shut (driver.sql_db db)

    -- With a database that opens and has a pool, `NewClient` gives the client or the error of the
    -- ping, which comes after the settings.
    new_mysql_client_pings :
        (cfg : Config) (db : Db) (pool : Pool)
        → driver.open_db cfg.dsn (log_level cfg) ≡ ok db
        → driver.sql_db db ≡ ok pool
        → new_mysql_client cfg ≡ pinged db (driver.ping (configured cfg pool))
    unfolding new_mysql_client
    new_mysql_client_pings cfg db pool opens has = rw (opens, has) refl
