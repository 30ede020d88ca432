-- ===== src/Tests.antt =====
-- The models at concrete inputs.
mod Sqltext
mod Redash
mod Client
mod Health
mod Pgwire
mod Proxy
mod Mysqlwire
mod MysqlQuery
mod Config
mod Catalog
mod Accept
mod Cli
