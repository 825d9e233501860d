-- ===== src/Mapping/Databases.antt =====
-- `check_db_type`: datadog-opentelemetry-mappings/src/transform/otel_util.rs, with the names of
-- semconv_shim.rs.
use dd_trace_rs.Prelude.{[], ◌∷◌, unwrap_or}
use dd_trace_rs.Prelude.Text.{Bytes, codes}
use dd_trace_rs.Prelude.Dict.{Dict, lookup, bytes_eq}

-- The arms of `db_mapping!`, in their order.
abbrev pub db_mapping : Dict Bytes Bytes
db_mapping =
    (codes "other_sql", codes "sql")
    ∷ (codes "mssql", codes "sql")
    ∷ (codes "mysql", codes "sql")
    ∷ (codes "oracle", codes "sql")
    ∷ (codes "db2", codes "sql")
    ∷ (codes "postgresql", codes "sql")
    ∷ (codes "redshift", codes "sql")
    ∷ (codes "cloudscape", codes "sql")
    ∷ (codes "hsqldb", codes "sql")
    ∷ (codes "maxdb", codes "sql")
    ∷ (codes "ingres", codes "sql")
    ∷ (codes "firstsql", codes "sql")
    ∷ (codes "edb", codes "sql")
    ∷ (codes "cache", codes "sql")
    ∷ (codes "firebird", codes "sql")
    ∷ (codes "derby", codes "sql")
    ∷ (codes "informix", codes "sql")
    ∷ (codes "mariadb", codes "sql")
    ∷ (codes "sqlite", codes "sql")
    ∷ (codes "sybase", codes "sql")
    ∷ (codes "teradata", codes "sql")
    ∷ (codes "vertica", codes "sql")
    ∷ (codes "h2", codes "sql")
    ∷ (codes "coldfusion", codes "sql")
    ∷ (codes "cockroachdb", codes "sql")
    ∷ (codes "progress", codes "sql")
    ∷ (codes "hanadb", codes "sql")
    ∷ (codes "adabas", codes "sql")
    ∷ (codes "filemaker", codes "sql")
    ∷ (codes "instantdb", codes "sql")
    ∷ (codes "interbase", codes "sql")
    ∷ (codes "netezza", codes "sql")
    ∷ (codes "pervasive", codes "sql")
    ∷ (codes "pointbase", codes "sql")
    ∷ (codes "clickhouse", codes "sql")
    ∷ (codes "cassandra", codes "cassandra")
    ∷ (codes "redis", codes "redis")
    ∷ (codes "memcached", codes "memcached")
    ∷ (codes "mongodb", codes "mongodb")
    ∷ (codes "elasticsearch", codes "elasticsearch")
    ∷ (codes "opensearch", codes "opensearch")
    ∷ (codes "hive", codes "db")
    ∷ (codes "hbase", codes "db")
    ∷ (codes "neo4j", codes "db")
    ∷ (codes "couchbase", codes "db")
    ∷ (codes "couchdb", codes "db")
    ∷ (codes "cosmosdb", codes "db")
    ∷ (codes "dynamodb", codes "db")
    ∷ (codes "geode", codes "db")
    ∷ []

unfoldable pub check_db_type : Bytes → Bytes
unfolding lookup
check_db_type db_type = unwrap_or (codes "db") (lookup db_type db_mapping)
