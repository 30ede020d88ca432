-- ===== src/Pgwire/Catalog/Tables.antt =====
-- internal/pgwire/catalog.go, `pgClassLookup` and `pgAttributeLookup`: what is known of a cached table
-- and of a column of it. A number is given by its text.
use redash_wire.Common.{ℕ, ◌+◌, Bool, Option, none, some, List, [], ◌∷◌, length, choose}
use redash_wire.Common.Text.{Bytes, codes, equal, decimal, one_of}
use redash_wire.Redash.{SchemaTable}
use redash_wire.Pgwire.Catalog.Values.{Lookup}

abbrev pub first_table_oid : ℕ
first_table_oid = 16384

unfoldable pub table_oid : ℕ → ℕ
table_oid i = first_table_oid + i

-- A case of a switch on a key: its words, and the value.
abbrev when : Bytes → List Bytes → Bytes → Bool × Option Bytes
unfolding equal
when key words value = (one_of words key, some value)

unfoldable pub pg_class_lookup : ℕ → SchemaTable → Lookup
unfolding when table_oid decimal
pg_class_lookup i t key =
    choose
      (when key (codes "oid" ∷ codes "relfilenode" ∷ []) (decimal (table_oid i))
        ∷ when key
            (codes "relname" ∷ codes "regclass" ∷ codes "table_name" ∷ codes "tablename" ∷ [])
            t.name
        ∷ when key (codes "nspname" ∷ codes "table_schema" ∷ codes "schemaname" ∷ [])
            (codes "public")
        ∷ when key (codes "table_catalog" ∷ []) (codes "redash")
        ∷ when key (codes "table_type" ∷ []) (codes "BASE TABLE")
        ∷ when key (codes "relkind" ∷ []) (codes "r")
        ∷ when key (codes "relnamespace" ∷ []) (codes "2200")
        ∷ when key (codes "relowner" ∷ []) (codes "10")
        ∷ when key (codes "fn:pg_get_userbyid" ∷ codes "tableowner" ∷ []) (codes "redash")
        ∷ when key (codes "relam" ∷ []) (codes "2")
        ∷ when key (codes "amname" ∷ []) (codes "heap")
        ∷ when key (codes "relnatts" ∷ []) (decimal (length t.columns))
        ∷ when key (codes "reltuples" ∷ []) (codes "-1")
        ∷ when key
            (codes "relpages"
              ∷ codes "relchecks"
              ∷ codes "reltablespace"
              ∷ codes "reltoastrelid"
              ∷ codes "reloftype"
              ∷ [])
            (codes "0")
        ∷ when key (codes "relpersistence" ∷ []) (codes "p")
        ∷ when key (codes "relreplident" ∷ []) (codes "d")
        ∷ when key (codes "relispopulated" ∷ codes "fn:pg_table_is_visible" ∷ []) (codes "t")
        ∷ when key
            (codes "relhasindex"
              ∷ codes "relhasrules"
              ∷ codes "relhastriggers"
              ∷ codes "relrowsecurity"
              ∷ codes "relforcerowsecurity"
              ∷ codes "relhasoids"
              ∷ codes "relispartition"
              ∷ codes "relisshared"
              ∷ codes "relhassubclass"
              ∷ [])
            (codes "f")
        ∷ [])
      none

unfoldable pub pg_attribute_lookup : ℕ → SchemaTable → ℕ → Bytes → Lookup
unfolding when table_oid decimal pg_class_lookup
pg_attribute_lookup i t ordinal column key =
    choose
      (when key (codes "attname" ∷ codes "column_name" ∷ []) column
        ∷ when key (codes "attnum" ∷ codes "ordinal_position" ∷ []) (decimal ordinal)
        ∷ when key (codes "attrelid" ∷ []) (decimal (table_oid i))
        ∷ when key (codes "atttypid" ∷ []) (codes "25")
        ∷ when key
            (codes "fn:format_type"
              ∷ codes "typname"
              ∷ codes "data_type"
              ∷ codes "udt_name"
              ∷ codes "type_name"
              ∷ codes "column_type"
              ∷ [])
            (codes "text")
        ∷ when key (codes "atttypmod" ∷ codes "attlen" ∷ []) (codes "-1")
        ∷ when key (codes "attndims" ∷ codes "attinhcount" ∷ []) (codes "0")
        ∷ when key (codes "attcollation" ∷ []) (codes "100")
        ∷ when key (codes "attstorage" ∷ []) (codes "x")
        ∷ when key (codes "attalign" ∷ []) (codes "i")
        ∷ when key (codes "attidentity" ∷ codes "attgenerated" ∷ codes "attcompression" ∷ []) []
        ∷ when key
            (codes "attnotnull" ∷ codes "atthasdef" ∷ codes "attisdropped" ∷ codes "attbyval" ∷ [])
            (codes "f")
        ∷ when key (codes "attislocal" ∷ []) (codes "t")
        ∷ when key (codes "is_nullable" ∷ []) (codes "YES")
        ∷ [])
      (pg_class_lookup i t key)
