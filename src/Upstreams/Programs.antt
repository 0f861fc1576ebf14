-- ===== src/Upstreams/Programs.antt =====
-- `main` of upstream/orders/main.go and of upstream/catalog/main.go, which has copies of `writeJSON`,
-- `warmPool` and `openDB`. The signals and the HTTP server are the library's: the server fails, or a
-- signal ends it. Logging is left out.
use go_api_gateway.Prelude.{ℕ, Bool, List, [], ◌∷◌, Option, ℤ, Text, codes}
use go_api_gateway.Http.{Action}
use go_api_gateway.Process.{Ending, listen_failed, signalled}
use go_api_gateway.Upstreams.{
  Warmed, OpenResult, pool_closed, open_panic, opened, write_json, warm_pool, open_db,
}

-- What the program does that is seen outside, in order.
pub data Event : Type 0 where
  serving : (addr : Text) → Event
  server_shut : Event
  db_closed : Event

abbrev pub address : Text → Text
address [] = codes ":8080"
address (c ∷ port) = b':' ∷ c ∷ port

-- Behind `openDB`: a server that fails calls `os.Exit`, which skips the deferred `Close`.
abbrev pub serve : Text → Ending → List Event × ℕ
serve port listen_failed = (serving (address port) ∷ [], 1)
serve port signalled = (serving (address port) ∷ server_shut ∷ db_closed ∷ [], 0)

-- The exit code of an unrecovered panic is 2.
abbrev pub with_db : Text → Ending → OpenResult → List Event × ℕ
with_db port ending (opened settings) = serve port ending
with_db port ending pool_closed = (db_closed ∷ [], 1)
with_db port ending open_panic = ([], 2)
with_db port ending _ = ([], 1)

unfoldable pub orders_main :
    (max_conns lifetime : Text)
    → (Text → Option ℤ)
    → Bool
    → (ℕ → Bool)
    → (port : Text) → Ending
    → List Event × ℕ
unfolding open_db
orders_main max_conns lifetime parse_duration opens works port ending =
    with_db port ending (open_db max_conns lifetime parse_duration opens works)

-- The copies in the catalog.
abbrev pub catalog_write_json : ℕ → Text → List Action
catalog_write_json = write_json

abbrev pub catalog_warm_pool : (ℕ → Bool) → ℤ → Warmed
catalog_warm_pool = warm_pool

abbrev pub catalog_open_db : Text → Text → (Text → Option ℤ) → Bool → (ℕ → Bool) → OpenResult
catalog_open_db = open_db

unfoldable pub catalog_main :
    (max_conns lifetime : Text)
    → (Text → Option ℤ)
    → Bool
    → (ℕ → Bool)
    → (port : Text) → Ending
    → List Event × ℕ
catalog_main max_conns lifetime parse_duration opens works port ending =
    with_db port ending (catalog_open_db max_conns lifetime parse_duration opens works)
