-- ===== src/Upstreams.antt =====
-- upstream/orders/main.go and upstream/catalog/main.go: the two example services. What the database,
-- the decoding of a body and the encoding of a reply come to are parameters; the rules of the
-- validator are those of the tags of `orderCreate`.
pub mod Orders
pub mod Programs
pub mod Pool
pub mod ForSubject
use go_api_gateway.Prelude.{
  ℕ, zero, suc, ◌+◌, Bool, true, false, Option, none, some, List, [], ◌∷◌, ◌++◌, if◌then◌else◌, ite,
  ℤ, pos, negsuc, ltb_ℤ, leb_ℤ, Text, codes, text_eq, ◌*◌,
}
use go_api_gateway.Strings.{is_nil, atoi}
use go_api_gateway.Config.Types.{is_zero, seconds}
use go_api_gateway.Http.{
  Header, Request, Action, set_header, write_header, write, header_get, json_object, error_message,
}

-- `writeJSON`, with the message encoded.
abbrev pub write_json : ℕ → Text → List Action
write_json status body =
    set_header (codes "Content-Type") (codes "application/json")
    ∷ write_header status
    ∷ write body
    ∷ []

abbrev pub write_error : ℕ → Text → List Action
write_error status message = write_json status (json_object (error_message message))

abbrev pub healthz : List Action
healthz = write_header 200 ∷ []

-- What `QueryContext` comes to: an error, or the rows as `Scan` reads them, and whether `rows.Err` is
-- nil behind the last.
pub data Rows (A : Type 0) : Type 0 where
  query_failed : Rows A
  rows : (scanned : List (Option A)) (ended_well : Bool) → Rows A

abbrev pub prepend : {A : Type 0} → A → Option (List A) → Option (List A)
prepend a none = none
prepend a (some as_) = some (a ∷ as_)

-- The loop over `rows.Next`; it ends at the first row that cannot be read.
unfoldable pub scan_all : {A : Type 0} → List (Option A) → Option (List A)
scan_all [] = some []
scan_all (none ∷ scanned) = none
scan_all (some a ∷ scanned) = prepend a (scan_all scanned)

abbrev pub list_reply : {A : Type 0} → (List A → Text) → Bool → Option (List A) → List Action
list_reply encode true (some items) = write_json 200 (encode items)
list_reply encode _ _ = write_error 500 (codes "internal error")

-- A query, with the reply to it.
unfoldable pub get_list : {A : Type 0} → (List A → Text) → Rows A → List Action
unfolding scan_all
get_list encode query_failed = write_error 500 (codes "internal error")
get_list encode (rows scanned ended_well) = list_reply encode ended_well (scan_all scanned)

-- `GET /orders`, with the query for the orders of a user.
unfoldable pub get_orders : {A : Type 0} → (Text → Rows A) → (List A → Text) → Request → List Action
unfolding get_list header_get
get_orders query encode r = get_list encode (query (header_get (codes "X-User") r.header))

-- `GET /products`.
unfoldable pub get_products : {A : Type 0} → Rows A → (List A → Text) → List Action
unfolding get_list
get_products products encode = get_list encode products

-- What a query for one row comes to.
pub data Row (A : Type 0) : Type 0 where
  no_rows : Row A
  row_failed : Row A
  row : A → Row A

-- `GET /products/{id}`.
unfoldable pub get_product : {A : Type 0} → (A → Text) → Row A → List Action
get_product encode no_rows = write_error 404 (codes "product not found")
get_product encode row_failed = write_error 500 (codes "internal error")
get_product encode (row product) = write_json 200 (encode product)

pub record OrderCreate : Type 0 where
  pub product_id : ℤ
  pub quantity : ℤ

-- The first rule that is broken: the field and the tag.
unfoldable pub broken_rule : OrderCreate → Option (Text × Text)
broken_rule p =
    if is_zero p.product_id
    then some (codes "ProductID", codes "required")
    else (if leb_ℤ p.product_id (pos 0)
        then some (codes "ProductID", codes "gt")
        else (if is_zero p.quantity
            then some (codes "Quantity", codes "required")
            else (if ltb_ℤ p.quantity (pos 1)
                then some (codes "Quantity", codes "gte")
                else (if ltb_ℤ (pos 100) p.quantity
                    then some (codes "Quantity", codes "lte")
                    else none))))

-- `id` and `total_cents` of a new order.
pub record Created : Type 0 where
  pub id : ℤ
  pub total_cents : ℤ

abbrev pub created_reply : (Created → Text) → Row Created → List Action
created_reply encode no_rows = write_error 400 (codes "product not found")
created_reply encode row_failed = write_error 500 (codes "internal error")
created_reply encode (row c) = write_json 201 (encode c)

-- The INSERT of `POST /orders`: the user, the product and the quantity.
abbrev pub Insert : Type 0 → Type 0
Insert S = Text → ℤ → ℤ → S → S × Row Created

module _ {S : Type 0} (insert : Insert S) (encode : Created → Text) where
  abbrev pub insert_order : Text → OrderCreate → S → Option (Text × Text) → List Action × S
  insert_order user p s (some (field, tag)) =
      (write_error 400 (codes "invalid field " ++ (field ++ (codes ": " ++ tag))), s)
  insert_order user p s none =
      let (s', outcome) = insert user p.product_id p.quantity s in
      (created_reply encode outcome, s')

  -- `POST /orders`, over what decoding the body comes to.
  unfoldable pub post_order : Request → Option OrderCreate → S → List Action × S
  unfolding broken_rule header_get
  post_order r none s = (write_error 400 (codes "invalid request"), s)
  post_order r (some p) s = insert_order (header_get (codes "X-User") r.header) p s (broken_rule p)

-- `warmPool`, over the outcomes of `db.Conn`: how many connections are opened and closed again, and
-- whether all were. The capacity of a slice is not negative.
pub data Warmed : Type 0 where
  makeslice_panic : Warmed
  warmed : (opened closed : ℕ) (ok : Bool) → Warmed

unfoldable pub connect : (ℕ → Bool) → ℕ → ℕ → ℕ × Bool
connect works opened zero = (opened, true)
connect works opened (suc n) =
    let rest = connect works (opened + 1) n in if works opened then rest else (opened, false)

unfoldable pub warm_pool : (ℕ → Bool) → ℤ → Warmed
unfolding connect
warm_pool works (negsuc n) = makeslice_panic
warm_pool works (pos n) = let (opened, ok) = connect works 0 n in warmed opened opened ok

pub record PoolSettings : Type 0 where
  pub max_conns : ℤ
  pub conn_max_lifetime : ℤ

pub data OpenResult : Type 0 where
  invalid_max_conns invalid_lifetime open_failed pool_closed open_panic : OpenResult
  opened : PoolSettings → OpenResult

abbrev pub or_default : ℤ → Text → (Text → Option ℤ) → Option ℤ
or_default d [] parse = some d
or_default d (c ∷ v) parse = parse (c ∷ v)

abbrev pub pool_result : PoolSettings → Warmed → OpenResult
pool_result set makeslice_panic = open_panic
pool_result set (warmed o c true) = opened set
pool_result set (warmed o c false) = pool_closed

abbrev pub open_with : Bool → (ℕ → Bool) → Option ℤ → Option ℤ → OpenResult
open_with opens works none lifetime = invalid_max_conns
open_with opens works (some n) none = invalid_lifetime
open_with false works (some n) (some d) = open_failed
open_with true works (some n) (some d) =
    pool_result (record { max_conns = n; conn_max_lifetime = d }) (warm_pool works n)

-- `openDB`, over the two environment variables, `time.ParseDuration`, whether `sql.Open` succeeds, and
-- the outcomes of `db.Conn`.
unfoldable pub open_db : Text → Text → (Text → Option ℤ) → Bool → (ℕ → Bool) → OpenResult
unfolding warm_pool atoi
open_db max_conns lifetime parse_duration opens works =
    open_with opens works (or_default (pos 50) max_conns atoi)
      (or_default (seconds 1800) lifetime parse_duration)
