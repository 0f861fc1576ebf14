-- ===== src/Http.antt =====
-- What the gateway uses of Go's net/http: headers, requests, and responses as the calls that a
-- handler makes on its ResponseWriter.
pub mod Canonical
pub mod Vary
use go_api_gateway.Prelude.{
  ℕ, ◌+◌, ◌/◌, ◌%◌, Bool, true, false, ◌&&◌, ◌||◌, Option, none, some, List, [], ◌∷◌, ◌++◌,
  if◌then◌else◌, ℤ, leb, ◌==◌, Text, codes,
}
use go_api_gateway.Prelude.Dict.{Dict, find, put, delete}
use go_api_gateway.Strings.{lower, upper}

-- `http.Header`, by canonical names.
abbrev pub Header : Type 0
Header = Dict (List Text)

abbrev pub one_of : ℕ → Text → Bool
one_of c [] = false
one_of c (x ∷ xs) = c == x || one_of c xs

-- A byte that a header name may hold.
abbrev pub is_token : ℕ → Bool
is_token c =
    (leb b'a' c && leb c b'z')
    || (leb b'A' c && leb c b'Z')
    || (leb b'0' c && leb c b'9')
    || one_of c (codes "!#$%&'*+-.^_`|~")

unfoldable pub all_token : Text → Bool
all_token [] = true
all_token (c ∷ s) = is_token c && all_token s

-- A letter is upper case at the start and behind a dash, else lower case.
unfoldable pub canonical_from : Bool → Text → Text
canonical_from start [] = []
canonical_from start (c ∷ s) = (if start then upper c else lower c) ∷ canonical_from (c == b'-') s

-- `textproto.CanonicalMIMEHeaderKey`.
unfoldable pub canonical : Text → Text
unfolding all_token canonical_from
canonical name = if all_token name then canonical_from true name else name

abbrev pub first_value : Option (List Text) → Text
first_value none = []
first_value (some []) = []
first_value (some (v ∷ vs)) = v

-- `Header.Get`: the first value only.
unfoldable pub header_get : Text → Header → Text
unfolding canonical find
header_get name h = first_value (find (canonical name) h)

abbrev pub values_or_nil : Option (List Text) → List Text
values_or_nil none = []
values_or_nil (some vs) = vs

unfoldable pub header_set : Text → Text → Header → Header
unfolding canonical put
header_set name v h = put (canonical name) (v ∷ []) h

unfoldable pub header_add : Text → Text → Header → Header
unfolding canonical put find
header_add name v h = put (canonical name) (values_or_nil (find (canonical name) h) ++ v ∷ []) h

unfoldable pub header_del : Text → Header → Header
unfolding canonical delete
header_del name h = delete (canonical name) h

-- The identity that JWTAuth stores in the context.
pub record Claims : Type 0 where
  pub subject : Text
  pub roles : List Text

-- `query` is `r.URL.Query()`; `body_limit` is that of an `http.MaxBytesReader` on the body; `claims`, `request_id` and `target` are the values of the context.
pub record Request : Type 0 where
  pub method : Text
  pub path : Text
  pub query : Dict (List Text)
  pub header : Header
  pub remote_addr : Text
  pub content_length : ℤ
  pub body_limit : Option ℤ
  pub claims : Option Claims
  pub request_id : Option Text
  pub target : Option Text

-- A call on the ResponseWriter or on its header.
pub data Action : Type 0 where
  set_header : (name value : Text) → Action
  add_header : (name value : Text) → Action
  del_header : (name : Text) → Action
  write_header : (code : ℕ) → Action
  write : (bytes : Text) → Action

-- What reaches the client: the status of the first `WriteHeader`, or 200 at the first `Write`, since
-- net/http ignores later ones, and the bytes of the body.
abbrev pub status_of : List Action → ℕ
status_of [] = 200
status_of (write_header code ∷ actions) = code
status_of (write b ∷ actions) = 200
status_of (set_header name v ∷ actions) = status_of actions
status_of (add_header name v ∷ actions) = status_of actions
status_of (del_header name ∷ actions) = status_of actions

abbrev pub body_of : List Action → Text
body_of [] = []
body_of (write b ∷ actions) = b ++ body_of actions
body_of (write_header code ∷ actions) = body_of actions
body_of (set_header name v ∷ actions) = body_of actions
body_of (add_header name v ∷ actions) = body_of actions
body_of (del_header name ∷ actions) = body_of actions

-- A header copied onto that of the response, value by value.
abbrev pub add_values : Text → List Text → List Action
add_values k [] = []
add_values k (v ∷ vs) = add_header k v ∷ add_values k vs

unfoldable pub add_all : Header → List Action
add_all [] = []
add_all ((k, vs) ∷ h) = add_values k vs ++ add_all h

-- A handler over the state `S` of what stands behind it.
abbrev pub Handler : Type 0 → Type 0
Handler S = Request → S → List Action × S

-- A byte of a JSON string as encoding/json writes it; bytes from 128 on are taken to be UTF-8.
abbrev pub hex_digit : ℕ → ℕ
hex_digit n = if leb n 9 then n + b'0' else n + 87

unfoldable pub escape_byte : ℕ → Text
escape_byte c =
    if c == 34 || c == 92
    then 92 ∷ c ∷ []
    else (if c == 8
        then codes "\\b"
        else (if c == 9
            then codes "\\t"
            else (if c == 10
                then codes "\\n"
                else (if c == 12
                    then codes "\\f"
                    else (if c == 13
                        then codes "\\r"
                        else (if leb c 31 || c == b'<' || c == b'>' || c == b'&'
                            then codes "\\u00" ++ hex_digit (c / 16) ∷ hex_digit (c % 16) ∷ []
                            else c ∷ []))))))

unfoldable pub json_string : Text → Text
unfolding escape_byte
json_string [] = []
json_string (c ∷ s) = escape_byte c ++ json_string s

abbrev pub json_pair : Text × Text → Text
json_pair (k, v) = codes "\"" ++ (json_string k ++ (codes "\":\"" ++ (json_string v ++ codes "\"")))

unfoldable pub json_pairs : List (Text × Text) → Text
unfolding json_string
json_pairs [] = []
json_pairs (p ∷ []) = json_pair p
json_pairs (p ∷ q ∷ ps) = json_pair p ++ (codes "," ++ json_pairs (q ∷ ps))

-- `json.NewEncoder(w).Encode` of a `map[string]string`, whose keys are given in order.
unfoldable pub json_object : List (Text × Text) → Text
unfolding json_pairs
json_object ps = codes "{" ++ (json_pairs ps ++ codes "}\n")

-- The JSON errors of the gateway: content type, status and message.
abbrev pub json_error : ℕ → List (Text × Text) → List Action
json_error status ps =
    set_header (codes "Content-Type") (codes "application/json")
    ∷ write_header status
    ∷ write (json_object ps)
    ∷ []

abbrev pub error_message : Text → List (Text × Text)
error_message message = (codes "error", message) ∷ []
