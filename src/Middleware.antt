-- ===== src/Middleware.antt =====
-- internal/middleware/recoverer.go, maxbody.go, requestid.go and concurrencylimit.go: middleware that
-- every request passes. A handler may panic here.
pub mod Recovery
pub mod Uuid
pub mod Semaphore
use Prim.Native.Nat.{bit_and, bit_or}
use go_api_gateway.Prelude.{
  ℕ, zero, suc, ◌+◌, ◌-◌, ◌/◌, ◌%◌, Bool, true, false, Option, none, some, List, [], ◌∷◌, ◌++◌,
  if◌then◌else◌, ℤ, pos, ltb_ℤ, leb_ℤ, Text, codes, length, take, drop, ltb,
}
use go_api_gateway.Http.{
  Request, Action, set_header, write_header, write, Handler, json_error, json_object, error_message,
  hex_digit,
}

-- The calls that a handler makes, up to its panic if there is one.
pub record Reply : Type 0 where
  pub actions : List Action
  pub panic : Option Text

abbrev pub Panicky : Type 0 → Type 0
Panicky S = Request → S → Reply × S

abbrev pub returned : List Action → Reply
returned actions = record { actions = actions; panic = none }

-- A handler that does not panic.
abbrev pub calm : {S : Type 0} → Handler S → Panicky S
calm next r s = let (actions, s') = next r s in (returned actions, s')

abbrev pub before : List Action → Reply → Reply
before actions reply = record reply { actions = actions ++ reply.actions }

abbrev pub server_error : List Action
server_error = json_error 500 (error_message (codes "internal server error"))

abbrev pub recover_from : List Action → Option Text → Reply
recover_from actions none = returned actions
recover_from actions (some v) = returned (actions ++ server_error)

module _ {S : Type 0} (next : Panicky S) where
  unfoldable pub recoverer : Panicky S
  recoverer r s = let (reply, s') = next r s in (recover_from reply.actions reply.panic, s')

  unfoldable pub max_body : ℤ → Panicky S
  max_body limit r s =
      if ltb_ℤ limit r.content_length
      then (returned (json_error 413 (error_message (codes "request body too large"))), s)
      else next (record r { body_limit = some limit }) s

  -- `RequestID` over the outcome of `newUUID`.
  unfoldable pub request_id : Option Text → Panicky S
  request_id none r s = (returned (write_header 500 ∷ []), s)
  request_id (some uuid) r s =
      let (reply, s') = next (record r { request_id = some uuid }) s in
      (before (set_header (codes "X-Request-ID") uuid ∷ []) reply, s')

-- `uuid[i] = f(uuid[i])`, within the slice.
unfoldable pub update_at : ℕ → (ℕ → ℕ) → List ℕ → List ℕ
update_at i f [] = []
update_at zero f (b ∷ bytes) = f b ∷ bytes
update_at (suc i) f (b ∷ bytes) = b ∷ update_at i f bytes

-- `%x` of a byte slice.
unfoldable pub hex : List ℕ → Text
hex [] = []
hex (b ∷ bytes) = hex_digit (b / 16) ∷ hex_digit (b % 16) ∷ hex bytes

-- `bytes[i:j]`.
abbrev pub slice : ℕ → ℕ → List ℕ → List ℕ
slice i j bytes = take (j - i) (drop i bytes)

unfoldable pub stamp : List ℕ → List ℕ
unfolding update_at
stamp bytes =
    update_at 8 (λ b. bit_or (bit_and b 0x3f) 0x80)
      (update_at 6 (λ b. bit_or (bit_and b 0x0f) 0x40) bytes)

unfoldable pub format_uuid : List ℕ → Text
unfolding hex
format_uuid u =
    hex (slice 0 4 u)
    ++ (codes "-"
        ++ (hex (slice 4 6 u)
            ++ (codes "-"
                ++ (hex (slice 6 8 u)
                    ++ (codes "-" ++ (hex (slice 8 10 u) ++ (codes "-" ++ hex (slice 10 16 u))))))))

-- `newUUID`, over what `rand.Read` gives.
unfoldable pub new_uuid : Option (List ℕ) → Option Text
unfolding stamp format_uuid
new_uuid none = none
new_uuid (some bytes) = some (format_uuid (stamp bytes))

-- The channel of `ConcurrencyLimit`: a send succeeds while there is room.
unfoldable pub acquire : ℕ → ℕ → ℕ × Bool
acquire limit slots = if ltb slots limit then (slots + 1, true) else (slots, false)

unfoldable pub release : ℕ → ℕ
release slots = slots - 1

abbrev pub overloaded : List Action
overloaded =
    set_header (codes "Content-Type") (codes "application/json")
    ∷ set_header (codes "Retry-After") (codes "1")
    ∷ write_header 503
    ∷ write (json_object (error_message (codes "server overloaded")))
    ∷ []

abbrev pub admitted_or_shed : {S : Type 0} → Panicky S → Request → S → Bool → Reply × S
admitted_or_shed next r s true = next r s
admitted_or_shed next r s false = (returned overloaded, s)

abbrev pub limited : {S : Type 0} → ℤ → ℕ → Panicky S → Panicky S
limited (pos (suc n)) slots next r s = admitted_or_shed next r s (acquire (suc n) slots).1
limited _ slots next r s = next r s

-- `ConcurrencyLimit` for one request, which finds `slots` others in the channel.
unfoldable pub concurrency_limit : {S : Type 0} → ℤ → ℕ → Panicky S → Panicky S
unfolding acquire
concurrency_limit limit slots next = limited limit slots next
