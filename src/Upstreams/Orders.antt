-- ===== src/Upstreams/Orders.antt =====
-- Which orders upstream/orders/main.go takes, and for whom behind the gateway.
use go_api_gateway.Prelude.{
  ◌≡◌, refl, true, Option, none, some, pos, ltb_ℤ, leb_ℤ, Text, arith, Option-cases, inl, inr, ◌⊎◌,
  ◌↔◌, subst, sym, ◌∙◌,
}
use go_api_gateway.Http.{Request, Claims, status_of}
use go_api_gateway.Proxy.{inject_user_headers}
use go_api_gateway.Proxy.Outgoing.Identity.{inject_user_headers-Tells}
use go_api_gateway.Upstreams.{OrderCreate, broken_rule, Created, created_reply, Insert, post_order}

-- A product, and between 1 and 100 of it.
pub record IsOrderable (p : OrderCreate) : Type 0 where
  pub product : ltb_ℤ (pos 0) p.product_id ≡ true
  pub some_of_it : leb_ℤ (pos 1) p.quantity ≡ true
  pub few_enough : leb_ℤ p.quantity (pos 100) ≡ true

pub broken_rule_iff : (p : OrderCreate) → (broken_rule p ≡ none) ↔ IsOrderable p
unfolding broken_rule
broken_rule_iff p = (λ e. ground arith, λ o. ground arith)

-- The request as the gateway sends it on for an identity.
abbrev pub forwarded : Request → Claims → Request
forwarded r c = record r { header = inject_user_headers (some c) r.header }

module _ {S : Type 0} (insert : Insert S) (encode : Created → Text) where
  -- Of a request that the gateway sends on for an identity, an order is inserted exactly if its body
  -- can be decoded, names a product and asks for 1 to 100 of it, and then for the subject of that
  -- identity, whatever `X-User` the client sent; the reply tells what came of it. Any other request
  -- gets a 400, and the database is not asked.
  pub post_order_lem :
      (r : Request) (c : Claims) (payload : Option OrderCreate) (s : S)
      → ((p : OrderCreate) × (payload ≡ some p)
          × IsOrderable p
          × (post_order insert encode (forwarded r c) payload s ≡ (
            created_reply encode (insert c.subject p.product_id p.quantity s).1,
            (insert c.subject p.product_id p.quantity s).0,
          )))
        ⊎ (((p : OrderCreate) → payload ≡ some p → IsOrderable p → ⊥)
            × (status_of (post_order insert encode (forwarded r c) payload s).0 ≡ 400)
            × ((post_order insert encode (forwarded r c) payload s).1 ≡ s))
  unfolding post_order
  post_order_lem r c none s = inr (λ p e o. absurd (let q : none ≡ some p = e in cc), refl, refl)
  post_order_lem r c (some p) s = elim (Option-cases (broken_rule p)) [
    | inl kept ↦ inl (
      p,
      refl,
      (broken_rule_iff p).0 kept,
      rw (kept, (inject_user_headers-Tells c r.header).user_is) refl,
    )
    | inr (rule, breaks) ↦ inr (
      λ q e o. absurd (
          let same : p ≡ q = cc in
          let kept : broken_rule p ≡ none =
            (broken_rule_iff p).1 (subst IsOrderable (sym same) o) in
          let bad : none ≡ some rule = sym kept ∙ breaks in cc),
      rw breaks refl,
      rw breaks refl,
    )
  ]
