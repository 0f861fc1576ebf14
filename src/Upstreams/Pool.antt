-- ===== src/Upstreams/Pool.antt =====
-- What `openDB` and `warmPool` of upstream/orders/main.go and upstream/catalog/main.go come to.
use go_api_gateway.Prelude.{
  ℕ, zero, suc, ◌+◌, ◌≡◌, refl, sym, ap, ◌∙◌, ◌↔◌, Bool, true, false, Option, none, some, ℤ, pos,
  negsuc, Text, Bool-cases, inl, inr, if◌then◌else◌,
}
use go_api_gateway.Strings.{atoi}
use go_api_gateway.Config.Types.{seconds}
use go_api_gateway.Upstreams.{
  connect, warmed, warm_pool, PoolSettings, invalid_max_conns, invalid_lifetime, open_failed,
  pool_closed, open_panic, opened, or_default, pool_result, open_with, open_db,
}

-- Each of `n` calls of `db.Conn` behind the first `k` succeeds.
abbrev pub AllConnect : (ℕ → Bool) → ℕ → ℕ → Type 0
AllConnect works k zero = Unit
AllConnect works k (suc n) = (works k ≡ true) × AllConnect works (k + 1) n

connect_iff : (works : ℕ → Bool) (k n : ℕ) → ((connect works k n).1 ≡ true) ↔ AllConnect works k n
unfolding connect
connect_iff works k zero = (λ e. tt, λ h. refl)
connect_iff works k (suc n) = elim (Bool-cases (works k)) [
  | inl good ↦
      let (forth, back) = connect_iff works (k + 1) n in
      rw good (λ e. (refl, forth e), λ h. back h.1)
  | inr bad ↦ (
    λ e. absurd (
        let q : false ≡ true =
          sym (ap (λ b. (if b then connect works (k + 1) n else (k, false)).1) bad) ∙ e in
        cc),
    λ h. absurd (let q : true ≡ false = sym h.0 ∙ bad in cc),
  )
]

-- What it takes to open the pool with the settings: a maximum that is not negative and a lifetime,
-- each a default where its variable is empty, and every connection.
pub record Opens (works : ℕ → Bool) (opens : Bool) (a b : Option ℤ) (set : PoolSettings)
    : Type 0 where
  pub conns : ℕ
  pub max_conns : a ≡ some (pos conns)
  pub is_max : set.max_conns ≡ pos conns
  pub lifetime : b ≡ some set.conn_max_lifetime
  pub driver : opens ≡ true
  pub all_connect : AllConnect works 0 conns

-- What it takes to make `openDB` panic.
pub record Panics (opens : Bool) (a b : Option ℤ) : Type 0 where
  pub below : ℕ
  pub negative : a ≡ some (negsuc below)
  pub lifetime_ns : ℤ
  pub lifetime : b ≡ some lifetime_ns
  pub driver : opens ≡ true

module _ (works : ℕ → Bool) where
  pool_result_sound :
      (n k : ℕ) (d : ℤ) (ok : Bool) (set : PoolSettings)
      → pool_result (record { max_conns = pos n; conn_max_lifetime = d }) (warmed k k ok)
        ≡ opened set
      → (ok ≡ true) × (set ≡ record { max_conns = pos n; conn_max_lifetime = d })
  pool_result_sound n k d true set e =
      (refl, let q : record { max_conns = pos n; conn_max_lifetime = d } ≡ set = cc in sym q)
  pool_result_sound n k d false set e = absurd (let q : pool_closed ≡ opened set = e in cc)

  open_with_opened :
      (opens : Bool) (a b : Option ℤ) (set : PoolSettings)
      → open_with opens works a b ≡ opened set
      → Opens works opens a b set
  unfolding warm_pool
  open_with_opened opens none b set e = absurd (let q : invalid_max_conns ≡ opened set = e in cc)
  open_with_opened opens (some n) none set e =
      absurd (let q : invalid_lifetime ≡ opened set = e in cc)
  open_with_opened false (some n) (some d) set e =
      absurd (let q : open_failed ≡ opened set = e in cc)
  open_with_opened true (some (negsuc n)) (some d) set e =
      absurd (let q : open_panic ≡ opened set = e in cc)
  open_with_opened true (some (pos n)) (some d) set e =
      let (ok, same) = pool_result_sound n (connect works 0 n).0 d (connect works 0 n).1 set e in
      record {
        conns = n;
        max_conns = refl;
        is_max = ap (λ (p : PoolSettings). p.max_conns) same;
        lifetime = ap (λ (p : PoolSettings). some p.conn_max_lifetime) (sym same);
        driver = refl;
        all_connect = (connect_iff works 0 n).0 ok;
      }

  open_with_complete :
      (opens : Bool) (a b : Option ℤ) (set : PoolSettings)
      → Opens works opens a b set
      → open_with opens works a b ≡ opened set
  unfolding warm_pool
  open_with_complete opens a b set o =
      rw (o.max_conns, o.lifetime, o.driver, (connect_iff works 0 o.conns).1 o.all_connect)
        (ap (λ m. opened (record { max_conns = m; conn_max_lifetime = set.conn_max_lifetime }))
          (sym o.is_max))

  pool_result-no_panic :
      (set : PoolSettings) (o c : ℕ) (ok : Bool) → pool_result set (warmed o c ok) ≡ open_panic → ⊥
  pool_result-no_panic set o c true e = cc
  pool_result-no_panic set o c false e = cc

  open_with_panic :
      (opens : Bool) (a b : Option ℤ) → open_with opens works a b ≡ open_panic → Panics opens a b
  unfolding warm_pool
  open_with_panic opens none b e = absurd (let q : invalid_max_conns ≡ open_panic = e in cc)
  open_with_panic opens (some n) none e = absurd (let q : invalid_lifetime ≡ open_panic = e in cc)
  open_with_panic false (some n) (some d) e = absurd (let q : open_failed ≡ open_panic = e in cc)
  open_with_panic true (some (negsuc n)) (some d) e = record {
    below = n;
    negative = refl;
    lifetime_ns = d;
    lifetime = refl;
    driver = refl;
  }
  open_with_panic true (some (pos n)) (some d) e = absurd (
      pool_result-no_panic (record { max_conns = pos n; conn_max_lifetime = d })
        (connect works 0 n).0 (connect works 0 n).0 (connect works 0 n).1 e)

  open_with_negative :
      (opens : Bool) (a b : Option ℤ) → Panics opens a b → open_with opens works a b ≡ open_panic
  unfolding warm_pool
  open_with_negative opens a b p = rw (p.negative, p.lifetime, p.driver) refl

  module _ (max_conns lifetime : Text) (parse_duration : Text → Option ℤ) (opens : Bool) where
    -- `DB_MAX_CONNS` and `DB_CONN_MAX_LIFETIME` as `openDB` reads them, with 50 and half an hour for an
    -- empty one.
    abbrev pub max_read : Option ℤ
    max_read = or_default (pos 50) max_conns atoi

    abbrev pub lifetime_read : Option ℤ
    lifetime_read = or_default (seconds 1800) lifetime parse_duration

    -- `openDB` gives a pool exactly if `DB_MAX_CONNS`, by default 50, is an integer from 0 on,
    -- `DB_CONN_MAX_LIFETIME`, by default half an hour, is a duration, the driver opens, and each of as
    -- many calls of `db.Conn` succeeds; the pool has these two settings. It panics exactly if the first is
    -- a negative integer, and otherwise returns an error.
    pub open_db_iff :
        ((set : PoolSettings)
          → (open_db max_conns lifetime parse_duration opens works ≡ opened set)
            ↔ Opens works opens max_read lifetime_read set)
        × ((open_db max_conns lifetime parse_duration opens works ≡ open_panic)
            ↔ Panics opens max_read lifetime_read)
    unfolding open_db
    open_db_iff = (
      λ set. (
        open_with_opened opens max_read lifetime_read set,
        open_with_complete opens max_read lifetime_read set,
      ),
      (
        open_with_panic opens max_read lifetime_read,
        open_with_negative opens max_read lifetime_read,
      ),
    )
