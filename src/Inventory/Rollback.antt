-- ===== src/Inventory/Rollback.antt =====
-- services/inventory-service/service/service.go, Reserve on a cart that fails: what the rollback gives
-- back. All items of a cart share one reservation id, so one hash.
use faisalaffan_design_syste.Base.{
  ℕ, ◌+◌, String, ◌≡◌, refl, sym, ap, subst, ◌≢◌, true, false, some, List, ◌∷◌, arith,
  if◌then◌else◌, ◌==◌, nat_key, string_key, ==-refl, ==_of_ne,
}
use faisalaffan_design_syste.Base.Redis.{Redis}
use faisalaffan_design_syste.Inventory.{
  stock, Reservation, reserved, released, ReserveCode, insufficient_stock, remaining, ReserveItem,
  ReserveRequest, repo_reserve, repo_release, get_stock, release_all, after_item, reserve_items,
  reserve, default_ttl, is_reserved,
}
use text.Mathlib.TextLemmas.{append_cancel_left}
use faisalaffan_design_syste.Inventory.Carts.{get_stock-same}
use faisalaffan_design_syste.Inventory.Holds.{
  Reserves, Releases, repo_reserve-Reserves, repo_release-Releases,
}

-- Within a hub, the SKU is read off the key.
stock-inj : (hub x y : String) → stock hub x ≡ stock hub y → x ≡ y
unfolding stock
stock-inj hub x y e =
    append_cancel_left ":" x y (append_cancel_left hub _ _ (append_cancel_left "inv:stock:" _ _ e))

module _ (redis : Redis String Reservation) (id : String) where
  open redis use {R}

  release_held :
      (hub sku : String) (res : Reservation) (r : R)
      → redis.hgetall id r ≡ some res
      → res.status ≡ reserved
      → (redis.hgetall id (repo_release redis id hub sku r).0
          ≡ some (record res { status = released }))
        × ((h s : String)
            → get_stock redis h s (repo_release redis id hub sku r).0 ≡ (
                if stock hub sku == stock h s
                then get_stock redis hub sku r + res.quantity
                else get_stock redis h s r))
  release_held hub sku res r e e' =
      let all =
        subst (λ o. Releases redis id hub sku r o (repo_release redis id hub sku r)) e
          (repo_release-Releases redis id hub sku r) in
      let done = all.1 (ap is_reserved e') in (done.1, done.2)

  release_done :
      (hub sku : String) (res : Reservation) (r : R)
      → redis.hgetall id r ≡ some res
      → is_reserved res.status ≡ false
      → (repo_release redis id hub sku r).0 ≡ r
  release_done hub sku res r e e' =
      let all =
        subst (λ o. Releases redis id hub sku r o (repo_release redis id hub sku r)) e
          (repo_release-Releases redis id hub sku r) in
      (all.0 e').0

  module _ (req : ReserveRequest) (now : ℕ) where
    abbrev reserve_one : ReserveItem → R → R × ReserveCode
    reserve_one item r =
        repo_reserve redis req.hub_id item id req.user_id req.cart_id default_ttl now r

    held :
        (x : ReserveItem) (r r1 : R) (n : ℕ)
        → reserve_one x r ≡ (r1, remaining n)
        → Reserves redis req.hub_id x id r (r1, remaining n)
    held x r r1 n e =
        subst (Reserves redis req.hub_id x id r) e
          (repo_reserve-Reserves redis req.hub_id x id req.user_id req.cart_id default_ttl now r)

    -- A cart whose second item is short of stock leaves every stock, of every hub and SKU, as it was.
    pub rollback_one :
        (x y : ReserveItem) (rest : List ReserveItem) (r r1 : R) (n m : ℕ)
        → req.items ≡ x ∷ y ∷ rest
        → reserve_one x r ≡ (r1, remaining n)
        → reserve_one y r1 ≡ (r1, insufficient_stock m)
        → (h s : String)
        → get_stock redis h s (reserve redis id req now r).0 ≡ get_stock redis h s r
    unfolding reserve reserve_items after_item release_all
    rollback_one x y rest r r1 n m items e1 e2 h s =
        let fact = held x r r1 n e1 in
        let res = fact.3.0 in
        let back = release_held req.hub_id x.sku res r1 fact.3.1 fact.3.4 in
        let same : (stock req.hub_id x.sku == stock h s) ≡ true
            → get_stock redis req.hub_id x.sku r ≡ get_stock redis h s r =
          get_stock-same redis id req now req.hub_id x.sku h s r in
        rw items (
          rw e1 (
            rw e2 (
              ground (
                arith,
                back.1 h s,
                fact.2 h s,
                fact.2 req.hub_id x.sku,
                fact.0,
                fact.3.3,
                same,
                ==-refl (stock req.hub_id x.sku),
              ))))

    -- A cart of at least three items, the first two of different SKUs, whose third is short of stock:
    -- the rollback adds the quantity of the second item to the stock of the first and gives the second
    -- nothing back, since the second hold has overwritten the first under the id that they share.
    pub rollback_two :
        (x y z : ReserveItem) (rest : List ReserveItem) (r r1 r2 : R) (n n' m : ℕ)
        → req.items ≡ x ∷ y ∷ z ∷ rest
        → x.sku ≢ y.sku
        → reserve_one x r ≡ (r1, remaining n)
        → reserve_one y r1 ≡ (r2, remaining n')
        → reserve_one z r2 ≡ (r2, insufficient_stock m)
        → (get_stock redis req.hub_id x.sku (reserve redis id req now r).0 + x.quantity
            ≡ get_stock redis req.hub_id x.sku r + y.quantity)
          × (get_stock redis req.hub_id y.sku (reserve redis id req now r).0 + y.quantity
              ≡ get_stock redis req.hub_id y.sku r)
    unfolding reserve reserve_items after_item release_all
    rollback_two x y z rest r r1 r2 n n' m items ne e1 e2 e3 =
        let fx = held x r r1 n e1 in
        let fy = held y r1 r2 n' e2 in
        let res = fy.3.0 in
        let back = release_held req.hub_id x.sku res r2 fy.3.1 fy.3.4 in
        let stay =
          release_done req.hub_id y.sku (record res { status = released })
            (repo_release redis id req.hub_id x.sku r2).0 back.0 refl in
        rw items (
          rw e1 (
            rw e2 (
              rw e3 (
                rw stay (
                  ground (
                    arith,
                    back.1 req.hub_id x.sku,
                    fy.2 req.hub_id x.sku,
                    fx.2 req.hub_id x.sku,
                    fx.0,
                    fy.3.3,
                    ==-refl (stock req.hub_id x.sku),
                    ==_of_ne (stock req.hub_id y.sku) (stock req.hub_id x.sku)
                        (λ e. ne (sym (stock-inj req.hub_id y.sku x.sku e))),
                  ),
                  ground (
                    arith,
                    back.1 req.hub_id y.sku,
                    fy.2 req.hub_id y.sku,
                    fx.2 req.hub_id y.sku,
                    fy.0,
                    ==-refl (stock req.hub_id y.sku),
                    ==_of_ne (stock req.hub_id x.sku) (stock req.hub_id y.sku)
                        (λ e. ne (stock-inj req.hub_id x.sku y.sku e)),
                  ),
                )))))
