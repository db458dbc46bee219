-- ===== src/Inventory/Reaper.antt =====
-- services/inventory-service/repository/redis.go: ConfirmReservation.
use faisalaffan_design_syste.Base.{
  String, ◌≡◌, refl, ◌∙◌, ◌⊎◌, inl, inr, true, false, none, some, Option-cases, nat_key, string_key,
  ==-refl,
}
use faisalaffan_design_syste.Base.Redis.{Redis}
use faisalaffan_design_syste.Inventory.{
  Reservation, confirmed, get_stock, confirm_reservation, confirm_found,
}
use faisalaffan_design_syste.Inventory.Holds.{stock-hset}

module _ (redis : Redis String Reservation) where
  open redis use {R}

  -- ConfirmReservation succeeds on every reservation that is stored, a released or an expired one
  -- too, whose status it sets to confirmed with no change to a stock; it fails on an unknown id.
  pub confirm_reservation_cases :
      (id : String) (r : R)
      → ((redis.hgetall id r ≡ none) × (confirm_reservation redis id r ≡ (r, false)))
        ⊎ ((res : Reservation) × (redis.hgetall id r ≡ some res)
            × ((confirm_reservation redis id r).1 ≡ true)
            × (redis.hgetall id (confirm_reservation redis id r).0
                ≡ some (record res { status = confirmed }))
            × ((hub sku : String)
                → get_stock redis hub sku (confirm_reservation redis id r).0
                  ≡ get_stock redis hub sku r))
  unfolding confirm_reservation confirm_found
  confirm_reservation_cases id r = elim (Option-cases (redis.hgetall id r)) [
    | inl e ↦ inl (e, rw e refl)
    | inr (res, e) ↦ inr (
      res,
      e,
      rw e refl,
      rw e (redis.hgetall-hset id id (record res { status = confirmed }) r ∙ rw (==-refl id) refl),
      λ hub sku. rw e (stock-hset redis hub sku id (record res { status = confirmed }) r),
    )
  ]
