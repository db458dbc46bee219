-- ===== src/Inventory/Carts.antt =====
-- services/inventory-service/service/service.go, Reserve: what a whole cart takes and what the
-- rollback of a failed cart gives back.
use faisalaffan_design_syste.Base.{
  ℕ, ◌+◌, String, ◌≡◌, ap, true, List, [], ◌∷◌, ◌++◌, arith, if◌then◌else◌, ◌==◌, nat_key,
  string_key, get_or,
}
use faisalaffan_design_syste.Base.Redis.{Redis}
use faisalaffan_design_syste.Inventory.{
  stock, Reservation, ReserveCode, sku_not_found, insufficient_stock, remaining, ReserveItem,
  ReservedItem, ReserveRequest, ReserveResponse, Result, ok, failed, repo_reserve, get_stock,
  after_item, reserve_items, response_of, reserve, default_ttl,
}
use faisalaffan_design_syste.Inventory.Holds.{Reserves, repo_reserve-Reserves}

-- How many pieces a cart asks for of the stock of a key, in a hub.
abbrev pub asked : String → String → List ReserveItem → ℕ
asked hub key [] = 0
asked hub key (item ∷ items) =
    (if stock hub item.sku == key then item.quantity else 0) + asked hub key items

module _ (redis : Redis String Reservation) (id : String) (req : ReserveRequest) (now : ℕ) where
  open redis use {R}

  -- `r'` has, of every stock, what the items ask for of it less than `r`.
  abbrev pub Takes : List ReserveItem → R → R → Type 0
  Takes items r r' =
      (h s : String)
      → get_stock redis h s r' + asked req.hub_id (stock h s) items ≡ get_stock redis h s r

  pub get_stock-same :
      (hub sku h s : String) (r : R)
      → (stock hub sku == stock h s) ≡ true
      → get_stock redis hub sku r ≡ get_stock redis h s r
  unfolding get_stock
  get_stock-same hub sku h s r e =
      ap (λ k. get_or (redis.get k r) 0) ((string_key.test_iff (stock hub sku) (stock h s)).0 e)

  after_item-Takes :
      (item : ReserveItem) (items : List ReserveItem) (done out : List ReservedItem) (r r' : R)
      (answer : R × ReserveCode)
      → Reserves redis req.hub_id item id r answer
      → ((done' : List ReservedItem) (r1 : R)
          → reserve_items redis id req now items done' r1 ≡ (r', ok out)
          → Takes items r1 r')
      → after_item redis id req.hub_id item done (reserve_items redis id req now items) answer
        ≡ (r', ok out)
      → Takes (item ∷ items) r r'
  unfolding after_item
  after_item-Takes item items done out r r' (r1, sku_not_found) h rest e = absurd (cc e)
  after_item-Takes item items done out r r' (r1, insufficient_stock n) h rest e = absurd (cc e)
  after_item-Takes item items done out r r' (r1, remaining n) h rest e = λ hub s.
      let left =
        rest (done ++ record { sku = item.sku; quantity = item.quantity; remaining = n } ∷ []) r1 e
          hub s in
      let same : (stock req.hub_id item.sku == stock hub s) ≡ true
          → get_stock redis req.hub_id item.sku r ≡ get_stock redis hub s r =
        get_stock-same req.hub_id item.sku hub s r in
      ground (arith, left, h.2 hub s, h.0, same)

  reserve_items-Takes :
      (items : List ReserveItem) (done out : List ReservedItem) (r r' : R)
      → reserve_items redis id req now items done r ≡ (r', ok out)
      → Takes items r r'
  unfolding reserve_items
  reserve_items-Takes [] done out r r' e =
      λ h s. ground (arith, ap (λ x. get_stock redis h s x.0) e)
  reserve_items-Takes (item ∷ items) done out r r' e =
      after_item-Takes item items done out r r'
        (repo_reserve redis req.hub_id item id req.user_id req.cart_id default_ttl now r)
        (repo_reserve-Reserves redis req.hub_id item id req.user_id req.cart_id default_ttl now r)
        (λ done' r1. reserve_items-Takes items done' out r1 r') e

  response-ok :
      (x : R × Result (List ReservedItem)) (r' : R) (out : ReserveResponse)
      → response_of redis id now x ≡ (r', ok out)
      → (items : List ReservedItem) × (x ≡ (r', ok items))
  response-ok (r1, ok items) r' out e = (items, ap (λ x. (x.0, ok items)) e)
  response-ok (r1, failed err) r' out e = absurd (cc e)

  -- What a successful Reserve has done: of every stock it takes exactly what the items of the cart ask
  -- for whose key is the key of that stock, however many they are, and nothing of any other.
  pub reserve-Takes :
      (r r' : R) (out : ReserveResponse)
      → reserve redis id req now r ≡ (r', ok out)
      → Takes req.items r r'
  unfolding reserve
  reserve-Takes r r' out e =
      let found = response-ok (reserve_items redis id req now req.items [] r) r' out e in
      reserve_items-Takes req.items [] found.0 r r' found.1
