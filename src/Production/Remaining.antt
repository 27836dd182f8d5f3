-- ===== src/Production/Remaining.antt =====
-- The glass that the close-out counts as remaining.
use displayfab_smart_factory.Prelude.{
  ℕ, ◌+◌, String, Bool, true, ◌&&◌, ◌||◌, not, List, [], ◌∷◌, ◌≡◌, refl, inl, inr, arith, length,
  count_where, all_of, truthy, get_or, ◌==◌, ◌/=◌, string_eq, nat_eq, Bool-cases, if◌then◌else◌,
}
use displayfab_smart_factory.Enums.{PanelStatus, ProductType, product_value, panel_status_eq}
use displayfab_smart_factory.Models.{Panel, WorkOrder, Db}
use displayfab_smart_factory.Env.{Env, day_start}
use displayfab_smart_factory.WorkOrders.{panels_of, count_status}
use displayfab_smart_factory.Production.{
  Bucket, product_bucket, judged, add_order, fill_from, fill_product, orders_since,
  today_production,
}

-- the glass is neither COMPLETE nor FAIL nor SCRAP
abbrev pub is_open_glass : Panel → Bool
is_open_glass p = not (
    p.status == PanelStatus.complete
    || p.status == PanelStatus.fail
    || p.status == PanelStatus.scrap)

count_judged :
    (ps : List Panel)
    → count_status PanelStatus.complete ps
        + count_status PanelStatus.fail ps
        + count_status PanelStatus.scrap ps
        + count_where is_open_glass ps
      ≡ length ps
unfolding count_where
count_judged [] = refl
count_judged (p ∷ ps) = ground (arith, count_judged ps)

module _ {F : Type 0} (db : Db F) where
  -- the lot of the order has as many glasses as the order asks for
  abbrev pub is_filled : WorkOrder → Bool
  is_filled o = truthy o.lot_id && length (panels_of (get_or o.lot_id "") db) == o.qty

  -- the open glass of the orders of a product
  unfoldable pub open_glass : String → List WorkOrder → ℕ
  open_glass product [] = 0
  open_glass product (o ∷ rest) =
      if o.product_type /= product
      then open_glass product rest
      else count_where is_open_glass (panels_of (get_or o.lot_id "") db) + open_glass product rest

  add_order-judged :
      (o : WorkOrder) (b : Bucket)
      → is_filled o ≡ true
      → (add_order o db b).target + judged b
        ≡ b.target
          + (judged (add_order o db b)
              + count_where is_open_glass (panels_of (get_or o.lot_id "") db))
  unfolding add_order
  add_order-judged o b h =
      let all = count_judged (panels_of (get_or o.lot_id "") db) in
      let qty : length (panels_of (get_or o.lot_id "") db) ≡ o.qty = ground arith in
      let given : truthy o.lot_id ≡ true = ground arith in rw given (omega (arith, all, qty))

  fill_from-judged :
      (product : String) (orders : List WorkOrder) (b : Bucket)
      → all_of is_filled orders ≡ true
      → (fill_from product orders db b).target + judged b
        ≡ b.target + (judged (fill_from product orders db b) + open_glass product orders)
  unfolding fill_from open_glass all_of
  fill_from-judged product [] b h = omega arith
  fill_from-judged product (o ∷ rest) b h = elim (Bool-cases (o.product_type /= product)) [
    | inl t ↦ rw (t, fill_from, open_glass) (fill_from-judged product rest b (ground arith))
    | inr f ↦
        let one = add_order-judged o b (ground arith) in
        let more = fill_from-judged product rest (add_order o db b) (ground arith) in
        rw (f, fill_from, open_glass) (omega (arith, one, more))
  ]

  -- Where the lot of each order of the day has as many glasses as the order asks for, the close-out's
  -- remaining glass is the glass of the OLED and the LCD orders that is neither COMPLETE nor FAIL
  -- nor SCRAP: the cut-off at 0 hides nothing.
  pub today_production-open_glass :
      (env : Env F) (text_le : String → String → Bool)
      → all_of is_filled (orders_since (day_start env.now) db) ≡ true
      → (today_production env text_le db).closeout.remaining
        ≡ open_glass (product_value ProductType.oled) (orders_since (day_start env.now) db)
          + open_glass (product_value ProductType.lcd) (orders_since (day_start env.now) db)
  unfolding today_production fill_product
  today_production-open_glass env text_le h =
      let orders = orders_since (day_start env.now) db in
      let oled = fill_from-judged (product_value ProductType.oled) orders product_bucket h in
      let lcd = fill_from-judged (product_value ProductType.lcd) orders product_bucket h in
      omega (arith, oled, lcd)
