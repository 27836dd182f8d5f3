-- ===== src/Commands/Trips.antt =====
-- Commands that undo each other, and what a heartbeat does in between.
use displayfab_smart_factory.Prelude.{
  String, none, some, ◌≡◌, ◌≢◌, refl, ap, arith, find_first-update_where, ◌==◌, string_eq,
}
use displayfab_smart_factory.Enums.{LotStatus, lot_status_eq, equipment_status_eq}
use displayfab_smart_factory.Models.{Lot, Db}
use displayfab_smart_factory.Models.Tables.{get_lot, set_lot}
use displayfab_smart_factory.Schemas.{CommandIn}
use displayfab_smart_factory.Env.{Env}
use displayfab_smart_factory.Journal.{record_state_change}
use displayfab_smart_factory.Commands.Orders.{
  Verdict, held, resumed, resumed_lot, hold_lot, release_lot,
}

module _ {F : Type 0} (env : Env F) (payload : CommandIn) where
  -- what is found after an update of the lot that was found
  found_again :
      (id : String) (f : Lot → Lot) (db : Db F) (lot : Lot)
      → ((l : Lot) → (f l).id ≡ l.id)
      → get_lot id db ≡ some lot
      → get_lot id (set_lot lot.id f db) ≡ some (f lot)
  unfolding get_lot set_lot
  found_again id f db lot h g = ground (
    arith,
    find_first-update_where (λ (l : Lot). l.id == id) (λ l. l.id == lot.id) f db.lots
        (λ l. ap (λ i. i == id) (h l)),
  )

  module _ (id : String) (given : payload.lot_id ≡ some id) (is_name : id ≢ "") (db : Db F)
      (lot : Lot) (found : get_lot id db ≡ some lot) where
    hold_lot-done :
        lot.status ≢ LotStatus.complete
        → ((hold_lot env payload db).0 ≡ Verdict.done)
          × (get_lot id (hold_lot env payload db).1 ≡ some (held lot))
    unfolding hold_lot record_state_change get_lot set_lot
    hold_lot-done n =
        let again = found_again id held db lot (λ l. refl) found in (ground arith, ground arith)

    release_lot-done :
        lot.status ≡ LotStatus.hold
        → ((release_lot env payload db).0 ≡ Verdict.done)
          × (get_lot id (release_lot env payload db).1 ≡ some (resumed lot lot))
    unfolding release_lot record_state_change get_lot set_lot
    release_lot-done n =
        let again = found_again id (resumed lot) db lot (λ l. refl) found in
        (ground arith, ground arith)

  -- Where HOLD_LOT names a lot that is not COMPLETE, the lot is held, and RELEASE_LOT with the same
  -- request is then accepted too: the lot goes on as PROCESSING if it has had a step and waits
  -- otherwise, with no hold reason and its other fields as they were.
  pub hold_lot-release_lot :
      (id : String) (db : Db F) (lot : Lot)
      → payload.lot_id ≡ some id
      → id ≢ ""
      → get_lot id db ≡ some lot
      → lot.status ≢ LotStatus.complete
      → ((hold_lot env payload db).0 ≡ Verdict.done)
        × ((release_lot env payload (hold_lot env payload db).1).0 ≡ Verdict.done)
        × (get_lot id (release_lot env payload (hold_lot env payload db).1).1
            ≡ some (record lot { status = resumed_lot lot; hold_reason = none }))
  hold_lot-release_lot id db lot given is_name found n =
      let (first, now) = hold_lot-done id given is_name db lot found n in
      let (second, later) =
        release_lot-done id given is_name (hold_lot env payload db).1 (held lot) now refl in
      (first, second, later)
