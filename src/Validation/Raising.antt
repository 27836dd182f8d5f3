-- ===== src/Validation/Raising.antt =====
-- Behind the check of the timestamp, `validate_event` raises nothing.
use displayfab_smart_factory.Prelude.{◌≢◌, arith, refl}
use displayfab_smart_factory.Models.{Equipment, Db}
use displayfab_smart_factory.Schemas.{EquipmentEventIn}
use displayfab_smart_factory.Env.{Env}
use displayfab_smart_factory.Validation.{validate_process}
use displayfab_smart_factory.Validation.Guards.{
  Checked, pass, stop, overflow, ◌>>=◌, check_duplicate, required_fields, check_connection,
  check_running, check_step, known_lot, known_panel, check_product, check_recipe, check_busy,
  check_sequence, check_hold,
}

bind_overflow {ℓ κ} :
    {A : Type ℓ} {B : Type κ} (m : Checked A) (f : A → Checked B)
    → m ≢ overflow
    → ((a : A) → f a ≢ overflow)
    → (m >>= f) ≢ overflow
bind_overflow (pass a) f n k = k a
bind_overflow (stop c) f n k = λ h. cc
bind_overflow overflow f n k = λ h. n refl

module _ {F : Type 0} (env : Env F) (payload : EquipmentEventIn F) (eq : Equipment)
    (db : Db F) where
  pub validate_process-overflow : validate_process env payload eq db ≢ overflow
  unfolding validate_process check_duplicate required_fields check_connection check_running
      check_step known_lot known_panel check_product check_recipe check_busy check_sequence
      check_hold
  validate_process-overflow =
      bind_overflow (check_duplicate env payload db) _ (λ h. ground arith)
        λ _.
          bind_overflow (required_fields payload) _ (λ h. ground arith)
            λ fields.
              bind_overflow (check_connection eq) _ (λ h. ground arith)
                λ _.
                  bind_overflow (check_running eq) _ (λ h. ground arith)
                    λ _.
                      bind_overflow (check_step eq fields.step) _ (λ h. ground arith)
                        λ _.
                          bind_overflow (known_lot fields.lot_id db) _ (λ h. ground arith)
                            λ lot.
                              bind_overflow (known_panel fields.panel_id lot db) _
                                (λ h. ground arith)
                                λ panel.
                                  bind_overflow (check_product eq lot) _ (λ h. ground arith)
                                    λ _.
                                      bind_overflow (check_recipe eq payload.recipe_id) _
                                        (λ h. ground arith)
                                        λ _.
                                          bind_overflow (check_busy eq lot) _ (λ h. ground arith)
                                            λ _.
                                              bind_overflow
                                                (check_sequence lot panel fields.step db) _
                                                (λ h. ground arith)
                                                λ _.
                                                  bind_overflow (check_hold lot) _
                                                    (λ h. ground arith) λ _. λ h. cc
