-- ===== src/Downtime/Single.antt =====
-- An equipment stands still for one reason at most once at a time.
use displayfab_smart_factory.Prelude.{
  ◌≤◌, String, Option, Bool, true, false, ◌&&◌, List, [], ◌∷◌, ◌≡◌, refl, arith, find_first,
  update_where, count_where, count_where-append, is_some, string_eq, Bool-cases, inl, inr,
  if◌then◌else◌,
}
use displayfab_smart_factory.Enums.{DowntimeReason, downtime_reason_eq}
use displayfab_smart_factory.Models.{EquipmentDowntime, Db}
use displayfab_smart_factory.Env.{Env}
use displayfab_smart_factory.Downtime.{
  is_running, is_running_for, is_named, started, ended, open_downtime, close_downtime,
}

module _ {A : Type 0} (p : A → Bool) where
  count_where-find_first : (xs : List A) → is_some (find_first p xs) ≡ false → count_where p xs ≡ 0
  unfolding find_first count_where
  count_where-find_first [] h = refl
  count_where-find_first (x ∷ xs) h = ground (arith, count_where-find_first xs)

  find_first-count_where : (xs : List A) → is_some (find_first p xs) ≡ true → 1 ≤ count_where p xs
  unfolding find_first count_where
  find_first-count_where [] h = absurd (cc)
  find_first-count_where (x ∷ xs) h = ground (arith, find_first-count_where xs)

  -- an update after which no row passes
  no_rows-update_where :
      (q : A → Bool) (f : A → A) (xs : List A)
      → ((x : A) → p (if q x then f x else x) ≡ false)
      → count_where p (update_where q f xs) ≡ 0
  unfolding update_where count_where
  no_rows-update_where q f [] h = refl
  no_rows-update_where q f (x ∷ xs) h = ground (arith, h x, no_rows-update_where q f xs h)

  -- an update after which fewer rows pass
  pub count_where-update_where_le :
      (q : A → Bool) (f : A → A) (xs : List A)
      → ((x : A) → q x ≡ true → p (f x) ≡ true → p x ≡ true)
      → count_where p (update_where q f xs) ≤ count_where p xs
  unfolding update_where count_where
  count_where-update_where_le q f [] h = omega arith
  count_where-update_where_le q f (x ∷ xs) h =
      ground (arith, h x, count_where-update_where_le q f xs h)

module _ {F : Type 0} where
  abbrev pub IsSingle : Db F → Type 0
  IsSingle db =
      (equipment_id : String) (reason : DowntimeReason)
      → count_where (is_running_for equipment_id reason) db.downtime ≤ 1

  module _ (env : Env F) (db : Db F) where
    -- Opening a downtime keeps at most one running row for each equipment and reason, and leaves one
    -- running for the equipment and the reason that it names.
    pub open_downtime-IsSingle :
        (equipment_id : String) (reason : DowntimeReason) (event_id : Option String)
        → IsSingle db
        → IsSingle (open_downtime env equipment_id reason event_id db)
          × (count_where
                (is_running_for equipment_id reason)
                (open_downtime env equipment_id reason event_id db).downtime
              ≡ 1)
    unfolding open_downtime count_where
    open_downtime-IsSingle equipment_id reason event_id s =
        let is_open = is_running_for equipment_id reason in
        elim (Bool-cases (is_some (find_first is_open db.downtime))) [
          | inl t ↦ (
            λ k r. ground (arith, s k r),
            ground (arith, s equipment_id reason, find_first-count_where is_open db.downtime t),
          )
          | inr f ↦
              let none_open = count_where-find_first is_open db.downtime f in
              let row = started env.now equipment_id reason event_id in
              (
                λ k r. ground (
                  arith,
                  s k r,
                  none_open,
                  count_where-append (is_running_for k r) db.downtime (row ∷ []),
                ),
                ground (arith, none_open, count_where-append is_open db.downtime (row ∷ [])),
              )
        ]

    -- Closing the downtime of an equipment keeps at most one running row for each equipment and
    -- reason.
    pub close_downtime-IsSingle :
        (equipment_id : String) (reasons : List DowntimeReason)
        → IsSingle db
        → IsSingle (close_downtime env equipment_id reasons db)
    unfolding close_downtime
    close_downtime-IsSingle equipment_id reasons s k r =
        let q =
          λ (row : EquipmentDowntime). is_running equipment_id row && is_named reasons row.reason in
        let fewer =
          count_where-update_where_le (is_running_for k r) q (ended env.now) db.downtime
            (λ x _ h. ground arith) in
        omega (arith, s k r)

    -- After closing the downtime of an equipment none of the reasons that were named, which are all
    -- where none was named, still runs for it, however many rows ran before.
    pub close_downtime-none_running :
        (equipment_id : String) (reasons : List DowntimeReason) (reason : DowntimeReason)
        → is_named reasons reason ≡ true
        → count_where
            (is_running_for equipment_id reason)
            (close_downtime env equipment_id reasons db).downtime
          ≡ 0
    unfolding close_downtime
    close_downtime-none_running equipment_id reasons reason named =
        let q =
          λ (row : EquipmentDowntime). is_running equipment_id row && is_named reasons row.reason in
        no_rows-update_where (is_running_for equipment_id reason) q (ended env.now) db.downtime
          (λ x. ground (arith, named))
