-- ===== src/Alarms/Ids.antt =====
-- The numbers of the alarms: each alarm gets the number behind the newest one's, and no number twice.
use displayfab_smart_factory.Prelude.{
  ℕ, suc, ◌<◌, some, false, List, [], ◌∷◌, ◌++◌, ◌≡◌, refl, sym, ap, ◌∙◌, arith, any_of, ◌==◌,
  string_eq,
}
use displayfab_smart_factory.Models.{Alarm, Db}
use displayfab_smart_factory.Env.{Env}
use displayfab_smart_factory.Numerals.{decimal, strip_prefix}
use displayfab_smart_factory.Numerals.Reading.{read_decimal-decimal, strip_prefix-append}
use displayfab_smart_factory.Alarms.{
  newest, alarm_number, next_alarm_number, alarm_text, next_alarm_id, AlarmRequest, new_alarm,
  create_alarm,
}

-- the alarms have row ids below `serial` and texts with numbers below `bound`
abbrev pub AreBelow : ℕ → ℕ → List Alarm → Type 0
AreBelow bound serial [] = Unit
AreBelow bound serial (a ∷ rest) =
    (a.id < serial)
    × ((j : ℕ) × (a.alarm_id ≡ alarm_text j) × (j < bound))
    × AreBelow bound serial rest

AreBelow-weaken :
    (b s : ℕ) (alarms : List Alarm) → AreBelow b s alarms → AreBelow (suc b) (suc s) alarms
AreBelow-weaken b s [] h = tt
AreBelow-weaken b s (a ∷ alarms) (h, (j, e, l), rest) =
    (omega arith, (j, e, omega arith), AreBelow-weaken b s alarms rest)

AreBelow-append :
    (b s : ℕ) (alarms : List Alarm) (a : Alarm)
    → AreBelow b s alarms
    → a.id < s
    → (j : ℕ) × (a.alarm_id ≡ alarm_text j) × (j < b)
    → AreBelow b s (alarms ++ a ∷ [])
AreBelow-append b s [] a h l k = (l, k, tt)
AreBelow-append b s (x ∷ alarms) a (h, j, rest) l k = (h, j, AreBelow-append b s alarms a rest l k)

newest-append :
    (b : ℕ) (alarms : List Alarm) (a : Alarm)
    → AreBelow b a.id alarms
    → newest (alarms ++ a ∷ []) ≡ some a
unfolding newest
newest-append b [] a h = refl
newest-append b (x ∷ alarms) a h = rw (newest-append b alarms a h.2, newest) (ground (arith, h.0))

read_alarm_text : (n : ℕ) → (strip_prefix "ALM-" (alarm_text n) ≡ some (decimal n))
unfolding alarm_text
read_alarm_text n = strip_prefix-append "ALM-" (decimal n)

alarm_text_injective : (m n : ℕ) → alarm_text m ≡ alarm_text n → m ≡ n
alarm_text_injective m n h =
    let e : some (decimal m) ≡ some (decimal n) =
      sym (read_alarm_text m) ∙ ap (strip_prefix "ALM-") h ∙ read_alarm_text n in
    cc (e, read_decimal-decimal m, read_decimal-decimal n)

number-alarm_text : (a : Alarm) (n : ℕ) → a.alarm_id ≡ alarm_text n → alarm_number a ≡ suc n
unfolding alarm_number
number-alarm_text a n h =
    ground (arith, ap (strip_prefix "ALM-") h, read_alarm_text n, read_decimal-decimal n)

unused_text :
    (b s : ℕ) (alarms : List Alarm)
    → AreBelow b s alarms
    → any_of (λ a. a.alarm_id == alarm_text b) alarms ≡ false
unfolding any_of
unused_text b s [] h = refl
unused_text b s (a ∷ alarms) (h, (j, e, l), rest) =
    ground (arith, alarm_text_injective j b, unused_text b s alarms rest)

module _ {F : Type 0} where
  abbrev pub IsNumbered : Db F → Type 0
  IsNumbered db = AreBelow (next_alarm_number db.alarms) db.serial db.alarms

  -- Where the alarms are numbered below the next number, alarms in a database with none, a new alarm gets
  -- a text that no alarm has, the numbers stay so, and the next number is one higher.
  pub create_alarm-IsNumbered :
      (env : Env F) (r : AlarmRequest) (db : Db F)
      → IsNumbered db
      → (any_of (λ a. a.alarm_id == (create_alarm env r db).0.alarm_id) db.alarms ≡ false)
        × (next_alarm_number (create_alarm env r db).1.alarms ≡ suc (next_alarm_number db.alarms))
        × IsNumbered (create_alarm env r db).1
  unfolding create_alarm next_alarm_id next_alarm_number new_alarm
  create_alarm-IsNumbered env r db h =
      let n = next_alarm_number db.alarms in
      let new = new_alarm env.now db.serial db.alarms r in
      let later = newest-append n db.alarms new h in
      let next : next_alarm_number (db.alarms ++ new ∷ []) ≡ suc n =
        rw (later, next_alarm_number) (number-alarm_text new n refl) in
      (
        unused_text n db.serial db.alarms h,
        next,
        rw next (
            AreBelow-append (suc n) (suc db.serial) db.alarms new
              (AreBelow-weaken n db.serial db.alarms h) (omega arith) (n, refl, omega arith)),
      )
