-- ===== src/Ingestion/Growth.antt =====
-- How an event changes the lots, the glass and the process events: not at all, or by one admitted
-- event.
use displayfab_smart_factory.Prelude.{
  String, Option, none, some, Bool, true, List, [], ◌∷◌, ◌++◌, ◌≡◌, ◌⊎◌, inl, inr, refl, arith, ap,
  ◌∙◌, update_where, ◌==◌, string_eq,
}
use displayfab_smart_factory.Enums.{EventType, LotStatus, PanelStatus}
use displayfab_smart_factory.Models.{Panel, ProcessEvent, Db}
use displayfab_smart_factory.Models.Tables.{set_equipment, set_lot, set_panel}
use displayfab_smart_factory.Schemas.{EquipmentEventIn}
use displayfab_smart_factory.Env.{Env}
use displayfab_smart_factory.Fingerprint.{event_fingerprint}
use displayfab_smart_factory.Alarms.{create_alarm}
use displayfab_smart_factory.Journal.{record_state_change, write_event_log}
use displayfab_smart_factory.Validation.Guards.{CheckResult, rejection}
use displayfab_smart_factory.Validation.Admission.{Admitted, warnings}
use displayfab_smart_factory.Ingestion.Steps.{
  Outcome, Target, mark_seen, heartbeat_received, store_event, event_row, occupy, raise_checks,
  raise_inspect_fail, hold_of, is_inspect_fail,
}
use displayfab_smart_factory.Ingestion.Settle.{
  Settled, settled_lot, settle, settle_passed, lot_all_panels_complete,
}
use displayfab_smart_factory.Ingestion.Frames.{
  SameLine, SameLine-trans, mark_seen-SameLine, occupy-SameLine, raise_checks-SameLine,
  raise_inspect_fail-SameLine, process_events-settle_event, panels-settle_event, lots-settle_event,
}
use displayfab_smart_factory.Ingestion.Answers.{
  Answer, overflowed, forced, stopped, beat, stored, seen_target, ingest-Answer,
}
use displayfab_smart_factory.Ingestion.{
  overflows, ingest_event, forced_failure, reject_event, heartbeat_event, accept_event,
}

abbrev pub with_status : PanelStatus → Panel → Panel
with_status s row = record row { status = s }

module _ {F : Type 0} where
  pub record Unchanged (db db' : Db F) : Type 0 where
    pub lots : db'.lots ≡ db.lots
    pub panels : db'.panels ≡ db.panels
    pub process_events : db'.process_events ≡ db.process_events

  pub record Stored (env : Env F) (payload : EquipmentEventIn F) (db db' : Db F) : Type 0 where
    pub admitted : Admitted env payload db
    pub target : Target
    pub settled : Settled
    pub event : ProcessEvent F
    pub target_lot : target.lot ≡ admitted.lot
    pub grown : db'.process_events ≡ db.process_events ++ event ∷ []
    pub event_panel : event.panel_id ≡ admitted.panel.id
    pub event_step : event.process_step ≡ admitted.fields.step
    pub event_digest : event.fingerprint ≡ event_fingerprint env payload
    pub panels :
        db'.panels ≡ (set_panel admitted.panel.id (with_status settled.panel_status) db).panels
    pub lots : db'.lots ≡ (set_lot admitted.lot.id (settled_lot target settled) db).lots
    pub ended :
        settled.lot_status ≡ LotStatus.complete → lot_all_panels_complete admitted.lot.id db' ≡ true

  -- a lot ends only where no glass is left
  settle_ended :
      (t : Target) (hold : Option String) (failed : Bool) (db : Db F)
      → (settle t hold failed db).lot_status ≡ LotStatus.complete
      → ((settle t hold failed db).panel_status ≡ PanelStatus.complete)
        × (lot_all_panels_complete t.lot.id
              (set_panel t.panel.id (with_status PanelStatus.complete) db)
            ≡ true)
  unfolding settle settle_passed
  settle_ended t hold failed db h = ground arith

  module _ (env : Env F) (payload : EquipmentEventIn F) where
    abbrev pub Effect : Db F → Option (Outcome × Db F) → Type 0
    Effect db none = overflows payload db ≡ true
    Effect db (some (o, db')) = Unchanged db db' ⊎ Stored env payload db db'

    module _ (request_id event_id : String) (db : Db F) where
      seen_Unchanged : Unchanged db (mark_seen env payload db)
      seen_Unchanged =
          let k = mark_seen-SameLine env payload db in
          record { lots = k.lots; panels = k.panels; process_events = k.process_events }

      reject-Effect :
          (c : CheckResult)
          → Unchanged db
              (reject_event env payload request_id event_id c (mark_seen env payload db)).1
      unfolding reject_event write_event_log create_alarm
      reject-Effect c =
          let k = seen_Unchanged in
          record { lots = k.lots; panels = k.panels; process_events = k.process_events }

      heartbeat_Unchanged :
          (seen_db : Db F)
          → Unchanged seen_db (heartbeat_event env payload request_id event_id seen_db).1
      unfolding heartbeat_event heartbeat_received write_event_log record_state_change set_equipment
      heartbeat_Unchanged seen_db = ground arith

      beat-Effect :
          Unchanged db
            (heartbeat_event env payload request_id event_id (mark_seen env payload db)).1
      beat-Effect =
          let k = seen_Unchanged in
          let j = heartbeat_Unchanged (mark_seen env payload db) in
          record {
            lots = j.lots ∙ k.lots;
            panels = j.panels ∙ k.panels;
            process_events = j.process_events ∙ k.process_events;
          }

      forced-Effect : Unchanged db (forced_failure env payload request_id event_id db).1
      unfolding forced_failure write_event_log create_alarm
      forced-Effect = record { lots = refl; panels = refl; process_events = refl }

      store_event_lots :
          (t : Target) (d : Db F) → (store_event env payload request_id event_id t d).lots ≡ d.lots
      unfolding store_event
      store_event_lots t d = refl

      store_event_panels :
          (t : Target) (d : Db F)
          → (store_event env payload request_id event_id t d).panels ≡ d.panels
      unfolding store_event
      store_event_panels t d = refl

      -- the database behind the alarms of an accepted event, where its last part starts
      raised : (t : Target) → List CheckResult → Bool → Db F → Db F
      raised t checks failed d =
          (raise_inspect_fail env event_id t failed
            (raise_checks env event_id t checks (occupy env payload event_id t d)).1).1

      raised-SameLine :
          (t : Target) (checks : List CheckResult) (failed : Bool) (d : Db F)
          → SameLine d (raised t checks failed d)
      unfolding raised
      raised-SameLine t checks failed d =
          SameLine-trans (occupy-SameLine env payload event_id t d) (
            SameLine-trans
              (raise_checks-SameLine env event_id t checks (occupy env payload event_id t d))
              (raise_inspect_fail-SameLine env event_id t failed _))

      ended_by :
          (t : Target) (hold : Option String) (failed : Bool) (d db' : Db F)
          → db'.panels
            ≡ (set_panel t.panel.id (with_status (settle t hold failed d).panel_status) d).panels
          → (settle t hold failed d).lot_status ≡ LotStatus.complete
          → lot_all_panels_complete t.lot.id db' ≡ true
      unfolding lot_all_panels_complete
      ended_by t hold failed d db' e h =
          let (s, done) = settle_ended t hold failed d h in rw (e, s) done

      Stored-Effect :
          (a : Admitted env payload db)
          → Stored env payload db
              (accept_event env payload request_id event_id
                (warnings env payload a.lot db)
                (seen_target env payload request_id event_id db a)
                (mark_seen env payload db)).1
      unfolding accept_event write_event_log raised store_event set_panel set_lot
      Stored-Effect a =
          let t = seen_target env payload request_id event_id db a in
          let checks = warnings env payload a.lot db in
          let failed = is_inspect_fail payload t.step in
          let hold = hold_of failed checks in
          let d0 = mark_seen env payload db in
          let k0 = mark_seen-SameLine env payload db in
          let d1 = store_event env payload request_id event_id t d0 in
          let d2 = raised t checks failed d1 in
          let k = raised-SameLine t checks failed d1 in
          record {
            admitted = a;
            target = t;
            settled = settle t hold failed d2;
            event = event_row env payload request_id event_id t d0;
            target_lot = refl;
            grown =
                process_events-settle_event env event_id t hold failed d2
                ∙ k.process_events
                ∙ ap (λ es. es ++ event_row env payload request_id event_id t d0 ∷ [])
                    k0.process_events;
            event_panel = refl;
            event_step = refl;
            event_digest = refl;
            panels =
                panels-settle_event env event_id t hold failed d2
                ∙ ap
                    (update_where (λ row. row.id == t.panel.id)
                      (with_status (settle t hold failed d2).panel_status))
                    (k.panels ∙ k0.panels);
            lots =
                lots-settle_event env event_id t hold failed d2
                ∙ ap
                    (update_where (λ row. row.id == t.lot.id)
                      (settled_lot t (settle t hold failed d2)))
                    (k.lots ∙ k0.lots);
            ended = ended_by t hold failed d2 _ (panels-settle_event env event_id t hold failed d2);
          }

      abbrev pub UnchangedAfter : Option (Outcome × Db F) → Type 0
      UnchangedAfter none = overflows payload db ≡ true
      UnchangedAfter (some (o, db')) = Unchanged db db'

      Answer-UnchangedAfter :
          (r : Option (Outcome × Db F))
          → Answer env payload request_id event_id db r
          → payload.event_type ≡ EventType.heartbeat
          → UnchangedAfter r
      Answer-UnchangedAfter _ (forced f) h = forced-Effect
      Answer-UnchangedAfter _ (overflowed o) h = o
      Answer-UnchangedAfter _ (stopped c u s) h = reject-Effect (rejection c)
      Answer-UnchangedAfter _ (beat u b s) h = beat-Effect
      Answer-UnchangedAfter _ (stored u p a) h = absurd (cc)

      -- a heartbeat stores nothing, and is answered unless its timestamp raises
      pub heartbeat-UnchangedAfter :
          payload.event_type ≡ EventType.heartbeat
          → UnchangedAfter (ingest_event env payload request_id event_id db)
      heartbeat-UnchangedAfter =
          Answer-UnchangedAfter _ (ingest-Answer env payload request_id event_id db)

      Answer-Effect :
          (r : Option (Outcome × Db F)) → Answer env payload request_id event_id db r → Effect db r
      Answer-Effect _ (forced f) = inl forced-Effect
      Answer-Effect _ (overflowed o) = o
      Answer-Effect _ (stopped c u h) = inl (reject-Effect (rejection c))
      Answer-Effect _ (beat u b h) = inl beat-Effect
      Answer-Effect _ (stored u p a) = inr (Stored-Effect a)

      pub ingest-Effect : Effect db (ingest_event env payload request_id event_id db)
      ingest-Effect = Answer-Effect _ (ingest-Answer env payload request_id event_id db)
