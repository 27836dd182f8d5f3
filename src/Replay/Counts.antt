-- ===== src/Replay/Counts.antt =====
-- A replay counts every event it was given, and keeps what the line promises.
use displayfab_smart_factory.Prelude.{
  ℕ, suc, ◌+◌, some, Bool, true, not, List, [], ◌∷◌, ◌≡◌, inl, inr, refl, ap, subst, arith, length,
  count_where, is_some, Option-cases,
}
use displayfab_smart_factory.Models.{Db}
use displayfab_smart_factory.Schemas.{EquipmentEventIn, as_naive_utc}
use displayfab_smart_factory.Ingestion.{collect_push}
use displayfab_smart_factory.Line.{state_of}
use displayfab_smart_factory.Line.Kept.{IsKept}
use displayfab_smart_factory.Line.Run.{KeptAfter, overflows-timed, push-IsKept}
use displayfab_smart_factory.Replay.{
  RawOps, ReplayCall, ReplayRow, Replayed, replayed, ReplayIn, replay_row, refreshed, summary,
  replay_all, replay_events,
}

count_where-not :
    {A : Type 0} (p : A → Bool) (xs : List A)
    → count_where p xs + count_where (λ x. not (p x)) xs ≡ length xs
unfolding count_where
count_where-not p [] = refl
count_where-not p (x ∷ xs) = ground (arith, count_where-not p xs)

module _ {F R : Type 0} (raw : RawOps R F) (given : ReplayIn) (calls : ℕ → ReplayCall F)
    (parses : (r : R)
      → (payload : EquipmentEventIn F) × (raw.parse r ≡ some payload)
        × (is_some (as_naive_utc payload.timestamp) ≡ true)) where
  replay_all-IsKept :
      (i : ℕ) (events : List R) (db : Db F)
      → IsKept db
      → (rows : List ReplayRow) × (db' : Db F) × (replay_all raw given calls i events db
          ≡ some (rows, db'))
        × (length rows ≡ length events)
        × IsKept db'
  unfolding replay_all
  replay_all-IsKept i [] db k = ([], db, refl, refl, k)
  replay_all-IsKept i (event ∷ rest) db k =
      elim (Option-cases (raw.parse (refreshed raw given (calls i) i event))) [
        | inl n ↦ absurd (ground (arith, parses (refreshed raw given (calls i) i event)))
        | inr (payload, n) ↦
            let (known, p, timed) = parses (refreshed raw given (calls i) i event) in
            let same : known ≡ payload = cc in
            let pushed =
              push-IsKept (calls i).env payload (calls i).request_id (calls i).event_id db
                (overflows-timed payload db (rw (← same) timed)) k in
            elim (Option-cases
              (collect_push (calls i).env payload (calls i).request_id (calls i).event_id db)) [
                | inl m ↦ absurd (subst (λ r. KeptAfter (state_of r)) m pushed)
                | inr ((o, db1), m) ↦
                    let (rows, db2, e, l, k2) =
                      replay_all-IsKept (suc i) rest db1
                        (subst (λ r. KeptAfter (state_of r)) m pushed) in
                    (
                      replay_row payload o ∷ rows,
                      db2,
                      rw (n, replay_all) (rw (m, replay_all) (rw (e, replay_all) refl)),
                      ap suc l,
                      k2,
                    )
              ]
      ]

  -- Where every dictionary is an event whose timestamp has a UTC, a replay of one or more of them answers: its results are as many
  -- as the events, the accepted and the rejected ones add up to them, and the line keeps its promises.
  pub replay_events-IsKept :
      (event : R) (rest : List R) (db : Db F)
      → IsKept db
      → (out : Replayed) × (db' : Db F) × (replay_events raw given calls (event ∷ rest) db
          ≡ some (replayed out, db'))
        × (out.count ≡ suc (length rest))
        × (out.accepted + out.rejected ≡ out.count)
        × IsKept db'
  unfolding replay_events
  replay_events-IsKept event rest db k =
      let (rows, db', e, l, k') = replay_all-IsKept 0 (event ∷ rest) db k in
      (
        summary raw given event rows,
        db',
        rw (e, replay_events) refl,
        l,
        count_where-not (λ (r : ReplayRow). r.accepted) rows,
        k',
      )
