-- ===== src/Store/Protocol/Log.antt =====
-- The event log and the identity of the commitments across the calls of the store.
use resolve.Base.{
  ◌≡◌, refl, sym, ◌∙◌, ap, Bool, List, [], ◌∷◌, ◌++◌, map, arith, Bool-cases, inl, inr,
}
use mathlib.Core.List.{append_assoc, append-nil}
use resolve.Store.Sql.{update}
use resolve.Store.Tables.{Db, CommitmentRow, EventRow}
use resolve.Store.Protocol.{Call, run}
use resolve.Store.Protocol.Keeps.{Allows, identity}
use resolve.Store.Protocol.Runs.{run-keeps}

-- The later database has the events of the earlier one, and then more.
abbrev Extends : Db → Db → Type 0
Extends db db' = (rows : List EventRow) × (db'.work_events ≡ db.work_events ++ rows)

append_more :
    (rows ss ts us vs : List EventRow) → us ≡ rows ++ ss → vs ≡ us ++ ts → vs ≡ rows ++ (ss ++ ts)
append_more rows ss ts us vs p q = q ∙ ap (λ rs. rs ++ ts) p ∙ append_assoc rows ss ts

instance abbrev Extends-Allows : Allows Extends
Extends-Allows = record {
  stay = λ db. ([], sym (append-nil db.work_events));
  follow = λ a b c (ss, p) (ts, q).
      (ss ++ ts, append_more a.work_events ss ts b.work_events c.work_events p q);
  append = λ row db. (row ∷ [], refl);
  change = λ test f db same. ([], sym (append-nil db.work_events));
  reclaim = λ rows db. ([], sym (append-nil db.work_events));
  guard = λ rows db. ([], sym (append-nil db.work_events));
  scope = λ rows db. ([], sym (append-nil db.work_events));
}

-- None of the calls that issue, admit, invalidate, beat, expire, recover and report changes or removes
-- an event: after any of them, refused ones included, the log is the earlier
-- log followed by new events.
pub run-Extends :
    (calls : List Call) (db : Db)
    → (rows : List EventRow) × ((run calls db).work_events ≡ db.work_events ++ rows)
run-Extends calls db =
    run-keeps Extends (λ g d. ([], sym (append-nil d.work_events)))
      (λ g l db is_new own absent. ([], sym (append-nil db.work_events)))
      (λ request db. ([], sym (append-nil db.work_events)))
      (λ g d. ([], sym (append-nil d.work_events))) calls db

abbrev SameWork : Db → Db → Type 0
SameWork db db' = map identity db'.commitments ≡ map identity db.commitments

map-update :
    (test : CommitmentRow → Bool) (f : CommitmentRow → CommitmentRow) (rows : List CommitmentRow)
    → ((c : CommitmentRow) → identity (f c) ≡ identity c)
    → map identity (update test f rows) ≡ map identity rows
unfolding update
map-update test f [] same = refl
map-update test f (r ∷ rows) same =
    let ih = map-update test f rows same in
    let here = same r in elim (Bool-cases (test r)) [ inl t ↦ ground arith | inr n ↦ ground arith ]

instance abbrev SameWork-Allows : Allows SameWork
SameWork-Allows = record {
  stay = λ db. refl;
  follow = λ a b c p q. q ∙ p;
  append = λ row db. refl;
  change = λ test f db same. map-update test f db.commitments same;
  reclaim = λ rows db. refl;
  guard = λ rows db. refl;
  scope = λ rows db. refl;
}

-- None of the calls that issue, admit, invalidate, beat, expire, recover and report, refused ones
-- included, adds or removes a commitment or changes its goal, parent, description, replacement
-- terminal or high-water epoch: what is lost by an expired lease is the claim, never the epoch that
-- fences it off.
pub run-identity :
    (calls : List Call) (db : Db)
    → map identity (run calls db).commitments ≡ map identity db.commitments
run-identity calls db =
    run-keeps SameWork (λ g d. refl) (λ g l db is_new own absent. refl) (λ request db. refl)
      (λ g d. refl) calls db
