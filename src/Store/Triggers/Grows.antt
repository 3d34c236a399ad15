-- ===== src/Store/Triggers/Grows.antt =====
-- What `materialize_agenda` does to the rows of the agenda.
use digital_colleagues.Base.{
  ◌≡◌, refl, sym, ap, ◌∙◌, inl, inr, true, false, not, ◌&&◌, ◌||◌, Option, none, some, List, ◌∷◌,
  String, arith, ◌==◌, nat_eq, string_eq, option_eq, list_eq, ok, require, conflict, integrity,
  >>=-ok_parts, Returns, ok_same, or_raise,
}
use digital_colleagues.Base.Lists.{unique}
use digital_colleagues.Core.Runtime.{WakeCycle, construct_wake}
use digital_colleagues.Core.Runtime.Agenda.{AgendaItem, construct_agenda}
use digital_colleagues.Store.Tables.{Key, key_eq, find, holds, update, touched}
use digital_colleagues.Store.Tables.Keyed.{distinct_keys, distinct_keys-update, find_held}
use digital_colleagues.Store.Records.{get_record, insert_record}
use digital_colleagues.Store.Agenda.{AgendaRow, agenda_key, AgendaTables, item_columns, update_item}
use digital_colleagues.Store.Agenda.Rows.{update_item-rows}
use digital_colleagues.Store.Agenda.Carries.{Carried, update_either}
use digital_colleagues.Store.Triggers.{
  TriggerRow, trigger_key, TriggerTables, TriggerClaim, input_event, timer_occurrence,
  trigger_table, with_table,
}
use digital_colleagues.Store.Triggers.Sources.{Source, read_source}
use digital_colleagues.Store.Triggers.Materialize.{
  Materializing, natural, first_item, agenda_row, insert_wake, make_item, woken_cycle, causes_of,
  renewed_item, create_item, renew, renew_item, wake_item, find_source, materialize_agenda,
  claimed_trigger, is_claimed, holds_trigger,
}

-- A row is new, or has a new generation.
data Grown (rows after : List AgendaRow) : Type 0 where
  created :
      (row : AgendaRow)
      → holds agenda_key (agenda_key row) rows ≡ false
      → after ≡ row ∷ rows
      → Grown rows after
  renewed :
      (given : Materializing) (claim : TriggerClaim) (existing : AgendaRow) (k : Key)
      → after ≡ update agenda_key k (λ row. true) (renew given claim existing) rows
      → Grown rows after

Grown-along :
    {rows from after to : List AgendaRow}
    → rows ≡ from
    → after ≡ to
    → Grown rows after
    → Grown from to
Grown-along same same2 grown = rw (sym same, sym same2) grown

create_item-Grown :
    (given : Materializing) (claim : TriggerClaim) (source : Source) (db : AgendaTables)
    (result : AgendaTables × AgendaItem)
    → create_item given claim source db ≡ ok result
    → Grown db.rows result.0.rows
unfolding create_item
create_item-Grown given claim source db result done =
    let r1 : Returns (natural source.priority) _ result = >>=-ok_parts _ _ done in
    let row = agenda_row given claim source r1.0 in
    let r2 : Returns (construct_agenda (first_item given claim source r1.0)) _ result =
      >>=-ok_parts _ _ r1.2 in
    let r3 : Returns (insert_record item_columns r2.0 db.items db.database.audit) _ result =
      >>=-ok_parts _ _ r2.2 in
    let r4 : Returns (require (not (holds agenda_key (agenda_key row) db.rows)) integrity) _
        result =
      >>=-ok_parts _ _ r3.2 in
    created row (ground (arith, r4.1))
      (sym (ap (λ (x : AgendaTables × AgendaItem). x.0.rows) (ok_same _ _ r4.2)))

renew_item-Grown :
    (given : Materializing) (claim : TriggerClaim) (source : Source) (existing : AgendaRow)
    (db : AgendaTables) (result : AgendaTables × AgendaItem)
    → renew_item given claim source existing db ≡ ok result
    → Grown db.rows result.0.rows
unfolding renew_item
renew_item-Grown given claim source existing db result done =
    let k : Key = record { namespace = claim.namespace; id = existing.agenda_item_id } in
    let r1 : Returns (get_record item_columns claim.namespace existing.agenda_item_id db.items) _
        result =
      >>=-ok_parts _ _ done in
    let r2 : Returns (construct_agenda (renewed_item given claim source existing r1.0)) _ result =
      >>=-ok_parts _ _ r1.2 in
    let r3 : Returns (update_item r2.0 r1.0.revision db) _ result = >>=-ok_parts _ _ r2.2 in
    renewed given claim existing k (
      sym (ap (λ (x : AgendaTables × AgendaItem). x.0.rows) (ok_same _ _ r3.2))
      ∙ ap (update agenda_key k (λ row. true) (renew given claim existing))
          (update_item-rows r2.0 r1.0.revision db r3.0 r3.1))

make_item-Grown :
    (given : Materializing) (claim : TriggerClaim) (source : Source) (existing : Option AgendaRow)
    (db : AgendaTables) (result : AgendaTables × AgendaItem)
    → make_item given claim source existing db ≡ ok result
    → Grown db.rows result.0.rows
make_item-Grown given claim source none db result done =
    create_item-Grown given claim source db result done
make_item-Grown given claim source (some existing) db result done =
    renew_item-Grown given claim source existing db result done

insert_wake-rows :
    (self : WakeCycle) (db after : AgendaTables)
    → insert_wake self db ≡ ok after
    → after.rows ≡ db.rows
unfolding insert_wake
insert_wake-rows self db after done = ground arith

wake_item-Grown :
    (given : Materializing) (claim : TriggerClaim) (source : Source) (db : AgendaTables)
    (result : AgendaTables × WakeCycle × AgendaItem)
    → wake_item given claim source db ≡ ok result
    → Grown db.rows result.0.rows
unfolding wake_item
wake_item-Grown given claim source db result done =
    let existing : Option AgendaRow = find_source claim.namespace source.source_key db.rows in
    let r1 : Returns (require (unique (causes_of claim existing)) conflict) _ result =
      >>=-ok_parts _ _ done in
    let r2 : Returns (construct_wake (woken_cycle given claim source existing)) _ result =
      >>=-ok_parts _ _ r1.2 in
    let r3 : Returns (insert_wake r2.0 db) _ result = >>=-ok_parts _ _ r2.2 in
    let r4 : Returns (make_item given claim source existing r3.0) _ result =
      >>=-ok_parts _ _ r3.2 in
    let same = ap (λ (x : AgendaTables × WakeCycle × AgendaItem). x.0.rows) (ok_same _ _ r4.2) in
    Grown-along (insert_wake-rows r2.0 db r3.0 r3.1) same
      (make_item-Grown given claim source existing r3.0 r4.0 r4.1)

with_table-agenda :
    (source : String) (rows : List TriggerRow) (db : TriggerTables)
    → (with_table source rows db).agenda ≡ db.agenda
with_table-agenda source rows db = ground arith

materialize_agenda-Grown :
    (given : Materializing) (claim : TriggerClaim) (db after : TriggerTables) (wake : WakeCycle)
    (item : AgendaItem)
    → materialize_agenda given claim db ≡ ok (after, wake, item)
    → Grown db.agenda.rows after.agenda.rows
unfolding materialize_agenda
materialize_agenda-Grown given claim db after wake item done =
    let rows : List TriggerRow = trigger_table claim.source_record_type db in
    let r1 : Returns
        (require
          (claim.source_record_type == input_event || claim.source_record_type == timer_occurrence)
          conflict)
        _ (after, wake, item) =
      >>=-ok_parts _ _ done in
    let r2 : Returns (or_raise conflict (find trigger_key (claimed_trigger claim) rows)) _
        (after, wake, item) =
      >>=-ok_parts _ _ r1.2 in
    let r3 : Returns (require (is_claimed r2.0.state && holds_trigger claim r2.0) conflict) _
        (after, wake, item) =
      >>=-ok_parts _ _ r2.2 in
    let r4 : Returns (read_source claim db) _ (after, wake, item) = >>=-ok_parts _ _ r3.2 in
    let r5 : Returns (wake_item given claim r4.0 db.agenda) _ (after, wake, item) =
      >>=-ok_parts _ _ r4.2 in
    let r6 : Returns
        (require (touched trigger_key (claimed_trigger claim) (holds_trigger claim) rows) conflict)
        _ (after, wake, item) =
      >>=-ok_parts _ _ r5.2 in
    let same =
      ap (λ (x : TriggerTables × WakeCycle × AgendaItem). x.0.agenda.rows) (ok_same _ _ r6.2) in
    Grown-along refl
      (ap (λ (x : AgendaTables). x.rows) (sym (with_table-agenda claim.source_record_type _ _))
        ∙ same)
      (wake_item-Grown given claim r4.0 db.agenda r5.0 r5.1)

Grown-Carried : (db after : AgendaTables) → Grown db.rows after.rows → Carried db after
Grown-Carried db after (created new free same) k row found = (
  row,
  ground (arith, same, free, found, find_held agenda_key k db.rows row found),
  record { token = omega arith; handling = omega arith },
)
Grown-Carried db after (renewed given claim existing l same) k row found =
    elim (update_either l (λ other. true) (renew given claim existing) (λ other e. sym e) db.rows k
      row found) [
        | inl stays ↦ (
          row,
          ap (find agenda_key k) same ∙ stays,
          record { token = omega arith; handling = omega arith },
        )
        | inr (one, changes) ↦ (
          renew given claim existing row,
          ap (find agenda_key k) same ∙ changes,
          record { token = omega arith; handling = omega arith },
        )
      ]

Grown-keyed :
    (rows after : List AgendaRow)
    → Grown rows after
    → distinct_keys agenda_key rows ≡ true
    → distinct_keys agenda_key after ≡ true
Grown-keyed rows after (created new free same) keyed = ground (arith, same, free, keyed)
Grown-keyed rows after (renewed given claim existing l same) keyed =
    ap (distinct_keys agenda_key) same
    ∙ distinct_keys-update agenda_key l (λ other. true) (renew given claim existing)
        (λ other e. sym e) rows keyed

-- A trigger that becomes a generation of an item leaves every row of the agenda in its place.
pub materialize_agenda-Carried :
    (given : Materializing) (claim : TriggerClaim) (db after : TriggerTables) (wake : WakeCycle)
    (item : AgendaItem)
    → materialize_agenda given claim db ≡ ok (after, wake, item)
    → distinct_keys agenda_key db.agenda.rows ≡ true
    → (distinct_keys agenda_key after.agenda.rows ≡ true) × Carried db.agenda after.agenda
materialize_agenda-Carried given claim db after wake item done keyed =
    let grown = materialize_agenda-Grown given claim db after wake item done in
    (
      Grown-keyed db.agenda.rows after.agenda.rows grown keyed,
      Grown-Carried db.agenda after.agenda grown,
    )
