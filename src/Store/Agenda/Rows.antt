-- ===== src/Store/Agenda/Rows.antt =====
-- What the transactions of the agenda do to its rows.
use digital_colleagues.Base.{
  ℕ, ◌+◌, ◌≡◌, sym, ap, ◌∙◌, Option, some, List, [], ◌∷◌, map, String, arith, ◌==◌, nat_eq,
  string_eq, option_eq, list_eq, ok, require, not_found, conflict, >>=-ok_parts, Returns, ok_same,
  or_raise-some,
}
use digital_colleagues.Core.Common.{DateTime, supported_schema}
use digital_colleagues.Core.Namespace.{Namespace}
use digital_colleagues.Core.Runtime.Agenda.{AgendaItem, construct_agenda, selected}
use digital_colleagues.Store.Tables.{Key, key_eq, find, update, touched}
use digital_colleagues.Store.Tables.Keyed.{find-key}
use digital_colleagues.Store.Records.{datetime_to_z, get_record}
use digital_colleagues.Store.Agenda.{
  AgendaRow, agenda_key, AgendaTables, item_columns, update_item, AgendaClaim,
  construct_agenda_claim, starve, select_row, claim_row,
}

pub find-map :
    {Row : Type 0} (key : Row → Key) (k : Key) (change : Row → Row)
    → ((row : Row) → key (change row) ≡ key row)
    → (rows : List Row) (row : Row) → find key k rows ≡ some row
    → find key k (map change rows) ≡ some (change row)
find-map key k change keeps [] row found = cc
find-map key k change keeps (other ∷ rows) row found =
    ground (arith, keeps other, find-map key k change keeps rows row)

pub agenda_key-starve :
    (namespace : Namespace) (id : String) (row : AgendaRow)
    → agenda_key (starve namespace id row) ≡ agenda_key row
unfolding starve
agenda_key-starve namespace id row = ground arith

-- The row that is selected does not starve.
pub starve_self :
    (namespace : Namespace) (row : AgendaRow) → starve namespace row.agenda_item_id row ≡ row
unfolding starve
starve_self namespace row = ground arith

pub update_item-rows :
    (self : AgendaItem) (expected : ℕ) (db after : AgendaTables)
    → update_item self expected db ≡ ok after
    → after.rows ≡ db.rows
unfolding update_item
update_item-rows self expected db after done = ground arith

pub construct_agenda_id :
    (self item : AgendaItem)
    → construct_agenda self ≡ ok item
    → item.agenda_item_id ≡ self.agenda_item_id
unfolding construct_agenda
construct_agenda_id self item done = ground arith

pub claim_same : (self claim : AgendaClaim) → construct_agenda_claim self ≡ ok claim → claim ≡ self
unfolding construct_agenda_claim
claim_same self claim done = ground arith

-- The rows after a claim of a row, and the claim.
pub record Selected (namespace : Namespace) (owner : String) (lease_until : DateTime)
    (row : AgendaRow) (db after : AgendaTables) (answer : Option AgendaClaim) : Type 0 where
  pub item : AgendaItem
  pub same_item : item.agenda_item_id ≡ row.agenda_item_id
  pub handed :
      answer
      ≡ some (record {
        namespace = namespace;
        agenda_item = item;
        lease_owner = owner;
        lease_until = lease_until;
        fencing_token = row.fencing_token + 1;
        claimed_generation = row.generation;
        schema_version = supported_schema;
      })
  pub rows :
      after.rows
      ≡ update agenda_key
          (agenda_key row)
          (λ other. other.revision == row.revision)
          (select_row owner lease_until.clock (row.fencing_token + 1))
          (map (starve namespace row.agenda_item_id) db.rows)

pub claim_row-Selected :
    (namespace : Namespace) (owner : String) (lease_until : DateTime) (row : AgendaRow)
    (db after : AgendaTables) (answer : Option AgendaClaim)
    → claim_row namespace owner lease_until row db ≡ ok (after, answer)
    → Selected namespace owner lease_until row db after answer
unfolding claim_row
claim_row-Selected namespace owner lease_until row db after answer done =
    let starved : List AgendaRow = map (starve namespace row.agenda_item_id) db.rows in
    let r1 : Returns (datetime_to_z lease_until) _ (after, answer) = >>=-ok_parts _ _ done in
    let r2 : Returns
        (require
          (touched agenda_key (agenda_key row) (λ other. other.revision == row.revision) starved)
          conflict)
        _ (after, answer) =
      >>=-ok_parts _ _ r1.2 in
    let r3 : Returns (get_record item_columns namespace row.agenda_item_id db.items) _
        (after, answer) =
      >>=-ok_parts _ _ r2.2 in
    let r4 : Returns
        (construct_agenda (record r3.0 { state = selected; revision = r3.0.revision + 1 })) _
        (after, answer) =
      >>=-ok_parts _ _ r3.2 in
    let r5 : Returns (update_item r4.0 r3.0.revision db) _ (after, answer) =
      >>=-ok_parts _ _ r4.2 in
    let r6 : Returns
        (construct_agenda_claim (record {
          namespace = namespace;
          agenda_item = r4.0;
          lease_owner = owner;
          lease_until = lease_until;
          fencing_token = row.fencing_token + 1;
          claimed_generation = row.generation;
          schema_version = supported_schema;
        }))
        _ (after, answer) =
      >>=-ok_parts _ _ r5.2 in
    let result = ok_same _ _ r6.2 in
    let until : r1.0 ≡ lease_until.clock = ground (arith, r1.1) in
    record {
      item = r4.0;
      same_item =
          construct_agenda_id _ r4.0 r4.1
          ∙ ap (λ (k : Key). k.id)
              (find-key _ _ db.items r3.0 (or_raise-some not_found _ r3.0 r3.1));
      handed =
          sym (ap (λ (x : AgendaTables × Option AgendaClaim). x.1) result)
          ∙ ap some (claim_same _ r6.0 r6.1);
      rows =
          sym (ap (λ (x : AgendaTables × Option AgendaClaim). x.0.rows) result)
          ∙ ap
              (λ (clock : ℕ).
                update agenda_key (agenda_key row) (λ other. other.revision == row.revision)
                  (select_row owner clock (row.fencing_token + 1)) starved)
              until;
    }
