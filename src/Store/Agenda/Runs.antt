-- ===== src/Store/Agenda/Runs.antt =====
-- Runs of the agenda: its claims, and how they end.
use digital_colleagues.Base.{
  ◌+◌, ◌≡◌, refl, sym, ap, ◌∙◌, inl, inr, Bool, true, Option, map, String, arith, ◌==◌, nat_eq,
  string_eq, option_eq, list_eq, ok,
}
use digital_colleagues.Core.Common.{DateTime}
use digital_colleagues.Core.Namespace.{Namespace}
use digital_colleagues.Store.Tables.{key_eq}
use digital_colleagues.Store.Tables.Keyed.{distinct_keys, distinct_keys-update}
use digital_colleagues.Store.Agenda.{
  AgendaRow, agenda_key, AgendaTables, AgendaClaim, starve, select_row, claim_agenda, claimed_key,
}
use digital_colleagues.Store.Agenda.Commit.{
  release_agenda, SemanticDecision, settle_row, commit_semantic_decision,
}
use digital_colleagues.Store.Agenda.Rows.{agenda_key-starve}
use digital_colleagues.Store.Agenda.Order.{claim_agenda_parts, claim_agenda-Chooses}
use digital_colleagues.Store.Agenda.Ends.{
  freed, same_token, same_lease, Ended, release_agenda-Ended, commit_semantic_decision-Ended,
}
use digital_colleagues.Core.Runtime.{WakeCycle}
use digital_colleagues.Core.Runtime.Agenda.{AgendaItem}
use digital_colleagues.Store.Triggers.{TriggerTables, TriggerClaim}
use digital_colleagues.Store.Triggers.Materialize.{Materializing, materialize_agenda}
use digital_colleagues.Store.Triggers.Grows.{materialize_agenda-Carried}
use digital_colleagues.Store.Agenda.Carries.{
  Carried, claims_carry, ends_carry, distinct_keys-map, Carries-settle_row,
}

-- A transaction of the agenda that returned.
pub data AgendaStep (db after : AgendaTables) : Type 0 where
  claims :
      (namespace : Namespace) (owner : String) (now lease_until : DateTime)
      (answer : Option AgendaClaim)
      → claim_agenda namespace owner now lease_until db ≡ ok (after, answer)
      → AgendaStep db after
  releases : (claim : AgendaClaim) → release_agenda claim db ≡ ok after → AgendaStep db after
  commits :
      (claim : AgendaClaim) (semantic : SemanticDecision)
      → commit_semantic_decision claim semantic db ≡ ok after
      → AgendaStep db after
  materializes :
      (given : Materializing) (claim : TriggerClaim) (before later : TriggerTables)
      (wake : WakeCycle) (item : AgendaItem)
      → before.agenda ≡ db
      → later.agenda ≡ after
      → materialize_agenda given claim before ≡ ok (later, wake, item)
      → AgendaStep db after

ends_keyed :
    (claim : AgendaClaim) (db after : AgendaTables) (test : AgendaRow → Bool)
    (change : AgendaRow → AgendaRow → AgendaRow)
    → ((row other : AgendaRow) → agenda_key (change row other) ≡ agenda_key other)
    → Ended claim db after test change
    → distinct_keys agenda_key db.rows ≡ true
    → distinct_keys agenda_key after.rows ≡ true
ends_keyed claim db after test change keeps e keyed =
    ap (distinct_keys agenda_key) e.rows
    ∙ distinct_keys-update agenda_key (claimed_key claim) test (change e.row)
        (λ other same. keeps e.row other ∙ sym same) db.rows keyed

pub claims_keyed :
    (namespace : Namespace) (owner : String) (now lease_until : DateTime) (db after : AgendaTables)
    (answer : Option AgendaClaim)
    → claim_agenda namespace owner now lease_until db ≡ ok (after, answer)
    → distinct_keys agenda_key db.rows ≡ true
    → distinct_keys agenda_key after.rows ≡ true
claims_keyed namespace owner now lease_until db after answer done keyed =
    elim (claim_agenda_parts namespace owner now lease_until db after answer done) [
      | inl (nothing, same, e) ↦ rw same keyed
      | inr (row, chosen, s) ↦
          ap (distinct_keys agenda_key) s.rows
          ∙ distinct_keys-update agenda_key (agenda_key row)
              (λ other. other.revision == row.revision)
              (select_row owner lease_until.clock (row.fencing_token + 1)) (λ other same. sym same)
              (map (starve namespace row.agenda_item_id) db.rows)
              (distinct_keys-map (starve namespace row.agenda_item_id)
                (agenda_key-starve namespace row.agenda_item_id) db.rows keyed)
    ]

-- The keys stay distinct, and no row is lost.
pub step_carries :
    (db after : AgendaTables)
    → AgendaStep db after
    → distinct_keys agenda_key db.rows ≡ true
    → (distinct_keys agenda_key after.rows ≡ true) × Carried db after
step_carries db after (claims namespace owner now lease_until answer done) keyed = (
  claims_keyed namespace owner now lease_until db after answer done keyed,
  claims_carry namespace owner now lease_until db after answer
      (claim_agenda-Chooses namespace owner now lease_until db after answer keyed done),
)
step_carries db after (releases claim done) keyed =
    let e = release_agenda-Ended claim db after done in
    (
      ends_keyed claim db after (same_token claim) (λ row. freed) (λ row other. refl) e keyed,
      ends_carry claim db after (same_token claim) (λ row. freed) (λ row other. refl)
          (λ row. record { token = omega arith; handling = omega arith }) e,
    )
step_carries db after (commits claim semantic done) keyed =
    let e = commit_semantic_decision-Ended claim semantic db after done in
    (
      ends_keyed claim db after (same_lease claim) (settle_row claim) (λ row other. refl) e keyed,
      ends_carry claim db after (same_lease claim) (settle_row claim) (λ row other. refl)
          (Carries-settle_row claim) e,
    )
step_carries db after (materializes given claim before later wake item same same2 done) keyed =
    rw (sym same, sym same2)
      (materialize_agenda-Carried given claim before later wake item done (rw same keyed))

-- Runs of claims, releases and commits, and of triggers that become wake cycles.
pub data AgendaRun (db : AgendaTables) : AgendaTables → Type 0 where
  here : AgendaRun db db
  next :
      {middle after : AgendaTables}
      → AgendaRun db middle
      → AgendaStep middle after
      → AgendaRun db after

pub run_carries :
    (db after : AgendaTables)
    → distinct_keys agenda_key db.rows ≡ true
    → AgendaRun db after
    → (distinct_keys agenda_key after.rows ≡ true) × Carried db after
run_carries db _ keyed here =
    (keyed, λ k row found. (row, found, record { token = omega arith; handling = omega arith }))
run_carries db after keyed (next {middle = middle} run step) =
    let (keyed2, carried) = run_carries db middle keyed run in
    let (keyed3, carries) = step_carries middle after step keyed2 in
    (
      keyed3,
      λ k row found.
          let (earlier, found2, first) = carried k row found in
          let (later, found3, second) = carries k earlier found2 in
          (
            later,
            found3,
            record {
              token = omega (arith, first.token, second.token);
              handling = omega (arith, first.handling, second.handling);
            },
          ),
    )
