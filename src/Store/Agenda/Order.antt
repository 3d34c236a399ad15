-- ===== src/Store/Agenda/Order.antt =====
-- The item of the agenda that a claim takes, and what the claim does to the others.
use digital_colleagues.Base.{
  ℕ, ◌+◌, ◌≡◌, refl, sym, ap, ◌∙◌, ◌≢◌, ◌⊎◌, inl, inr, Bool, true, false, Option, none, some, map,
  String, arith, ◌==◌, nat_eq, string_eq, option_eq, list_eq, Bool-cases, ok, Option-cases,
}
use digital_colleagues.Base.Sorting.{str_leb_total, str_leb_trans}
use digital_colleagues.Core.Common.{DateTime, supported_schema}
use digital_colleagues.Core.Namespace.{Namespace}
use digital_colleagues.Core.Runtime.Agenda.{AgendaItem}
use digital_colleagues.Store.Tables.{Key, key_eq, find}
use digital_colleagues.Store.Tables.Keyed.{distinct_keys, find-update, find-update_ne}
use digital_colleagues.Store.Tables.Earliest.{
  earliest, earliest_passes, earliest-none, find-earliest, earliest_before,
}
use digital_colleagues.Store.Agenda.{
  AgendaRow, agenda_key, AgendaTables, AgendaClaim, selectable, agenda_before, due_first, starve,
  select_row, claim_agenda,
}
use digital_colleagues.Store.Agenda.Rows.{
  find-map, agenda_key-starve, starve_self, Selected, claim_row-Selected,
}

due_total :
    (due other_due : Option ℕ) (id other_id : String)
    → due_first due other_due id other_id ≡ false
    → due_first other_due due other_id id ≡ true
due_total none none id other_id later = ground (arith, str_leb_total id other_id)
due_total none (some other) id other_id later = refl
due_total (some due) none id other_id later = cc
due_total (some due) (some other) id other_id later = ground (arith, str_leb_total id other_id)

due_trans :
    (due1 due2 due3 : Option ℕ) (id1 id2 id3 : String)
    → due_first due1 due2 id1 id2 ≡ true
    → due_first due2 due3 id2 id3 ≡ true
    → due_first due1 due3 id1 id3 ≡ true
due_trans none none none id1 id2 id3 first second = ground (arith, str_leb_trans id1 id2 id3)
due_trans none none (some due3) id1 id2 id3 first second = cc
due_trans none (some due2) due3 id1 id2 id3 first second = cc
due_trans (some due1) due2 none id1 id2 id3 first second = refl
due_trans (some due1) none (some due3) id1 id2 id3 first second = cc
due_trans (some due1) (some due2) (some due3) id1 id2 id3 first second =
    ground (arith, str_leb_trans id1 id2 id3)

before_total : (a b : AgendaRow) → agenda_before a b ≡ false → agenda_before b a ≡ true
unfolding agenda_before
before_total a b later =
    ground (arith, due_total a.due_at b.due_at a.agenda_item_id b.agenda_item_id)

before_trans :
    (a b c : AgendaRow)
    → agenda_before a b ≡ true
    → agenda_before b c ≡ true
    → agenda_before a c ≡ true
unfolding agenda_before
before_trans a b c first second =
    ground (
      arith,
      due_trans a.due_at b.due_at c.due_at a.agenda_item_id b.agenda_item_id c.agenda_item_id,
    )

before_again : (a : AgendaRow) → agenda_before a a ≡ true
before_again a = elim (Bool-cases (agenda_before a a)) [
  | inl first ↦ first
  | inr later ↦ before_total a a later
]

-- The answer of a claim of the agenda, in the terms of the code.
pub data Chooses (namespace : Namespace) (owner : String) (now lease_until : DateTime)
    (db after : AgendaTables) : Option AgendaClaim → Type 0 where
  nothing_waits :
      after ≡ db
      → ((k : Key) (row : AgendaRow)
          → find agenda_key k db.rows ≡ some row
          → selectable namespace now.clock row ≡ false)
      → Chooses namespace owner now lease_until db after none
  foremost :
      (row : AgendaRow) (item : AgendaItem)
      → find agenda_key (agenda_key row) db.rows ≡ some row
      → selectable namespace now.clock row ≡ true
      → ((k : Key) (other : AgendaRow)
          → find agenda_key k db.rows ≡ some other
          → selectable namespace now.clock other ≡ true
          → agenda_before row other ≡ true)
      → item.agenda_item_id ≡ row.agenda_item_id
      → find agenda_key (agenda_key row) after.rows
        ≡ some (select_row owner lease_until.clock (row.fencing_token + 1) row)
      → ((k : Key) (other : AgendaRow)
          → k ≢ agenda_key row
          → find agenda_key k db.rows ≡ some other
          → find agenda_key k after.rows ≡ some (starve namespace row.agenda_item_id other))
      → Chooses namespace owner now lease_until db after (
          some (record {
            namespace = namespace;
            agenda_item = item;
            lease_owner = owner;
            lease_until = lease_until;
            fencing_token = row.fencing_token + 1;
            claimed_generation = row.generation;
            schema_version = supported_schema;
          }))

module _ (namespace : Namespace) (owner : String) (lease_until : DateTime) (row : AgendaRow)
    (db after : AgendaTables) (answer : Option AgendaClaim)
    (s : Selected namespace owner lease_until row db after answer) where
  abbrev change : AgendaRow → AgendaRow
  change = select_row owner lease_until.clock (row.fencing_token + 1)

  pub row_after :
      find agenda_key (agenda_key row) db.rows ≡ some row
      → find agenda_key (agenda_key row) after.rows ≡ some (change row)
  row_after found =
      ap (find agenda_key (agenda_key row)) s.rows
      ∙ find-update agenda_key (agenda_key row) (λ other. other.revision == row.revision) change
          (λ other same. sym same) (map (starve namespace row.agenda_item_id) db.rows) row
          (find-map agenda_key (agenda_key row) (starve namespace row.agenda_item_id)
              (agenda_key-starve namespace row.agenda_item_id) db.rows row found
            ∙ ap some (starve_self namespace row))
          (ground arith)

  others_after :
      (k : Key) (other : AgendaRow)
      → k ≢ agenda_key row
      → find agenda_key k db.rows ≡ some other
      → find agenda_key k after.rows ≡ some (starve namespace row.agenda_item_id other)
  others_after k other differ found =
      ap (find agenda_key k) s.rows
      ∙ find-update_ne agenda_key (agenda_key row) (λ other. other.revision == row.revision) change
          (λ other same. sym same) (map (starve namespace row.agenda_item_id) db.rows) k differ
      ∙ find-map agenda_key k (starve namespace row.agenda_item_id)
          (agenda_key-starve namespace row.agenda_item_id) db.rows other found

-- A claim that returns has selected nothing, or a row that it has claimed.
pub claim_agenda_parts :
    (namespace : Namespace) (owner : String) (now lease_until : DateTime) (db after : AgendaTables)
    (answer : Option AgendaClaim)
    → claim_agenda namespace owner now lease_until db ≡ ok (after, answer)
    → ((earliest (selectable namespace now.clock) agenda_before db.rows ≡ none)
        × (after ≡ db)
        × (answer ≡ none))
      ⊎ ((row : AgendaRow) × (earliest (selectable namespace now.clock) agenda_before db.rows
            ≡ some row)
          × Selected namespace owner lease_until row db after answer)
unfolding claim_agenda
claim_agenda_parts namespace owner now lease_until db after answer done =
    elim (Option-cases (earliest (selectable namespace now.clock) agenda_before db.rows)) [
      | inl nothing ↦ inl (nothing, ground (arith, nothing), ground (arith, nothing))
      | inr (row, chosen) ↦ inr (
        row,
        chosen,
        claim_row-Selected namespace owner lease_until row db after answer (ground (arith, chosen)),
      )
    ]

-- A claim answers as `Chooses` says, in the terms of the code.
pub claim_agenda-Chooses :
    (namespace : Namespace) (owner : String) (now lease_until : DateTime) (db after : AgendaTables)
    (answer : Option AgendaClaim)
    → distinct_keys agenda_key db.rows ≡ true
    → claim_agenda namespace owner now lease_until db ≡ ok (after, answer)
    → Chooses namespace owner now lease_until db after answer
claim_agenda-Chooses namespace owner now lease_until db after answer keyed done =
    elim (claim_agenda_parts namespace owner now lease_until db after answer done) [
      | inl (nothing, same, e) ↦ rw e (
          nothing_waits same
            (λ k row found. earliest-none agenda_key can agenda_before db.rows k row nothing found))
      | inr (row, chosen, s) ↦
          let found = find-earliest agenda_key can agenda_before db.rows row keyed chosen in
          rw s.handed (
            foremost row s.item found (earliest_passes can agenda_before db.rows row chosen)
              (λ k other found passes.
                earliest_before agenda_key can agenda_before before_total before_trans before_again
                  db.rows row chosen k other found passes)
              s.same_item (row_after namespace owner lease_until row db after answer s found)
              (others_after namespace owner lease_until row db after answer s))
    ]
  where
    can : AgendaRow → Bool
    can = selectable namespace now.clock
