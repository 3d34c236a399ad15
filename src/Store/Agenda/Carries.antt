-- ===== src/Store/Agenda/Carries.antt =====
-- What the transactions of the agenda keep of its rows.
use digital_colleagues.Base.{
  ◌+◌, ◌≤◌, ◌≡◌, refl, sym, ap, ◌∙◌, ◌⊎◌, inl, inr, Bool, true, false, Option, some, List, [], ◌∷◌,
  map, String, arith, nat_eq, string_eq, option_eq, list_eq, Bool-cases,
}
use digital_colleagues.Core.Common.{DateTime}
use digital_colleagues.Core.Namespace.{Namespace}
use digital_colleagues.Store.Tables.{Key, Key-discrete, key_eq, find, holds, update}
use digital_colleagues.Store.Tables.Keyed.{distinct_keys, find-update, find-update_ne}
use digital_colleagues.Store.Agenda.{
  AgendaRow, agenda_key, AgendaTables, AgendaClaim, starve, select_row, claimed_key,
}
use digital_colleagues.Store.Agenda.Commit.{settle_row}
use digital_colleagues.Store.Agenda.Order.{Chooses, nothing_waits, foremost}
use digital_colleagues.Store.Agenda.Ends.{Ended}

-- What no transaction takes from a row.
pub record Carries (row later : AgendaRow) : Type 0 where
  pub token : row.fencing_token ≤ later.fencing_token
  pub handling : row.handled_generation ≤ later.handled_generation

abbrev pub Carried : AgendaTables → AgendaTables → Type 0
Carried db after =
    (k : Key) (row : AgendaRow)
    → find agenda_key k db.rows ≡ some row
    → (later : AgendaRow) × (find agenda_key k after.rows ≡ some later) × Carries row later

-- The row that a statement names is changed or left, and the others are left.
pub update_either :
    (k : Key) (test : AgendaRow → Bool) (change : AgendaRow → AgendaRow)
    → ((row : AgendaRow) → k ≡ agenda_key row → agenda_key (change row) ≡ k)
    → (rows : List AgendaRow) (other : Key) (row : AgendaRow)
    → find agenda_key other rows ≡ some row
    → (find agenda_key other (update agenda_key k test change rows) ≡ some row)
      ⊎ ((other ≡ k)
          × (find agenda_key other (update agenda_key k test change rows) ≡ some (change row)))
update_either k test change keeps rows other row found = elim (Key-discrete other k) [
  | yes same ↦ elim (Bool-cases (test row)) [
    | inl passes ↦ inr (
      same,
      rw same (find-update agenda_key k test change keeps rows row (rw (sym same) found) passes),
    )
    | inr fails ↦ inl (update_fails rows found fails)
  ]
  | no differ ↦ inl (find-update_ne agenda_key k test change keeps rows other differ ∙ found)
]
  where
    update_fails :
        (rows : List AgendaRow)
        → find agenda_key other rows ≡ some row
        → test row ≡ false
        → find agenda_key other (update agenda_key k test change rows) ≡ some row
    update_fails [] found fails = found
    update_fails (first ∷ rows) found fails = ground (arith, keeps first, update_fails rows)

pub distinct_keys-map :
    (change : AgendaRow → AgendaRow)
    → ((row : AgendaRow) → agenda_key (change row) ≡ agenda_key row)
    → (rows : List AgendaRow) → distinct_keys agenda_key rows ≡ true
    → distinct_keys agenda_key (map change rows) ≡ true
distinct_keys-map change keeps [] keyed = keyed
distinct_keys-map change keeps (row ∷ rows) keyed =
    ground (arith, keeps row, distinct_keys-map change keeps rows, held rows (agenda_key row))
  where
    held :
        (rows : List AgendaRow) (k : Key)
        → holds agenda_key k (map change rows) ≡ holds agenda_key k rows
    held [] k = refl
    held (other ∷ rows) k = ground (arith, keeps other, held rows k)

Carries-starve :
    (namespace : Namespace) (id : String) (row : AgendaRow) → Carries row (starve namespace id row)
unfolding starve
Carries-starve namespace id row = record { token = ground arith; handling = ground arith }

pub claims_carry :
    (namespace : Namespace) (owner : String) (now lease_until : DateTime) (db after : AgendaTables)
    (answer : Option AgendaClaim)
    → Chooses namespace owner now lease_until db after answer
    → Carried db after
claims_carry namespace owner now lease_until db after _ (nothing_waits same nothing) k row found =
    (row, rw same found, record { token = omega arith; handling = omega arith })
claims_carry namespace owner now lease_until db after _
      (foremost chosen item was can first same now_row others) k row found =
    elim (Key-discrete k (agenda_key chosen)) [
      | yes same ↦
          let e : row ≡ chosen = ground (arith, same, found, was) in
          rw e (
            select_row owner lease_until.clock (chosen.fencing_token + 1) chosen,
            rw same now_row,
            record { token = omega arith; handling = omega arith },
          )
      | no differ ↦ (
        starve namespace chosen.agenda_item_id row,
        others k row differ found,
        Carries-starve namespace chosen.agenda_item_id row,
      )
    ]

pub ends_carry :
    (claim : AgendaClaim) (db after : AgendaTables) (test : AgendaRow → Bool)
    (change : AgendaRow → AgendaRow → AgendaRow)
    → ((row other : AgendaRow) → agenda_key (change row other) ≡ agenda_key other)
    → ((row : AgendaRow) → Carries row (change row row))
    → Ended claim db after test change
    → Carried db after
ends_carry claim db after test change keeps carries e k row found =
    elim (update_either (claimed_key claim) test (change e.row)
      (λ other same. keeps e.row other ∙ sym same) db.rows k row found) [
        | inl stays ↦ (
          row,
          ap (find agenda_key k) e.rows ∙ stays,
          record { token = omega arith; handling = omega arith },
        )
        | inr (same, changes) ↦
            let one : row ≡ e.row = ground (arith, same, found, e.found) in
            (change e.row row, ap (find agenda_key k) e.rows ∙ changes, rw one (carries e.row))
      ]

pub Carries-settle_row :
    (claim : AgendaClaim) (row : AgendaRow) → Carries row (settle_row claim row row)
Carries-settle_row claim row = record { token = omega arith; handling = ground arith }
