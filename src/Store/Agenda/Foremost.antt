-- ===== src/Store/Agenda/Foremost.antt =====
-- The item of the agenda that a claim takes, in words that do not depend on the code's tests.
use digital_colleagues.Base.{
  ℕ, ◌+◌, ◌<◌, ◌≡◌, refl, sym, ap, ◌∙◌, ◌≢◌, ◌⊎◌, inl, inr, true, ◌&&◌, Option, none, some, String,
  arith, ◌==◌, nat_eq, string_eq, option_eq, list_eq, ltb, Bool-cases, ok, Option-cases,
}
use digital_colleagues.Base.Sorting.{str_leb}
use digital_colleagues.Core.Common.{DateTime}
use digital_colleagues.Core.Namespace.{Namespace, namespace_eq}
use digital_colleagues.Core.Runtime.Agenda.{
  AgendaItem, AgendaItemState, pending, selected, completed, deferred, cancelled,
}
use digital_colleagues.Store.Tables.{Key, key_eq, find}
use digital_colleagues.Store.Tables.Keyed.{distinct_keys, find-key}
use digital_colleagues.Store.Agenda.{
  AgendaRow, agenda_key, AgendaTables, AgendaClaim, selectable, agenda_before, due_first, starve,
  is_pending, is_selected, lease_past, claim_agenda,
}
use digital_colleagues.Store.Agenda.Order.{Chooses, nothing_waits, foremost, claim_agenda-Chooses}

-- A row that waits: of the namespace, pending, with a generation that is not handled.
pub record IsWaiting (namespace : Namespace) (row : AgendaRow) : Type 0 where
  pub home : row.namespace ≡ namespace
  pub newer : row.handled_generation < row.generation
  pub waits : row.state ≡ pending

-- A row whose claim ran out before the time `now`, with a generation that is not handled.
pub record IsExpired (namespace : Namespace) (now : ℕ) (row : AgendaRow) : Type 0 where
  pub home : row.namespace ≡ namespace
  pub newer : row.handled_generation < row.generation
  pub held : row.state ≡ selected
  pub lease_until : ℕ
  pub lease : row.lease_until ≡ some lease_until
  pub over : lease_until < now

abbrev pub IsOpen : Namespace → ℕ → AgendaRow → Type 0
IsOpen namespace now row = IsWaiting namespace row ⊎ IsExpired namespace now row

-- By due time, those without one last, and then by identifier.
pub data DueFirst (row other : AgendaRow) : Type 0 where
  dated : (due : ℕ) → row.due_at ≡ some due → other.due_at ≡ none → DueFirst row other
  sooner :
      (due later : ℕ)
      → row.due_at ≡ some due
      → other.due_at ≡ some later
      → due < later
      → DueFirst row other
  by_id :
      row.due_at ≡ other.due_at
      → str_leb row.agenda_item_id other.agenda_item_id ≡ true
      → DueFirst row other

-- The row has starved more, or as much with a greater priority, or the same with an earlier due time.
pub data Outranks (row other : AgendaRow) : Type 0 where
  starved : other.starvation_count < row.starvation_count → Outranks row other
  weighs :
      row.starvation_count ≡ other.starvation_count
      → other.priority < row.priority
      → Outranks row other
  ties :
      row.starvation_count ≡ other.starvation_count
      → row.priority ≡ other.priority
      → DueFirst row other
      → Outranks row other

pending_of : (state : AgendaItemState) → is_pending state ≡ true → state ≡ pending
pending_of pending h = refl
pending_of selected h = cc
pending_of completed h = cc
pending_of deferred h = cc
pending_of cancelled h = cc

selected_of : (state : AgendaItemState) → is_selected state ≡ true → state ≡ selected
selected_of selected h = refl
selected_of pending h = cc
selected_of completed h = cc
selected_of deferred h = cc
selected_of cancelled h = cc

lease_of :
    (lease : Option ℕ) (now : ℕ)
    → lease_past lease now ≡ true
    → (lease_until : ℕ) × (lease ≡ some lease_until) × (lease_until < now)
lease_of none now h = cc
lease_of (some until) now h = (until, refl, ground arith)

selectable-IsOpen :
    (namespace : Namespace) (now : ℕ) (row : AgendaRow)
    → selectable namespace now row ≡ true
    → IsOpen namespace now row
unfolding selectable
selectable-IsOpen namespace now row can = elim (Bool-cases (is_pending row.state)) [
  | inl waits ↦
      inl (record { home = ground arith; newer = ground arith; waits = pending_of row.state waits })
  | inr other ↦
      let held : is_selected row.state ≡ true = ground arith in
      let (until, lease, over) = lease_of row.lease_until now (ground arith) in
      inr (record {
        home = ground arith;
        newer = ground arith;
        held = selected_of row.state held;
        lease_until = until;
        lease = lease;
        over = over;
      })
]

IsOpen-selectable :
    (namespace : Namespace) (now : ℕ) (row : AgendaRow)
    → IsOpen namespace now row
    → selectable namespace now row ≡ true
unfolding selectable
IsOpen-selectable namespace now row (inl is) =
    ground (arith, is.home, is.newer, ap is_pending is.waits)
IsOpen-selectable namespace now row (inr is) =
    ground (arith, is.home, is.newer, ap is_selected is.held, is.lease, is.over)

due_first-DueFirst :
    (row other : AgendaRow)
    → due_first row.due_at other.due_at row.agenda_item_id other.agenda_item_id ≡ true
    → DueFirst row other
due_first-DueFirst row other first = elim (Option-cases row.due_at) [
  | inl undated ↦ elim (Option-cases other.due_at) [
    | inl undated2 ↦ by_id (undated ∙ sym undated2) (ground (arith, undated, undated2))
    | inr (due2, e2) ↦ ground (arith, undated, e2)
  ]
  | inr (due, e) ↦ elim (Option-cases other.due_at) [
    | inl undated2 ↦ dated due e undated2
    | inr (due2, e2) ↦ elim (Bool-cases (ltb due due2)) [
      | inl less ↦ sooner due due2 e e2 (ground (arith, less))
      | inr more ↦
          let same : due ≡ due2 = ground (arith, e, e2, more) in
          by_id (e ∙ ap some same ∙ sym e2) (ground (arith, e, e2, more))
    ]
  ]
]

agenda_before-Outranks :
    (row other : AgendaRow) → agenda_before row other ≡ true → Outranks row other
unfolding agenda_before
agenda_before-Outranks row other first =
    elim (Bool-cases (ltb other.starvation_count row.starvation_count)) [
      | inl more ↦ starved (ground (arith, more))
      | inr less ↦ elim (Bool-cases (ltb other.priority row.priority)) [
        | inl above ↦ weighs (ground (arith, less)) (ground (arith, above))
        | inr below ↦
            ties (ground (arith, less)) (ground (arith, less, below))
              (due_first-DueFirst row other (ground (arith, less, below)))
      ]
    ]

-- What becomes of a row that was not taken.
abbrev pub PassedOver : Namespace → AgendaRow → AgendaRow → Type 0
PassedOver namespace other later =
    (IsWaiting namespace other
      × (later ≡ record other { starvation_count = other.starvation_count + 1 }))
    ⊎ ((¬ IsWaiting namespace other) × (later ≡ other))

starve-PassedOver :
    (namespace : Namespace) (id : String) (other : AgendaRow)
    → (other.namespace ≡ namespace → other.agenda_item_id ≢ id)
    → PassedOver namespace other (starve namespace id other)
unfolding starve
starve-PassedOver namespace id other differ =
    elim (Bool-cases (
      other.namespace == namespace
      && ltb other.handled_generation other.generation
      && is_pending other.state)) [
        | inl waits ↦
            let home : other.namespace ≡ namespace = ground (arith, waits) in
            inl (
              record {
                home = home;
                newer = ground (arith, waits);
                waits = pending_of other.state (ground (arith, waits));
              },
              ground (arith, waits, differ home),
            )
        | inr stays ↦ inr (
          λ is. ground (arith, stays, is.home, is.newer, ap is_pending is.waits),
          ground (arith, stays),
        )
      ]

-- What is said of the answer of a claim of the agenda.
pub data Picks (namespace : Namespace) (owner : String) (now lease_until : DateTime)
    (db after : AgendaTables) : Option AgendaClaim → Type 0 where
  none_open :
      after ≡ db
      → ((k : Key) (row : AgendaRow)
          → find agenda_key k db.rows ≡ some row
          → ¬ IsOpen namespace now.clock row)
      → Picks namespace owner now lease_until db after none
  picked :
      (row : AgendaRow) (item : AgendaItem)
      → find agenda_key (agenda_key row) db.rows ≡ some row
      → IsOpen namespace now.clock row
      → ((k : Key) (other : AgendaRow)
          → find agenda_key k db.rows ≡ some other
          → IsOpen namespace now.clock other
          → Outranks row other)
      → item.agenda_item_id ≡ row.agenda_item_id
      → find agenda_key (agenda_key row) after.rows
        ≡ some (record row {
          state = selected;
          lease_owner = some owner;
          lease_until = some lease_until.clock;
          fencing_token = row.fencing_token + 1;
          starvation_count = 0;
          revision = row.revision + 1;
        })
      → ((k : Key) (other : AgendaRow)
          → k ≢ agenda_key row
          → find agenda_key k db.rows ≡ some other
          → (later : AgendaRow) × (find agenda_key k after.rows ≡ some later)
            × PassedOver namespace other later)
      → Picks namespace owner now lease_until db after (
          some (record {
            namespace = namespace;
            agenda_item = item;
            lease_owner = owner;
            lease_until = lease_until;
            fencing_token = row.fencing_token + 1;
            claimed_generation = row.generation;
            schema_version = 1;
          }))

open_home :
    (namespace : Namespace) (now : ℕ) (row : AgendaRow)
    → IsOpen namespace now row
    → row.namespace ≡ namespace
open_home namespace now row (inl is) = is.home
open_home namespace now row (inr is) = is.home

Chooses-Picks :
    (namespace : Namespace) (owner : String) (now lease_until : DateTime) (db after : AgendaTables)
    (answer : Option AgendaClaim)
    → Chooses namespace owner now lease_until db after answer
    → Picks namespace owner now lease_until db after answer
Chooses-Picks namespace owner now lease_until db after _ (nothing_waits same nothing) =
    none_open same (λ k row found is.
      let passes = IsOpen-selectable namespace now.clock row is in
      let fails = nothing k row found in cc (passes, fails))
Chooses-Picks namespace owner now lease_until db after _
      (foremost row item found can first same now_row others) =
    let is = selectable-IsOpen namespace now.clock row can in
    let home = open_home namespace now.clock row is in
    picked row item found is
      (λ k other found2 is2.
        agenda_before-Outranks row other
          (first k other found2 (IsOpen-selectable namespace now.clock other is2)))
      same now_row
      (λ k other differ found2. (
        starve namespace row.agenda_item_id other,
        others k other differ found2,
        starve-PassedOver namespace row.agenda_item_id other (λ own one.
            let key : agenda_key other ≡ k = find-key agenda_key k db.rows other found2 in
            let keys : agenda_key other ≡ agenda_key row = cc (own, one, home) in
            differ (sym key ∙ keys)),
      ))

-- A claim of the agenda whose rows have distinct keys. A row of the namespace is open if it has a
-- generation that is not handled and is pending, or is selected under a lease that ended before the
-- time of the claim. Where the claim answers with none, the tables are unchanged and no row is open.
-- Where it answers with a claim, this is of an open row that outranks every open row: it has starved
-- more, or as much with a greater priority, or the same with a due time that is earlier, or is the
-- only one, or else with an identifier that does not come later. The claim carries the generation
-- and the next fencing token of the row, which is afterwards selected under the claim's lease, with
-- that token, no starvation and the next revision, and otherwise as it was. Of the other rows, those
-- of the namespace that are pending with a generation that is not handled starve by one more, and
-- the rest are unchanged.
pub claim_agenda-Picks :
    (namespace : Namespace) (owner : String) (now lease_until : DateTime) (db after : AgendaTables)
    (answer : Option AgendaClaim)
    → distinct_keys agenda_key db.rows ≡ true
    → claim_agenda namespace owner now lease_until db ≡ ok (after, answer)
    → Picks namespace owner now lease_until db after answer
claim_agenda-Picks namespace owner now lease_until db after answer keyed done =
    Chooses-Picks namespace owner now lease_until db after answer
      (claim_agenda-Chooses namespace owner now lease_until db after answer keyed done)
