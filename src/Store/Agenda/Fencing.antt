-- ===== src/Store/Agenda/Fencing.antt =====
-- What a claim of the agenda is worth once a later claim of the item was made, or its generation
-- was handled.
use digital_colleagues.Base.{
  ℕ, ◌+◌, ◌≤◌, ◌<◌, ◌≡◌, refl, sym, ap, ◌∙◌, inl, inr, true, ◌&&◌, none, some, String, arith,
  nat_eq, string_eq, option_eq, list_eq, ltb, ok, err, conflict,
}
use digital_colleagues.Core.Common.{DateTime}
use digital_colleagues.Core.Namespace.{Namespace}
use digital_colleagues.Store.Tables.{Key, key_eq, find}
use digital_colleagues.Store.Tables.Keyed.{distinct_keys, find-update}
use digital_colleagues.Store.Agenda.{
  AgendaRow, agenda_key, AgendaTables, AgendaClaim, select_row, claim_agenda, claimed_key,
  holds_row, require_agenda_claim,
}
use digital_colleagues.Store.Agenda.Commit.{
  release_agenda, SemanticDecision, settle_row, commit_semantic_decision,
}
use digital_colleagues.Store.Agenda.Order.{claim_agenda_parts}
use digital_colleagues.Store.Agenda.Ends.{same_lease, commit_semantic_decision-Ended}
use digital_colleagues.Store.Agenda.{selectable}
use digital_colleagues.Store.Tables.Keyed.{find-key}
use digital_colleagues.Store.Tables.Earliest.{find-earliest, earliest_passes}
use digital_colleagues.Store.Agenda.{agenda_before}
use digital_colleagues.Store.Agenda.Order.{row_after}
use digital_colleagues.Store.Agenda.Runs.{
  AgendaRun, run_carries, claims_keyed, step_carries, commits,
}

selectable_parts :
    (namespace : Namespace) (now : ℕ) (row : AgendaRow)
    → selectable namespace now row ≡ true
    → (row.namespace ≡ namespace) × (row.handled_generation < row.generation)
unfolding selectable
selectable_parts namespace now row can = (ground arith, ground arith)

-- A claim that was granted, and its row.
record Granted (db after : AgendaTables) (claim : AgendaClaim) : Type 0 where
  row : AgendaRow
  later : AgendaRow
  found : find agenda_key (claimed_key claim) db.rows ≡ some row
  open_row : row.handled_generation < row.generation
  generation : claim.claimed_generation ≡ row.generation
  leased : find agenda_key (claimed_key claim) after.rows ≡ some later
  next_token : claim.fencing_token ≡ row.fencing_token + 1
  token : later.fencing_token ≡ claim.fencing_token

claim_agenda-Granted :
    (namespace : Namespace) (owner : String) (now lease_until : DateTime) (db after : AgendaTables)
    (claim : AgendaClaim)
    → distinct_keys agenda_key db.rows ≡ true
    → claim_agenda namespace owner now lease_until db ≡ ok (after, some claim)
    → Granted db after claim
claim_agenda-Granted namespace owner now lease_until db after claim keyed done =
    elim (claim_agenda_parts namespace owner now lease_until db after (some claim) done) [
      | inl (nothing, same, e) ↦ cc
      | inr (row, chosen, s) ↦
          let found =
            find-earliest agenda_key (selectable namespace now.clock) agenda_before db.rows row
              keyed chosen in
          let (home, more) =
            selectable_parts namespace now.clock row
              (earliest_passes (selectable namespace now.clock) agenda_before db.rows row chosen) in
          let key : claimed_key claim ≡ agenda_key row =
            ground (arith, s.handed, s.same_item, home) in
          record {
            row = row;
            later = select_row owner lease_until.clock (row.fencing_token + 1) row;
            found = rw key found;
            open_row = more;
            generation = ground (arith, s.handed);
            leased =
                rw key (row_after namespace owner lease_until row db after (some claim) s found);
            next_token = ground (arith, s.handed);
            token = ground (arith, s.handed);
          }
    ]

refused_token :
    (old : AgendaClaim) (db : AgendaTables) (row : AgendaRow)
    → find agenda_key (claimed_key old) db.rows ≡ some row
    → old.fencing_token < row.fencing_token
    → require_agenda_claim old db ≡ err conflict
unfolding require_agenda_claim
refused_token old db row found less = ground (arith, found)

-- A claim is fenced off by the next one of its item: where two claims of one item of the agenda,
-- whose rows have distinct keys, were granted, with any run of claims, releases and commits, and of
-- triggers that become wake cycles, before the second and after it, the first is refused as a
-- conflict when it is released and when it commits a decision.
pub superseded_agenda_claim_refused :
    (namespace namespace2 : Namespace) (owner owner2 : String)
    (now lease_until now2 lease_until2 : DateTime) (db granted before again after : AgendaTables)
    (old claim : AgendaClaim)
    → distinct_keys agenda_key db.rows ≡ true
    → claim_agenda namespace owner now lease_until db ≡ ok (granted, some old)
    → AgendaRun granted before
    → claim_agenda namespace2 owner2 now2 lease_until2 before ≡ ok (again, some claim)
    → AgendaRun again after
    → claimed_key old ≡ claimed_key claim
    → (release_agenda old after ≡ err conflict)
      × ((semantic : SemanticDecision) → commit_semantic_decision old semantic after ≡ err conflict)
unfolding release_agenda commit_semantic_decision
superseded_agenda_claim_refused namespace namespace2 owner owner2 now lease_until now2 lease_until2
      db granted before again after old claim keyed first run second run2 same =
    let g = claim_agenda-Granted namespace owner now lease_until db granted old keyed first in
    let keyed2 = claims_keyed namespace owner now lease_until db granted (some old) first keyed in
    let (keyed3, carried) = run_carries granted before keyed2 run in
    let (row, found, carries) = carried (claimed_key old) g.later g.leased in
    let h =
      claim_agenda-Granted namespace2 owner2 now2 lease_until2 before again claim keyed3 second in
    let one : h.row ≡ row = ground (arith, found, h.found, same) in
    let keyed4 =
      claims_keyed namespace2 owner2 now2 lease_until2 before again (some claim) second keyed3 in
    let (row2, found2, carries2) =
      (run_carries again after keyed4 run2).1 (claimed_key claim) h.later h.leased in
    let refused : require_agenda_claim old after ≡ err conflict =
      refused_token old after row2 (rw same found2) (
        omega (
          arith,
          g.token,
          carries.token,
          ap (λ (r : AgendaRow). r.fencing_token) one,
          h.next_token,
          h.token,
          carries2.token,
        )) in
    (rw refused refl, λ semantic. rw refused refl)

-- The row of the item after a commit.
committed_after :
    (claim : AgendaClaim) (semantic : SemanticDecision) (db after : AgendaTables)
    → commit_semantic_decision claim semantic db ≡ ok after
    → (row : AgendaRow) × (find agenda_key (claimed_key claim) db.rows ≡ some row)
      × (find agenda_key (claimed_key claim) after.rows ≡ some (settle_row claim row row))
committed_after claim semantic db after done =
    let e = commit_semantic_decision-Ended claim semantic db after done in
    (
      e.row,
      e.found,
      ap (find agenda_key (claimed_key claim)) e.rows
          ∙ find-update agenda_key (claimed_key claim) (same_lease claim) (settle_row claim e.row)
              (λ other same. sym same) db.rows e.row e.found (lease_of claim e.row e.held),
    )
  where
    lease_of :
        (claim : AgendaClaim) (row : AgendaRow)
        → holds_row claim row ≡ true
        → same_lease claim row ≡ true
    lease_of claim row held = ground arith

-- The generation that a claim of the agenda committed is handled, and work that came meanwhile is
-- not lost: after a commit, the row of the item, which is kept with the generation it had, can be
-- selected, at any time, exactly where its generation is later than the one that was claimed and
-- than the one that was handled before; and no lease is left on it.
pub commit_semantic_decision-reopens :
    (claim : AgendaClaim) (semantic : SemanticDecision) (db after : AgendaTables) (row : AgendaRow)
    → find agenda_key (claimed_key claim) db.rows ≡ some row
    → commit_semantic_decision claim semantic db ≡ ok after
    → (later : AgendaRow) × (find agenda_key (claimed_key claim) after.rows ≡ some later)
      × (later.generation ≡ row.generation)
      × (later.lease_owner ≡ none)
      × (later.lease_until ≡ none)
      × (claim.claimed_generation ≤ later.handled_generation)
      × ((now : ℕ)
          → selectable claim.namespace now later ≡ (
              ltb claim.claimed_generation row.generation
              && ltb row.handled_generation row.generation))
unfolding selectable
commit_semantic_decision-reopens claim semantic db after row found done =
    let (kept, was, now_row) = committed_after claim semantic db after done in
    let one : row ≡ kept = ground (arith, found, was) in
    let home : row.namespace ≡ claim.namespace =
      ap (λ (k : Key). k.namespace) (find-key agenda_key (claimed_key claim) db.rows row found) in
    (
      settle_row claim row row,
      rw one now_row,
      refl,
      refl,
      refl,
      ground arith,
      λ now. ground (arith, home),
    )

-- No generation of an item is handled twice: where a claim of an item of the agenda, whose rows
-- have distinct keys, has committed a decision, a claim of the item that is granted after any
-- run of claims, releases and commits, and of triggers that become wake cycles, has claimed a
-- later generation.
pub handled_once :
    (first second : AgendaClaim) (semantic : SemanticDecision)
    (db committed later after : AgendaTables) (namespace : Namespace) (owner : String)
    (now lease_until : DateTime)
    → distinct_keys agenda_key db.rows ≡ true
    → commit_semantic_decision first semantic db ≡ ok committed
    → AgendaRun committed later
    → claim_agenda namespace owner now lease_until later ≡ ok (after, some second)
    → claimed_key second ≡ claimed_key first
    → first.claimed_generation < second.claimed_generation
handled_once first second semantic db committed later after namespace owner now lease_until keyed
      done run again same =
    let (kept, was, settled) = committed_after first semantic db committed done in
    let keyed2 = (step_carries db committed (commits first semantic done) keyed).0 in
    let (keyed3, carried) = run_carries committed later keyed2 run in
    let (row, found, carries) = carried (claimed_key first) (settle_row first kept kept) settled in
    let g = claim_agenda-Granted namespace owner now lease_until later after second keyed3 again in
    let one : g.row ≡ row = ground (arith, found, g.found, same) in
    ground (
      arith,
      carries.handling,
      g.open_row,
      g.generation,
      ap (λ (r : AgendaRow). r.generation) one,
      ap (λ (r : AgendaRow). r.handled_generation) one,
    )
