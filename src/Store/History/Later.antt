-- ===== src/Store/History/Later.antt =====
-- What becomes of a row of the outbox.
use digital_colleagues.Base.{
  ◌≡◌, sym, ◌∙◌, inl, inr, some, String, nat_eq, string_eq, option_eq, list_eq,
}
use digital_colleagues.Store.Tables.{Key, key_eq, find}
use digital_colleagues.Store.Tables.Keyed.{find-insert_old}
use digital_colleagues.Store.Database.{Database, OutboxRow, outbox_key, outbox_state_eq}
use digital_colleagues.Store.Sound.{IsSound}
use digital_colleagues.Store.Sound.Move.{Advances, Moves}
use digital_colleagues.Store.History.{Step, Step_cases, onwards-IsSound, Reach, here, next}

-- The row later on, after any number of steps of its life.
pub data Lives (row : OutboxRow) : OutboxRow → Type 0 where
  same : Lives row row
  advance : {middle after : OutboxRow} → Lives row middle → Advances middle after → Lives row after

Lives-trans : (a b c : OutboxRow) → Lives a b → Lives b c → Lives a c
Lives-trans a b _ first same = first
Lives-trans a b c first (advance {middle = middle} more step) =
    advance (Lives-trans a b middle first more) step

module _ (recovery_digest : String → String) where
  moved_row :
      (db after : Database) (k : Key) (row : OutboxRow)
      → find outbox_key k db.outbox ≡ some row
      → Moves db after
      → (later : OutboxRow) × (find outbox_key k after.outbox ≡ some later) × Lives row later
  moved_row db after k row found (inl e) = (row, rw e found, same)
  moved_row db after k row found (inr (l, old, new, move)) = elim (key_eq.decide_eq k l) [
    | yes e ↦
        let old_row : old ≡ row = cc (found, move.was, e) in
        (new, rw e move.is, rw (sym old_row) (advance same move.advances))
    | no differ ↦ (row, move.others k differ ∙ found, same)
  ]

  step_row :
      (db after : Database) (k : Key) (row : OutboxRow)
      → IsSound db
      → Step recovery_digest db after
      → find outbox_key k db.outbox ≡ some row
      → (later : OutboxRow) × (find outbox_key k after.outbox ≡ some later) × Lives row later
  step_row db after k row sound step found = elim (Step_cases recovery_digest db after sound step) [
    | inl moves ↦ moved_row db after k row found moves
    | inr (extends, inl e) ↦ (row, rw e found, same)
    | inr (extends, inr (new, added)) ↦ (
      row,
      find-insert_old outbox_key new db.outbox after.outbox added.inserted k row found,
      same,
    )
  ]

  -- Whatever transactions of the outbox follow on a sound database, a row of the outbox stays under
  -- its key, and what becomes of it is a run of the life cycle of an effect: its state moves by
  -- `follows`, each claim raises the fencing token by one, each retry raises the number of the
  -- attempt by one, nothing else changes these numbers, and the proposal, the approval, the
  -- idempotency key and the maximum of attempts stay.
  pub Reach-Lives :
      (db after : Database) (k : Key) (row : OutboxRow)
      → IsSound db
      → Reach recovery_digest db after
      → find outbox_key k db.outbox ≡ some row
      → (later : OutboxRow) × (find outbox_key k after.outbox ≡ some later) × Lives row later
  Reach-Lives db _ k row sound here found = (row, found, same)
  Reach-Lives db after k row sound (next {middle = middle} run step) found =
      let (earlier, kept, lives) = Reach-Lives db middle k row sound run found in
      let (later, found2, lives2) =
        step_row middle after k earlier (onwards-IsSound recovery_digest db middle sound run) step
          kept in
      (later, found2, Lives-trans row earlier later lives lives2)
