-- ===== src/Store/Records/Laws.antt =====
-- What is found in a table of records after an insertion or an update.
use digital_colleagues.Base.{
  ℕ, ◌≡◌, refl, ◌≢◌, inl, inr, true, some, List, arith, nat_eq, string_eq, option_eq, list_eq, ok,
  Option-cases,
}
use digital_colleagues.Store.Tables.{Key, key_eq, find, insert, update, touched}
use digital_colleagues.Store.Tables.Keyed.{find-update, find-update_ne}
use digital_colleagues.Store.Records.{
  Columns, AuditRow, row_key, is_current, insert_record, update_record,
}

module _ {Row : Type 0} (columns : Row → Columns) where
  pub insert_record-insert :
      (self : Row) (rows : List Row) (audit : List AuditRow) (result : List Row × List AuditRow)
      → insert_record columns self rows audit ≡ ok result
      → insert (row_key columns) self rows ≡ ok result.0
  unfolding insert_record
  insert_record-insert self rows audit result done = ground arith

  module _ (self : Row) (expected : ℕ) (rows : List Row) (audit : List AuditRow)
      (result : List Row × List AuditRow)
      (done : update_record columns self expected rows audit ≡ ok result) where
    changed :
        (touched (row_key columns) (row_key columns self) (is_current columns expected) rows ≡ true)
        × (result.0
            ≡ update
                (row_key columns)
                (row_key columns self)
                (is_current columns expected)
                (λ row. self)
                rows)
    unfolding update_record
    changed = (ground arith, ground arith)

    -- The row of the record is the record.
    pub find-update_record : find (row_key columns) (row_key columns self) result.0 ≡ some self
    find-update_record = elim (Option-cases (find (row_key columns) (row_key columns self) rows)) [
      | inl nothing ↦ ground (arith, changed.0, nothing)
      | inr (row, found) ↦
          let current : is_current columns expected row ≡ true = ground (arith, changed.0, found) in
          rw
            (
              changed.1,
              find-update (row_key columns) (row_key columns self) (is_current columns expected)
                  (λ row. self) (λ row same. refl) rows row found current,
            )
            refl
    ]

    pub find-update_record_ne :
        (other : Key)
        → other ≢ row_key columns self
        → find (row_key columns) other result.0 ≡ find (row_key columns) other rows
    find-update_record_ne other differ =
        rw
          (
            changed.1,
            find-update_ne (row_key columns) (row_key columns self) (is_current columns expected)
                (λ row. self) (λ row same. refl) rows other differ,
          )
          refl
