-- ===== src/Tran/Examples.antt =====
-- The theorems of this part at two groups, and a transaction that starts.
use rapid_db.Common.{◌≡◌, ◌≢◌, refl, arith, true, false, [], ◌∷◌, none, some}
use rapid_db.Tran.{
  first_tran_id, next_tran_id, new_transaction, start_transaction, close_transaction, in_tran,
}
use rapid_db.Tran.Ids.{tran_id_after, tran_ids_differ}

tran_ids_differ_example :
    tran_id_after 5 (first_tran_id 0 3 1) ≢ tran_id_after 9 (first_tran_id 0 3 2)
tran_ids_differ_example =
    tran_ids_differ 0 3 1 2 5 9 (omega arith) (omega arith) (omega arith) (omega arith)
      (λ e. absurd (omega (arith, e)))

-- The last id of a group is followed by its first one.
next_tran_id_last : next_tran_id 0x31FFFFFFFFFF ≡ 0x310000000000
unfolding next_tran_id
next_tran_id_last = refl

-- A transaction that has been closed can be started again, with the next id of its group.
started_twice :
    elim (start_transaction true 1 0 1000 (new_transaction 3) (7 ∷ 9 ∷ [])) [
      | none ↦ none
      | some (t, groups) ↦ start_transaction false 1 0 2000 (close_transaction t) groups
    ]
    ≡ some (
      record (new_transaction 3) { tid = 10; start_time = 2000; tran_status = in_tran },
      7 ∷ 11 ∷ [],
    )
unfolding start_transaction next_tran_id close_transaction
started_twice = refl
