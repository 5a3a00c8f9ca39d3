-- ===== src/Tran.antt =====
-- src/serv/Transaction.h, Transaction.cpp and the group counters of SessionPool.h: the state of a
-- transaction and the ids that it is given. A statement is its id, and whether it wants a log.
pub mod Ids
mod Examples
use rapid_db.Common.{
  ℕ, zero, suc, ◌+◌, ◌-◌, ◌*◌, ◌%◌, ◌^◌, List, [], ◌∷◌, ◌++◌, Option, none, some, Bool, true, false,
  ◌&&◌, ◌||◌, ltb, ◌==◌, if◌then◌else◌, bit_and, length, get_elem?, set,
}
use rapid_db.Record.{txid_null}

pub data TranStatus : Type 0 where
  init in_tran auto_tran finished : TranStatus

-- `_lstStatement` with IsReadonly and GetRecordSize of each statement.
pub record Statement : Type 0 where
  pub id : ℕ
  pub is_readonly : Bool
  pub record_size : ℕ

-- `_isoLevel` and `_ccProtocol` are numbers here.
pub record Transaction : Type 0 where
  pub tid : ℕ
  pub start_time : ℕ
  pub lst_statement : List Statement
  pub session_id : ℕ
  pub tran_status : TranStatus
  pub iso_level : ℕ
  pub cc_protocol : ℕ
  pub logged : Bool

-- A transaction that is made for a session.
abbrev pub new_transaction : ℕ → Transaction
new_transaction session_id = record {
  tid = txid_null;
  start_time = 2 ^ 64 - 1;
  lst_statement = [];
  session_id = session_id;
  tran_status = init;
  iso_level = 1;
  cc_protocol = 0;
  logged = false;
}

-- `_currTranId` of a new SessionGroup.
unfoldable pub first_tran_id : ℕ → ℕ → ℕ → ℕ
first_tran_id node_id restart_num group_sn =
    (node_id * 2 ^ 52 % 2 ^ 64 + restart_num * 2 ^ 48 + group_sn * 2 ^ 40) % 2 ^ 64

-- The next value of `_currTranId`.
unfoldable pub next_tran_id : ℕ → ℕ
next_tran_id curr =
    if bit_and curr 0xFFFFFFFFFF == 0xFFFFFFFFFF
    then bit_and curr 0xFFFFFF0000000000
    else (curr + 1) % 2 ^ 64

abbrev pub is_idle : TranStatus → Bool
is_idle init = true
is_idle finished = true
is_idle _ = false

-- StartTransaction, with the counters of the groups and the time; none if the assertion fails or there is
-- no group.
unfoldable pub start_transaction :
    Bool → ℕ → ℕ → ℕ → Transaction → List ℕ → Option (Transaction × List ℕ)
unfolding next_tran_id
start_transaction auto iso_level cc_protocol now t groups =
    let g = t.session_id % length groups in
    if is_idle t.tran_status
    then elim (get_elem? groups g) [
      | none ↦ none
      | some curr ↦ some (
        record {
          tid = curr;
          start_time = now;
          lst_statement = t.lst_statement;
          session_id = t.session_id;
          tran_status = if auto then auto_tran else in_tran;
          iso_level = iso_level;
          cc_protocol = cc_protocol;
          logged = false;
        },
        set groups g (next_tran_id curr),
      )
    ]
    else none

unfoldable pub add_statement : Statement → Transaction → Transaction
add_statement s t = record t { lst_statement = t.lst_statement ++ s ∷ [] }

unfoldable pub close_transaction : Transaction → Transaction
close_transaction t = record t { tran_status = finished; lst_statement = [] }

-- IsOvertime, and IsAutoCommit; none if the assertion fails.
unfoldable pub is_overtime : ℕ → Transaction → Option Bool
is_overtime now t = elim t.tran_status [
  | auto_tran ↦ some (ltb (60 * 1000 * 1000) ((now + 2 ^ 64 - t.start_time) % 2 ^ 64))
  | in_tran ↦ some (ltb (3600 * 1000 * 1000) ((now + 2 ^ 64 - t.start_time) % 2 ^ 64))
  | _ ↦ none
]

unfoldable pub is_auto_commit : Transaction → Option Bool
is_auto_commit t = elim t.tran_status [ auto_tran ↦ some true | in_tran ↦ some false | _ ↦ none ]

unfoldable pub is_empty : Transaction → Bool
is_empty t = length t.lst_statement == 0 && is_idle t.tran_status

abbrev pub any_log : List Statement → Bool
any_log [] = false
any_log (s ∷ ss) =
    if s.is_readonly then any_log ss else if ltb 0 s.record_size then true else any_log ss

-- IsNeedLog with the binary log.
unfoldable pub is_need_log : Transaction → Bool
is_need_log t = any_log t.lst_statement
