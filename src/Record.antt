-- ===== src/Record.antt =====
-- src/core/LeafRecord.h, LeafRecord.cpp and the enumerations of CoreEnum.h that they use.
-- A record and the older versions that its lock saves for rollback (`_undoRec`) are the version in
-- the page and a list of older ones, newest first. Statements are told apart by their transactions.
pub mod Ops
pub mod Length
pub mod Read
pub mod Release
pub mod Isolation
mod Examples
use rapid_db.Common.{
  ℕ, zero, suc, ◌+◌, ◌-◌, ◌^◌, List, [], ◌∷◌, ◌++◌, Option, none, some, Bool, true, false, ◌&&◌,
  ◌||◌, not, ◌==◌, ltb, if◌then◌else◌, bit_and,
}

pub data ActionType : Type 0 where
  no_action read_share read_update insert update delete upsert : ActionType

-- The bit of each action, and the masks over them.
abbrev pub code : ActionType → ℕ
code no_action = 0
code read_share = 0x1
code read_update = 0x2
code insert = 0x10
code update = 0x20
code delete = 0x40
code upsert = 0x80

abbrev pub read_lock_mask : ℕ
read_lock_mask = 0x3

abbrev pub write_lock_mask : ℕ
write_lock_mask = 0xF2

abbrev pub updateable_mask : ℕ
updateable_mask = 0xF0

abbrev pub masks : ActionType → ℕ → Bool
masks a m = not (bit_and (code a) m == 0)

abbrev pub is_action : ActionType → ActionType → Bool
is_action a b = code a == code b

pub data RecordStatus : Type 0 where
  init lock_only commited rollbacked freeed : RecordStatus

-- `status >= RecordStatus::COMMITED`
abbrev pub is_ended : RecordStatus → Bool
is_ended init = false
is_ended lock_only = false
is_ended _ = true

pub data ReadResult : Type 0 where
  ok_nolock ok_lock locked rec_delete invalid_version : ReadResult

pub data ReleaseResult : Type 0 where
  finished deleted unfinish : ReleaseResult

pub data SecLockResult : Type 0 where
  locked nolock conflict : SecLockResult

abbrev pub txid_null : ℕ
txid_null = 2 ^ 64 - 1

-- RecordLock. `undo` is left to the list of versions, `_stmt` is whether a statement is named.
pub record RecordLock : Type 0 where
  pub act_type : ActionType
  pub rec_status : RecordStatus
  pub gap_lock : Bool
  pub has_stmt : Bool
  pub lst_txid : List ℕ

abbrev pub new_lock : ActionType → RecordStatus → Bool → ℕ → RecordLock
new_lock t s gap txid = record {
  act_type = t;
  rec_status = s;
  gap_lock = gap;
  has_stmt = not (is_action t read_share && not gap);
  lst_txid = txid ∷ [];
}

-- The bytes of a record that the operations here look at: its key, its key with its value, and the
-- total length in its first two bytes.
pub record Bytes : Type 0 where
  pub key : List ℕ
  pub content : List ℕ
  pub actual_length : ℕ

pub record Version : Type 0 where
  pub bys_val : Option Bytes
  pub is_delete : Bool
  pub overflow_page : Option (ℕ × ℕ)  -- first page and number of pages
  pub rec_lock : Option RecordLock

abbrev pub actual_length : Version → ℕ
actual_length v = elim v.bys_val [ none ↦ 0 | some b ↦ b.actual_length ]

-- GetTotalLength
abbrev pub total_length : Version → ℕ
total_length v = if v.is_delete then 0 else actual_length v

-- IsStable
unfoldable pub is_stable : Version → Bool
is_stable v = elim v.rec_lock [
  | none ↦ true
  | some l ↦ if not (masks l.act_type updateable_mask) then true else is_ended l.rec_status
]

abbrev pub all_null : List ℕ → Bool
all_null [] = true
all_null (t ∷ ts) = t == txid_null && all_null ts

abbrev pub lock_releasable : RecordLock → Bool
lock_releasable l =
    if is_action l.act_type read_share then all_null l.lst_txid else is_ended l.rec_status

-- ReleaseLockAble
unfoldable pub release_lock_able : Version → Bool
release_lock_able v = elim v.rec_lock [ none ↦ false | some l ↦ lock_releasable l ]

-- Whether some transaction other than `txid` stands in the list.
abbrev pub held_by_other : ℕ → List ℕ → Bool
held_by_other txid [] = false
held_by_other txid (t ∷ ts) = (not (t == txid_null) && not (t == txid)) || held_by_other txid ts

unfoldable pub is_conflict : Version → ℕ → ActionType → Bool
is_conflict v txid atype = elim v.rec_lock [
  | none ↦ false
  | some l ↦
      if is_ended l.rec_status
      then false
      else if is_action atype read_share && is_action l.act_type read_share
      then false
      else held_by_other txid l.lst_txid
]

-- The list has one transaction, and it is `txid`.
abbrev pub is_only : ℕ → List ℕ → Bool
is_only txid (t ∷ []) = t == txid
is_only txid _ = false

unfoldable pub lock_able : Version → ℕ → ActionType → Bool
lock_able v txid act_type = elim v.rec_lock [
  | none ↦ true
  | some l ↦
      if is_only txid l.lst_txid
      then true
      else is_action act_type read_share && is_action l.act_type read_share
]
