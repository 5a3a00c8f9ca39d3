-- ===== src/Record/Ops.antt =====
-- The operations of LeafRecord on its lock and its older versions.
use rapid_db.Common.{
  ℕ, ◌+◌, List, [], ◌∷◌, ◌++◌, Option, none, some, Bool, true, false, ◌&&◌, ◌||◌, not, ◌==◌,
  if◌then◌else◌,
}
use rapid_db.Record.{
  ActionType, no_action, read_share, read_update, delete, is_action, masks, read_lock_mask,
  write_lock_mask, updateable_mask, RecordStatus, lock_only, rollbacked, freeed, ReadResult,
  ok_nolock, ok_lock, rec_delete, ReleaseResult, finished, deleted, unfinish, SecLockResult, nolock,
  conflict, txid_null, RecordLock, new_lock, Version, total_length, lock_releasable, held_by_other,
  is_only,
}

-- SubmitStatement: the first entry of the transaction in a shared lock is cleared, any other lock
-- gets its end status.
unfoldable pub clear_first : ℕ → List ℕ → List ℕ
clear_first txid [] = []
clear_first txid (t ∷ ts) = if t == txid then txid_null ∷ ts else t ∷ clear_first txid ts

abbrev pub is_freeed : RecordStatus → Bool
is_freeed freeed = true
is_freeed _ = false

unfoldable pub submit_lock : RecordLock → ℕ → RecordStatus → RecordLock
unfolding clear_first
submit_lock l txid sts =
    if is_freeed sts && is_action l.act_type read_share
    then record l { lst_txid = clear_first txid l.lst_txid }
    else record l { has_stmt = false; rec_status = sts }

unfoldable pub submit_statement : Version → ℕ → RecordStatus → Version
unfolding submit_lock
submit_statement v txid sts = elim v.rec_lock [
  | none ↦ v
  | some l ↦ record v { rec_lock = some (submit_lock l txid sts) }
]

unfoldable pub has_txid : ℕ → List ℕ → Bool
has_txid txid [] = false
has_txid txid (t ∷ ts) = t == txid || has_txid txid ts

abbrev pub last_is : ℕ → List ℕ → Bool
last_is txid [] = false
last_is txid (t ∷ []) = t == txid
last_is txid (t ∷ u ∷ ts) = last_is txid (u ∷ ts)

unfoldable pub secondary_read_lock : Version → ℕ → ActionType → Version × SecLockResult
unfolding has_txid
secondary_read_lock v txid act_type = elim v.rec_lock [
  | none ↦
      (record v { rec_lock = some (new_lock act_type lock_only false txid) }, SecLockResult.locked)
  | some l ↦
      if is_action act_type read_share && is_action l.act_type read_share
      then if has_txid txid l.lst_txid then (v, nolock) else (
        record v { rec_lock = some (record l { lst_txid = l.lst_txid ++ txid ∷ [] }) },
        SecLockResult.locked,
      )
      else if is_only txid l.lst_txid
      then (v, nolock)
      else (v, conflict)
]

-- The version that a read without a lock sees: the newest that no statement is changing.
unfoldable pub unchanged : List Version → Option Version
unchanged [] = none
unchanged (v ∷ vs) = elim v.rec_lock [
  | none ↦ some v
  | some l ↦ if masks l.act_type read_lock_mask then some v else unchanged vs
]

-- ReadListValue up to the decoding of the fields: what the read finds in its way, ...
pub data Found : Type 0 where
  blocked : Found
  see : Version → Found

-- ... where a write lock over shared ones of the same transaction keeps one entry, ...
unfoldable pub sole_owner : RecordLock → ℕ → ActionType → RecordLock
sole_owner l txid atype = elim l.lst_txid [
  | [] ↦ l
  | t ∷ ts ↦ elim ts [
    | [] ↦ l
    | u ∷ us ↦ if masks atype write_lock_mask then record l { lst_txid = txid ∷ [] } else l
  ]
]

unfoldable pub find_version : Version → List Version → ℕ → ActionType → Found
unfolding unchanged
find_version v older txid atype = elim v.rec_lock [
  | none ↦ see v
  | some l ↦
      if masks atype write_lock_mask
      then if held_by_other txid l.lst_txid then blocked else see v
      else if is_action atype read_share
          && (not (is_action l.act_type read_share) && not (last_is txid l.lst_txid))
      then blocked
      else if is_action atype no_action && masks l.act_type updateable_mask
      then elim (unchanged older) [ none ↦ blocked | some u ↦ see u ]
      else see v
]

-- ... and the lock that a locking read adds or joins; the result is whether it was added.
unfoldable pub join_lock : RecordLock → ℕ → ActionType → Bool → RecordLock × Bool
unfolding has_txid
join_lock l txid atype gap =
    let there = has_txid txid l.lst_txid in
    let raised = is_action atype read_update && is_action l.act_type read_share in
    (
      record {
        act_type = if raised then read_update else l.act_type;
        rec_status = l.rec_status;
        gap_lock = l.gap_lock || gap;
        has_stmt = raised || l.has_stmt;
        lst_txid = if there then l.lst_txid else l.lst_txid ++ txid ∷ [];
      },
      not there,
    )

unfoldable pub lock_for_read : Version → ℕ → ActionType → Bool → Version × ReadResult
unfolding join_lock
lock_for_read v txid atype gap =
    if masks atype read_lock_mask
    then elim v.rec_lock [
      | none ↦ (record v { rec_lock = some (new_lock atype lock_only gap txid) }, ok_lock)
      | some l ↦
          let (l', added) = join_lock l txid atype gap in
          (record v { rec_lock = some l' }, if added then ok_lock else ok_nolock)
    ]
    else (v, ok_nolock)

-- The record afterwards, the result, the version whose fields are decoded, and whether an assertion
-- stops the program before they are.
pub record Read : Type 0 where
  pub record_after : Version
  pub result : ReadResult
  pub seen : Option Version
  pub failed : Bool

-- Both assertions before the decoding: where the version that is read has its value in overflow pages,
-- the record itself has an overflow page.
unfoldable pub pages_there : Version → Version → Bool
pages_there u v = elim u.overflow_page [
  | none ↦ true
  | some p ↦ elim v.overflow_page [ none ↦ false | some q ↦ true ]
]

abbrev with_sole_owner : Version → ℕ → ActionType → Version
with_sole_owner v txid atype = record v {
  rec_lock = elim v.rec_lock [ none ↦ none | some l ↦ some (sole_owner l txid atype) ];
}

unfoldable pub read_list_value : Version → List Version → ℕ → ActionType → Bool → Read
unfolding find_version lock_for_read sole_owner pages_there
read_list_value v older txid atype gap = elim (find_version v older txid atype) [
  | blocked ↦ record { record_after = v; result = ReadResult.locked; seen = none; failed = false }
  | see u ↦
      let v' = with_sole_owner v txid atype in
      if u.is_delete
      then record { record_after = v'; result = rec_delete; seen = none; failed = false }
      else let (v2, res) = lock_for_read v' txid atype gap in
        let there = pages_there u v2 in
        record {
          record_after = v2;
          result = res;
          seen = if there then some u else none;
          failed = not there;
        }
]

-- ReleaseLock: the pages that go back to the index, the older versions and the result.
pub record Released : Type 0 where
  pub version : Version
  pub older : List Version
  pub result : ReleaseResult
  pub recycled : List (ℕ × ℕ)

abbrev pub page_of : Version → List (ℕ × ℕ)
page_of v = elim v.overflow_page [ none ↦ [] | some p ↦ p ∷ [] ]

-- The loop over the older versions after a commit; it stops behind one that no statement changed.
unfoldable pub drop_older : List Version → List (ℕ × ℕ)
drop_older [] = []
drop_older (u ∷ us) =
    let rest = drop_older us in
    elim u.rec_lock [
      | none ↦ page_of u
      | some l ↦
          if is_action l.act_type read_share || is_action l.act_type read_update
          then page_of u
          else page_of u ++ rest
    ]

-- `*this = move(*lr)` takes over all of the older version but `_bDelete`.
abbrev pub move_from : Version → Version → Version
move_from v u = record {
  bys_val = u.bys_val;
  is_delete = v.is_delete;
  overflow_page = u.overflow_page;
  rec_lock = u.rec_lock;
}

abbrev pub is_rollbacked : RecordStatus → Bool
is_rollbacked rollbacked = true
is_rollbacked _ = false

-- A record with no lock is none that ReleaseLock may be called for.
unfoldable pub release_lock : Version → List Version → Released
unfolding drop_older
release_lock v [] = elim v.rec_lock [
  | none ↦ record { version = v; older = []; result = finished; recycled = [] }
  | some l ↦
      if is_action l.act_type read_share || is_action l.act_type read_update
      then record {
        version = record v { rec_lock = none };
        older = [];
        result = finished;
        recycled = [];
      }
      else if is_rollbacked l.rec_status
      then record {
        version = record {
          bys_val = none;
          is_delete = true;
          overflow_page = none;
          rec_lock = none;
        };
        older = [];
        result = deleted;
        recycled = page_of v;
      }
      else record {
        version = record v { is_delete = is_action l.act_type delete; rec_lock = none };
        older = [];
        result = if is_action l.act_type delete then deleted else finished;
        recycled = [];
      }
]
release_lock v (u ∷ us) =
    let again = release_lock (move_from v u) us in
    elim v.rec_lock [
      | none ↦ record { version = v; older = u ∷ us; result = finished; recycled = [] }
      | some l ↦
          if is_action l.act_type read_share || is_action l.act_type read_update
          then record {
            version = record v { rec_lock = none };
            older = [];
            result = finished;
            recycled = [];
          }
          else if is_rollbacked l.rec_status
          then elim u.rec_lock [
            | none ↦ record {
              version = move_from v u;
              older = us;
              result = finished;
              recycled = page_of v;
            }
            | some k ↦
                if not (lock_releasable k)
                then record {
                  version = move_from v u;
                  older = us;
                  result = unfinish;
                  recycled = page_of v;
                }
                else record again { recycled = page_of v ++ again.recycled }
          ]
          else record {
            version = record v { is_delete = is_action l.act_type delete; rec_lock = none };
            older = [];
            result = if is_action l.act_type delete then deleted else finished;
            recycled = drop_older (u ∷ us);
          }
    ]

-- GetLength: the length with the changes that are not committed, and the one without.
abbrev pub oldest : Version → List Version → Version
oldest v [] = v
oldest v (u ∷ us) = elim v.rec_lock [ none ↦ v | some l ↦ oldest u us ]

unfoldable pub temp_length : Version → ℕ
temp_length v = if v.is_delete then 0 else total_length v + 2

unfoldable pub is_changing : Version → Bool
is_changing v = elim v.rec_lock [ none ↦ false | some l ↦ masks l.act_type updateable_mask ]

unfoldable pub commit_length : Version → List Version → ℕ
unfolding is_changing
commit_length v older =
    let u = oldest v older in if u.is_delete || is_changing u then 0 else total_length u + 2
