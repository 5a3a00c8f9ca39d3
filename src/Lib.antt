-- ===== src/Lib.antt =====
-- RapidDb: the storage engine's core.
--
-- The engine keeps tables as index trees of pages. A key is written as bytes that sort by the order
-- of the values (src/utils/BytesFuncs.h), a record of a leaf page carries a lock and the older
-- versions that a rollback puts back (src/core/LeafRecord.h, LeafRecord.cpp), pages keep their
-- records in key order and count their lengths (src/core/IndexPage.h, BranchPage.cpp,
-- LeafPage.cpp), and threads hand actions to each other by queues (src/utils/RapidQueue.h) and
-- guard shared state by spin mutexes (src/utils/SpinMutex.h).
--
-- Which file models which part:
-- - Bytes: BytesFuncs.h on a little-endian machine without STD_MEM. A pointer with a length is a
--   list of bytes, a word its bit pattern. int_to_bytes is Int8ToBytes to Int64ToBytes by width,
--   and Widths names each of them; bytes_compare is BytesCompare with its loops word_loop and
--   byte_loop; double_to_bytes is DoubleToBytes; Copy has BytesCopy and the functions for a float.
-- - Queue: LineQueue with its chain of blocks, head, submitted and tail; Queue.Rapid: RapidQueue
--   with one line for each thread. The 64-bit positions wrap; Queue.Line describes a line by the
--   number of elements popped since its start, so that the wrap is nothing special, as long as the
--   line holds fewer than 2 ^ 64 elements. An assertion that fails gives none.
-- - Mutex.Spin, Mutex.Shared and Mutex.Reentrant: SpinMutex, SharedSpinMutex and ReentrantSpinMutex
--   as step relations, one access to a word in each step and any number of threads; Mutex.Threads
--   counts the threads at a place. The owner words of the first two only matter to assertions, and
--   thread i has the id i + 1 there; in Mutex.Reentrant, where the owner decides who waits, the ids
--   that get_thread_id gives are a parameter, different and not 0 by a named hypothesis AreIds,
--   and the count of nested calls stays below 2 ^ 31.
-- - Record: RecordLock and LeafRecord as a version in front of a list of older ones; Record.Ops has
--   the locks and the assertions of ReadListValue, SubmitStatement, SecondaryReadLock, ReleaseLock
--   and GetLength; Record.Length has the lengths that the constructors and UpdateRecord reserve.
-- - Page: IndexPage; Page.Search has SearchRecord and SearchKey, Page.Branch and Page.Leaf the
--   operations of BranchPage and LeafPage, Page.Leaf.Action has UpdateAction, and Page.Split the
--   loop of BranchPage::SplitPage with the pages that it fills. UpdateAction is modelled for
--   secondary indexes, the only ones that the code allows for DELETE and UPDATE.
-- - Garbage: GarbageOwner (src/core/GarbageOwner.cpp), the free ranges in a list by page and in a
--   map by number, with the three operations that take and give pages; Garbage.Table has the bytes
--   of the ranges on disk.
-- - Value: values of integer types, BOOL, strings and the NULL literal (src/dataType). Value has
--   their operators (src/dataType/DataValueFactory.h), Value.Stored has WriteData and ReadData in a
--   record and by themselves, with the conversions of Bytes; a value of a class is a constructor's.
--   A plain char is signed, as on x86.
-- - Layout: the bytes of a record (src/core/LeafRecord.cpp), in a buffer with stores at offsets:
--   init_struct and load_struct are the constructors of RecStruct, Layout.Fields has ReadValueStruct,
--   FillValueBuff and the loop of ReadListValue over the fields, Layout.Records the constructor of a
--   record of the primary index and the reading of one, Layout.Secondary those of secondary indexes.
--   The memory that CachePool::Apply and ApplyOvfPage hand out is an argument; so is boost's checksum.
-- - Tree: the stamps and automatic keys that the ranges of an IndexTree (src/core/IndexTree.cpp) give
--   from the counters of the head page (src/core/HeadPage.h), and CalcIndexRange.
-- - Tran: Transaction (src/serv/Transaction.cpp) with the counters of the session groups.
-- - Expr: the logic expressions of src/expr/ExprLogic.h on these values; Expr.Pick has
--   PickIndexCondition, and Expr.Where the part of ExprWhere::Preprocess
--   (src/expr/ExprStatement.cpp) that parts a WHERE condition into a search on an index and the
--   rest. none is a null pointer that is followed.
-- - Common: the names, tests, lists, integers and bit lemmas that the parts share.
--
-- How the parts interact: Page.Leaf takes its records and ReleaseLock, IsConflict and GetLength
-- from Record, and the place of an action from Page.Search. Value makes its keys with Bytes, and
-- Expr compares with Value. Layout writes the values of Value, with the lengths of Record.Length, and
-- orders records by the keys of Value.Keys. Tree searches its ranges as a branch page does, by
-- Page.Search. Queue.Rapid is made of lines of Queue. The other parts meet through code that is not
-- modelled, the rest of the index tree and the pools.
--
-- Bounds and fuel: the searches have one round more than the page has records, since each round
-- shortens the interval. The split has two rounds for a record and one more, since a record that
-- does not fit any more is taken up a second time at the front of the next page. The first loop of
-- LineQueue::Pop has as many rounds as the counter has up to its wrap, the second as many as are
-- submitted behind it. The least number with ranges is looked for up to 2 ^
-- 16, and ApplyIndexPages has a round for each page and one more, since a round takes a page at
-- least. The lengths of pages wrap at 2 ^ 32, those of records at 2 ^ 16, the positions of a queue
-- at 2 ^ 64, as stamps, keys and the ids of transactions do. Pages are of 16384 bytes, a value has at
-- most 2 ^ 16 - 1 overflow pages, and a key at most 2000 bytes.
--
-- Not modelled: weak memory, since the mutexes and queues are taken as sequentially consistent; the
-- constructor of a record from a RawKey and the bytes that UpdateRecord copies, the input and output
-- of overflow pages, saving and loading of pages, the update of the parent page after a split, the
-- split of a leaf page, the shared reentrant mutex, BytesHash; the page input and output of
-- GarbageOwner::SavePage; the descent and the root of the index tree, its sequential appending, the
-- cache and the pools, sessions and statements, arithmetic and aggregate expressions, the point search
-- on a combined index, FLOAT, DOUBLE, DATETIME and BLOB values, which later parts of this library are
-- to take up; parser, files, logging, clients and tests, which are generated code or input and output.
pub mod Common
pub mod Bytes
pub mod Queue
pub mod Mutex
pub mod Record
pub mod Page
pub mod Garbage
pub mod Value
pub mod Layout
pub mod Tree
pub mod Tran
pub mod Expr
