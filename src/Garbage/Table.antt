-- ===== src/Garbage/Table.antt =====
-- The table of the free ranges on disk: the bytes that SavePage writes and the constructor reads, six
-- for a range. Both take the number of ranges from the head page, where SavePage writes the number of
-- free pages.
use rapid_db.Common.{
  ℕ, zero, suc, ◌+◌, ◌^◌, ◌%◌, ◌<◌, ◌≡◌, refl, ap, ◌∙◌, List, [], ◌∷◌, ◌++◌, length, take, drop,
  All,
}
use rapid_db.Bytes.{to_le, from_le}
use rapid_db.Bytes.Words.{from_le-to_le, length-to_le, take-append, drop-append}
use rapid_db.Garbage.{Range, GarbageOwner, insert_page}
use mathlib.Core.List.{append_assoc}

-- The loop of SavePage.
unfoldable pub save_table : List Range → List ℕ
save_table [] = []
save_table ((id, num) ∷ rs) = to_le 4 id ++ (to_le 2 num ++ save_table rs)

-- The loop of the constructor.
unfoldable pub load_table : ℕ → List ℕ → List Range
load_table zero bys = []
load_table (suc items) bys =
    (from_le (take 4 bys), from_le (take 2 (drop 4 bys))) ∷ load_table items (drop 2 (drop 4 bys))

-- ... which inserts what it reads.
unfoldable pub load : List Range → GarbageOwner → GarbageOwner
load [] g = g
load ((id, num) ∷ rs) g =
    load rs (record (insert_page g id num) {
      total_garbage_pages = (g.total_garbage_pages + num) % 2 ^ 32;
    })

-- A page number and a number of pages fit their fields.
abbrev pub FitsTable : Range → Type 0
FitsTable (id, num) = (id < 2 ^ 32) × (num < 2 ^ 16)

take_word : (n v : ℕ) (rest : List ℕ) → take n (to_le n v ++ rest) ≡ to_le n v
take_word n v rest = take-append n (to_le n v) rest (length-to_le n v)

drop_word : (n v : ℕ) (rest : List ℕ) → drop n (to_le n v ++ rest) ≡ rest
drop_word n v rest = drop-append n (to_le n v) rest (length-to_le n v)

-- Reading as many ranges as were written gives them back, whatever follows; SavePage writes another
-- number, the total of the free pages, as their count.
load_table-save_table :
    (rs : List Range) (rest : List ℕ)
    → All FitsTable rs
    → load_table (length rs) (save_table rs ++ rest) ≡ rs
unfolding load_table save_table
load_table-save_table [] rest h = refl
load_table-save_table ((id, num) ∷ rs) rest ((a, b), h) =
    ap
      (λ bys.
        (from_le (take 4 bys), from_le (take 2 (drop 4 bys)))
        ∷ load_table (length rs) (drop 2 (drop 4 bys)))
      (append_assoc (to_le 4 id) (to_le 2 num ++ save_table rs) rest)
    ∙ rw
        (
          take_word 4 id ((to_le 2 num ++ save_table rs) ++ rest),
          drop_word 4 id ((to_le 2 num ++ save_table rs) ++ rest),
          append_assoc (to_le 2 num) (save_table rs) rest,
          take_word 2 num (save_table rs ++ rest),
          drop_word 2 num (save_table rs ++ rest),
          from_le-to_le 4 id a,
          from_le-to_le 2 num b,
          load_table-save_table rs rest h,
        )
        refl
