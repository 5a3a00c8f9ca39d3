-- ===== src/Page.antt =====
-- src/core/IndexPage.h, BranchPage.cpp and LeafPage.cpp: the records of an index page, kept in key
-- order, and the lengths that the page counts along.
-- The searches, the branch page and the split take a record as a parameter with its total length and
-- its comparison, as the source calls GetTotalLength, CompareKey and CompareTo; the leaf page has
-- the records of Record.
pub mod Records
pub mod Search
pub mod Branch
pub mod Leaf
pub mod Split
mod Examples
use rapid_db.Common.{
  ℕ, zero, suc, ◌+◌, ◌-◌, ◌*◌, ◌/◌, ◌%◌, ◌^◌, List, [], ◌∷◌, ◌++◌, Bool, take, drop,
}

-- LOAD_FACTOR, and MAX_DATA_LENGTH_BRANCH and MAX_DATA_LENGTH_LEAF for pages of 16 KB.
abbrev pub load_factor : ℕ
load_factor = 90

abbrev pub max_data_length_branch : ℕ
max_data_length_branch = 16384 - 12 - 4

abbrev pub max_data_length_leaf : ℕ
max_data_length_leaf = 16384 - 20 - 4

-- What the operations on records use of an IndexPage.
pub record IndexPage {ℓ} (A : Type ℓ) : Type ℓ where
  pub vct_record : List A
  pub record_num : ℕ
  pub committed_data_length : ℕ
  pub temp_data_length : ℕ
  pub dirty : Bool
  pub record_updated : Bool

-- The lengths are of type uint32_t.
abbrev pub add_u32 : ℕ → ℕ → ℕ
add_u32 a b = (a + b) % 2 ^ 32

abbrev pub sub_u32 : ℕ → ℕ → ℕ
sub_u32 a b = (a + 2 ^ 32 - b % 2 ^ 32) % 2 ^ 32

module _ {ℓ} {A : Type ℓ} where
  -- vector::insert and vector::erase.
  abbrev pub insert_at : ℕ → A → List A → List A
  insert_at zero x ys = x ∷ ys
  insert_at (suc i) x [] = x ∷ []
  insert_at (suc i) x (y ∷ ys) = y ∷ insert_at i x ys

  abbrev pub erase_at : ℕ → List A → List A
  erase_at i [] = []
  erase_at zero (y ∷ ys) = ys
  erase_at (suc i) (y ∷ ys) = y ∷ erase_at i ys

  -- The sum of a measure over the records.
  abbrev pub sum_of : (A → ℕ) → List A → ℕ
  sum_of f [] = 0
  sum_of f (x ∷ xs) = f x + sum_of f xs
