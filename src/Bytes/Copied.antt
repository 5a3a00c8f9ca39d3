-- ===== src/Bytes/Copied.antt =====
-- BytesCopy against take and drop.
use rapid_db.Common.{
  ℕ, zero, suc, ◌+◌, ◌*◌, ◌/◌, ◌%◌, ◌≤◌, ◌<◌, ◌≡◌, refl, ap, ap₂, sym, ◌∙◌, List, [], ◌∷◌, ◌++◌,
  length, take, drop, arith, take_add, drop_add, length-drop, length-take, All-take, All-drop,
}
use rapid_db.Bytes.{to_le, from_le}
use rapid_db.Bytes.Words.{IsBytes, to_le-from_le}
use rapid_db.Bytes.Copy.{copy_bytes, copy_words, bytes_copy}
use mathlib.Core.List.{append_assoc}

copy_bytes-take :
    (n : ℕ) (dst src : List ℕ)
    → n ≤ length dst
    → n ≤ length src
    → copy_bytes n dst src ≡ take n src ++ drop n dst
unfolding copy_bytes
copy_bytes-take zero dst src h k = refl
copy_bytes-take (suc n) [] src h k = absurd (omega arith)
copy_bytes-take (suc n) (d ∷ dst) [] h k = absurd (omega arith)
copy_bytes-take (suc n) (d ∷ dst) (s ∷ src) h k =
    ap (◌∷◌ s) (copy_bytes-take n dst src (omega arith) (omega arith))

-- One word is copied as its eight bytes.
word_copied :
    (src : List ℕ) → IsBytes src → 8 ≤ length src → to_le 8 (from_le (take 8 src)) ≡ take 8 src
word_copied src h k =
    ap (λ (n : ℕ). to_le n (from_le (take 8 src))) (omega (arith, length-take 8 src))
    ∙ to_le-from_le (take 8 src) (All-take (λ b. b < 256) 8 src h)

copy_words-take :
    (n r : ℕ) (dst src : List ℕ)
    → IsBytes src
    → n * 8 + r ≤ length dst
    → n * 8 + r ≤ length src
    → copy_words n r dst src ≡ take (n * 8 + r) src ++ drop (n * 8 + r) dst
unfolding copy_words
copy_words-take zero r dst src b h k =
    copy_bytes-take r dst src (omega arith) (omega arith)
    ∙ ap (λ (m : ℕ). take m src ++ drop m dst) (omega arith)
copy_words-take (suc n) r dst src b h k =
    ap₂ ◌++◌ (word_copied src b (omega arith)) (
      copy_words-take n r (drop 8 dst) (drop 8 src) (All-drop (λ x. x < 256) 8 src b)
        (omega (arith, length-drop 8 dst)) (omega (arith, length-drop 8 src)))
    ∙ sym
        (append_assoc (take 8 src) (take (n * 8 + r) (drop 8 src)) (drop (n * 8 + r) (drop 8 dst)))
    ∙ ap₂ ◌++◌ (sym (take_add 8 (n * 8 + r) src)) (sym (drop_add 8 (n * 8 + r) dst))
    ∙ ap (λ (m : ℕ). take m src ++ drop m dst) (omega arith)

-- BytesCopy of `len` bytes, where both ranges have that many, writes the first `len` bytes of the
-- source and leaves the rest of the destination: the words and the single bytes after them come to
-- the same as a copy byte by byte.
pub bytes_copy-take :
    (dst src : List ℕ) (len : ℕ)
    → IsBytes src
    → len ≤ length dst
    → len ≤ length src
    → bytes_copy dst src len ≡ take len src ++ drop len dst
unfolding bytes_copy
bytes_copy-take dst src len b h k =
    copy_words-take (len / 8) (len % 8) dst src b (omega arith) (omega arith)
    ∙ ap (λ (m : ℕ). take m src ++ drop m dst) (omega arith)
