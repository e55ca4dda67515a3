-- ===== src/Core/Ratchet/Order.antt =====
-- The order of the keys of the skipped cache of core/src/ratchet.rs: `[u8; 32]` and tuples compare
-- lexicographically, and this order is transitive and irreflexive.
use pigeonhole_clarity_messe.Prelude.{◌≡◌, refl, true, false, [], ◌∷◌, if_pos, arith}
use pigeonhole_clarity_messe.Prelude.Bytes.{Bytes, Bytes_discrete}
use pigeonhole_clarity_messe.Core.Ratchet.Defs.{SkippedKey, bytes_before, key_before}

bytes_before_trans :
    (a b c : Bytes) → bytes_before a b ≡ true → bytes_before b c ≡ true → bytes_before a c ≡ true
unfolding bytes_before
bytes_before_trans [] [] c h k = cc
bytes_before_trans [] (y ∷ ys) [] h k = cc
bytes_before_trans [] (y ∷ ys) (z ∷ zs) h k = refl
bytes_before_trans (x ∷ xs) [] c h k = cc
bytes_before_trans (x ∷ xs) (y ∷ ys) [] h k = cc
bytes_before_trans (x ∷ xs) (y ∷ ys) (z ∷ zs) h k = ground (arith, bytes_before_trans xs ys zs)

bytes_before_irrefl : (a : Bytes) → bytes_before a a ≡ false
unfolding bytes_before
bytes_before_irrefl [] = refl
bytes_before_irrefl (x ∷ xs) = ground (arith, bytes_before_irrefl xs)

pub key_before_irrefl : (k : SkippedKey) → key_before k k ≡ false
unfolding key_before
key_before_irrefl (a, m) =
    rw (bytes_before_irrefl a, if_pos (Bytes_discrete a a) refl) (ground arith)

pub key_before_trans :
    (a b c : SkippedKey) → key_before a b ≡ true → key_before b c ≡ true → key_before a c ≡ true
unfolding key_before
key_before_trans (a, l) (b, m) (c, n) h k = ground (arith, bytes_before_trans a b c)
