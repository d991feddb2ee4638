-- ===== src/Text/Pieces.antt =====
-- Pieces of a text that is written as a concatenation.
use rmw_opendds.Prelude.{
  ℕ, ◌≤◌, ◌≡◌, refl, [], ◌∷◌, ◌++◌, arith, length, length-append, take, drop, take-length-append,
  drop-length-append, ok, get_elem?, some,
}
use rmw_opendds.Text.{Bytes, size_sub, substr, index}

pub substr_first : (a b : Bytes) (n : ℕ) → n ≡ length a → substr (a ++ b) 0 n ≡ ok a
unfolding substr
substr_first a b n e = rw (e, take-length-append a b) (ground arith)

pub substr_middle :
    (a b c : Bytes) (i n : ℕ) → i ≡ length a → n ≡ length b → substr (a ++ (b ++ c)) i n ≡ ok b
unfolding substr
substr_middle a b c i n e f =
    rw (e, f, drop-length-append a (b ++ c), take-length-append b c)
      (ground (arith, length-append a (b ++ c)))

get_elem?-append_last : (s : Bytes) (c : ℕ) → get_elem? (s ++ c ∷ []) (length s) ≡ some c
get_elem?-append_last [] c = refl
get_elem?-append_last (d ∷ s) c = get_elem?-append_last s c

pub index-append_last :
    (s : Bytes) (c : ℕ) → index (s ++ c ∷ []) (size_sub (length (s ++ c ∷ [])) 1) ≡ ok c
unfolding index
index-append_last s c = ground (arith, get_elem?-append_last s c, length-append s (c ∷ []))

pub substr-Returns : (s : Bytes) (i n : ℕ) → i ≤ length s → substr s i n ≡ ok (take n (drop i s))
unfolding substr
substr-Returns s i n h = ground arith
