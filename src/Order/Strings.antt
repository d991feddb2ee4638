-- ===== src/Order/Strings.antt =====
-- `std::less<std::string>`: the lexicographic order of bytes.
use rmw_opendds.Prelude.{◌≡◌, refl, Bool, true, false, ◌&&◌, ◌||◌, [], ◌∷◌, arith, ltb, ◌==◌}
use rmw_opendds.Text.{Bytes}
use rmw_opendds.Order.{Order}

abbrev pub bytes_lt : Bytes → Bytes → Bool
bytes_lt s [] = false
bytes_lt [] (d ∷ t) = true
bytes_lt (c ∷ s) (d ∷ t) = ltb c d || (c == d && bytes_lt s t)

pub bytes_lt_irrefl : (s : Bytes) → bytes_lt s s ≡ false
bytes_lt_irrefl [] = refl
bytes_lt_irrefl (c ∷ s) = ground (arith, bytes_lt_irrefl s)

pub bytes_lt_trans :
    (s t u : Bytes) → bytes_lt s t ≡ true → bytes_lt t u ≡ true → bytes_lt s u ≡ true
bytes_lt_trans s t [] h k = cc
bytes_lt_trans s [] (e ∷ u) h k = cc
bytes_lt_trans [] (d ∷ t) (e ∷ u) h k = refl
bytes_lt_trans (c ∷ s) (d ∷ t) (e ∷ u) h k = ground (arith, bytes_lt_trans s t u)

pub bytes_lt-connected : (s t : Bytes) → bytes_lt s t ≡ false → bytes_lt t s ≡ false → s ≡ t
bytes_lt-connected [] [] h k = refl
bytes_lt-connected [] (d ∷ t) h k = cc
bytes_lt-connected (c ∷ s) [] h k = cc
bytes_lt-connected (c ∷ s) (d ∷ t) h k = ground (arith, bytes_lt-connected s t)

instance abbrev pub bytes_order : Order Bytes
bytes_order = record {
  lt = bytes_lt;
  irrefl = bytes_lt_irrefl;
  trans = bytes_lt_trans;
  connected = bytes_lt-connected;
}
