-- ===== src/Text.antt =====
-- `std::string` as the list of its bytes, with the members that the package calls. `find` and
-- `rfind` return `npos` where these return `none`.
pub mod Search
pub mod Pieces
use Prim.Native.Char.{code}
use Prim.Native.String.{String}
use rmw_opendds.Prelude.{
  ℕ, zero, suc, ◌+◌, ◌-◌, ◌^◌, Bool, true, false, ◌&&◌, Option, none, some, List, [], ◌∷◌, ltb, leb,
  ◌==◌, if◌then◌else◌, length, get_elem?, take, drop, Outcome, ok, out_of_range, undefined,
}

abbrev pub Bytes : Type 0
Bytes = List ℕ

-- The bytes of an ASCII literal.
abbrev pub codes : String → Bytes
codes String.[] = []
codes (String.◌∷◌ c s) = code c ∷ codes s

abbrev pub bytes_eq : Bytes → Bytes → Bool
bytes_eq [] [] = true
bytes_eq [] (d ∷ t) = false
bytes_eq (c ∷ s) [] = false
bytes_eq (c ∷ s) (d ∷ t) = c == d && bytes_eq s t

-- `s.rfind(p, 0) == 0`
abbrev pub starts_with : Bytes → Bytes → Bool
starts_with [] s = true
starts_with (c ∷ p) [] = false
starts_with (c ∷ p) (d ∷ s) = c == d && starts_with p s

abbrev later : Option ℕ → Option ℕ
later none = none
later (some i) = some (suc i)

-- The first occurrence of `p` in `s`.
unfoldable pub find : Bytes → Bytes → Option ℕ
find p [] = if starts_with p [] then some 0 else none
find p (c ∷ s) = let rest = later (find p s) in if starts_with p (c ∷ s) then some 0 else rest

abbrev or_here : Bool → Option ℕ → Option ℕ
or_here here (some i) = some (suc i)
or_here true none = some 0
or_here false none = none

-- The last occurrence of `p` in `s`.
unfoldable pub rfind : Bytes → Bytes → Option ℕ
rfind p [] = if starts_with p [] then some 0 else none
rfind p (c ∷ s) = or_here (starts_with p (c ∷ s)) (rfind p s)

-- `size_t` subtraction, which wraps: for sizes below 2^64 it is the difference modulo 2^64.
abbrev pub size_sub : ℕ → ℕ → ℕ
size_sub a b = if leb b a then a - b else 2 ^ 64 + a - b

-- `s.substr(pos, n)` and `s.substr(pos)`
unfoldable pub substr : Bytes → ℕ → ℕ → Outcome Bytes
substr s pos n = if ltb (length s) pos then out_of_range else ok (take n (drop pos s))

unfoldable pub substr_from : Bytes → ℕ → Outcome Bytes
substr_from s pos = if ltb (length s) pos then out_of_range else ok (drop pos s)

abbrev or_else : Option ℕ → Outcome ℕ → Outcome ℕ
or_else none r = r
or_else (some c) r = ok c

-- `s.at(i)`
unfoldable pub at : Bytes → ℕ → Outcome ℕ
at s i = or_else (get_elem? s i) out_of_range

-- `s[i]`, which at `s.size()` is the terminator
unfoldable pub index : Bytes → ℕ → Outcome ℕ
index s i = if i == length s then ok 0 else or_else (get_elem? s i) undefined
