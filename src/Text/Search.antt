-- ===== src/Text/Search.antt =====
-- Laws of `find`, `rfind` and the comparisons of `std::string`.
use rmw_opendds.Prelude.{
  ℕ, ◌+◌, ◌≤◌, ◌<◌, ◌≡◌, ◌≢◌, ◌↔◌, inl, inr, refl, true, false, none, some, [], ◌∷◌, ◌++◌, arith,
  length, drop, All, Option-cases, Bool-cases,
}
use rmw_opendds.Text.{Bytes, bytes_eq, starts_with, find, rfind}

abbrev pub Lacks : ℕ → Bytes → Type 0
Lacks b = All (λ c. c ≢ b)

pub bytes_eq_iff : (s t : Bytes) → (bytes_eq s t ≡ true) ↔ (s ≡ t)
bytes_eq_iff [] [] = ((λ _. refl), (λ _. refl))
bytes_eq_iff [] (d ∷ t) = ground arith
bytes_eq_iff (c ∷ s) [] = ground arith
bytes_eq_iff (c ∷ s) (d ∷ t) = ground (arith, bytes_eq_iff s t)

pub bytes_eq_refl : (s : Bytes) → bytes_eq s s ≡ true
bytes_eq_refl s = (bytes_eq_iff s s).1 refl

pub starts_with-append : (p s : Bytes) → starts_with p (p ++ s) ≡ true
starts_with-append [] s = refl
starts_with-append (c ∷ p) s = ground (arith, starts_with-append p s)

starts_with_self : (p : Bytes) → starts_with p p ≡ true
starts_with_self [] = refl
starts_with_self (c ∷ p) = ground (arith, starts_with_self p)

pub starts_with-eq : (p s : Bytes) → starts_with p s ≡ true → s ≡ p ++ drop (length p) s
starts_with-eq [] s h = refl
starts_with-eq (c ∷ p) [] h = ground arith
starts_with-eq (c ∷ p) (d ∷ s) h = ground (arith, starts_with-eq p s)

pub starts_with_short : (p s : Bytes) → length s < length p → starts_with p s ≡ false
starts_with_short [] s h = absurd (omega arith)
starts_with_short (c ∷ p) [] h = refl
starts_with_short (c ∷ p) (d ∷ s) h = ground (arith, starts_with_short p s)

pub rfind_short : (p s : Bytes) → length s < length p → rfind p s ≡ none
unfolding rfind
rfind_short p [] h = ground (arith, starts_with_short p [])
rfind_short p (c ∷ s) h = ground (arith, starts_with_short p (c ∷ s), rfind_short p s)

rfind_whole : (c : ℕ) (p : Bytes) → rfind (c ∷ p) (c ∷ p) ≡ some 0
unfolding rfind
rfind_whole c p =
    ground (arith, rfind_short (c ∷ p) p, starts_with-append (c ∷ p) [], starts_with_self (c ∷ p))

-- A text that ends in `c ∷ p` has its last occurrence there.
pub rfind-append_self :
    (s : Bytes) (c : ℕ) (p : Bytes) → rfind (c ∷ p) (s ++ c ∷ p) ≡ some (length s)
unfolding rfind
rfind-append_self [] c p = rfind_whole c p
rfind-append_self (d ∷ s) c p = rw (rfind-append_self s c p)

pub rfind-le : (p s : Bytes) (i : ℕ) → rfind p s ≡ some i → i + length p ≤ length s
unfolding rfind
rfind-le p [] i h = ground (arith, starts_with_short p [])
rfind-le p (c ∷ s) i h = elim (Option-cases (rfind p s)) [
  | inl e ↦ ground (arith, starts_with_short p (c ∷ s))
  | inr (j, e) ↦ ground (arith, rfind-le p s j e)
]

-- The text before the first `c` is skipped.
pub find-append-Lacks :
    (s : Bytes) (c : ℕ) (p rest : Bytes)
    → Lacks c s
    → find (c ∷ p) (s ++ (c ∷ p ++ rest)) ≡ some (length s)
unfolding find
find-append-Lacks [] c p rest h = ground (arith, starts_with-append (c ∷ p) rest)
find-append-Lacks (d ∷ s) c p rest h = ground (arith, find-append-Lacks s c p rest h.1)

pub find-Lacks : (s : Bytes) (c : ℕ) (p : Bytes) → Lacks c s → find (c ∷ p) s ≡ none
unfolding find
find-Lacks [] c p h = refl
find-Lacks (d ∷ s) c p h = ground (arith, find-Lacks s c p h.1)

pub rfind-occurs : (p s : Bytes) (i : ℕ) → rfind p s ≡ some i → starts_with p (drop i s) ≡ true
unfolding rfind
rfind-occurs p [] i h = elim (Bool-cases (starts_with p [])) [
  | inl e ↦ ground (arith, e)
  | inr e ↦ ground (arith, e)
]
rfind-occurs p (c ∷ s) i h = elim (Option-cases (rfind p s)) [
  | inl e ↦ ground arith
  | inr (j, e) ↦ ground (arith, rfind-occurs p s j e)
]

pub find-occurs : (p s : Bytes) (i : ℕ) → find p s ≡ some i → starts_with p (drop i s) ≡ true
unfolding find
find-occurs p [] i h = ground arith
find-occurs p (c ∷ s) i h = elim (Option-cases (find p s)) [
  | inl e ↦ ground arith
  | inr (j, e) ↦ ground (arith, find-occurs p s j e)
]

pub find-le : (p s : Bytes) (i : ℕ) → find p s ≡ some i → i + length p ≤ length s
unfolding find
find-le p [] i h = ground (arith, starts_with_short p [])
find-le p (c ∷ s) i h = elim (Option-cases (find p s)) [
  | inl e ↦ ground (arith, starts_with_short p (c ∷ s))
  | inr (j, e) ↦ ground (arith, find-le p s j e, starts_with_short p (c ∷ s))
]

-- A last occurrence stays the last one behind any text.
pub rfind-append :
    (s p t : Bytes) (i : ℕ) → rfind p t ≡ some i → rfind p (s ++ t) ≡ some (length s + i)
unfolding rfind
rfind-append [] p t i h = ground (arith, h)
rfind-append (c ∷ s) p t i h = rw (rfind-append s p t i h) (ground arith)

pub starts_with-Lacks :
    (p : Bytes) (c : ℕ) (s : Bytes) → Lacks c s → starts_with (p ++ c ∷ []) s ≡ false
starts_with-Lacks [] c [] h = refl
starts_with-Lacks [] c (d ∷ s) h = ground arith
starts_with-Lacks (b ∷ p) c [] h = refl
starts_with-Lacks (b ∷ p) c (d ∷ s) h = ground (arith, starts_with-Lacks p c s h.1)

pub rfind-Lacks : (c : ℕ) (p s : Bytes) → Lacks c s → rfind (c ∷ p) s ≡ none
unfolding rfind
rfind-Lacks c p [] h = refl
rfind-Lacks c p (d ∷ s) h = ground (arith, rfind-Lacks c p s h.1)
