-- ===== src/Participants/Transport/Unique.antt =====
-- The names of transports: two that are made for different domains or at different counts differ.
use rmw_opendds.Prelude.{
  ℕ, zero, suc, ◌+◌, ◌-◌, ◌*◌, ◌/◌, ◌%◌, ◌<◌, ◌≡◌, ◌≢◌, ◌⊎◌, refl, ap, sym, ◌∙◌, [], ◌∷◌, ◌++◌, ltb,
  Bool-cases, inl, inr, arith, ltb→lt,
}
use rmw_opendds.Text.{Bytes}
use rmw_opendds.Participants.Transport.{digits, to_string, str_domain_id, config_name, inst_name}

-- The number that decimal digits stand for.
value : ℕ → Bytes → ℕ
value n [] = n
value n (c ∷ s) = value (n * 10 + (c - 48)) s

value-append : (n : ℕ) (s : Bytes) (c : ℕ) → value n (s ++ c ∷ []) ≡ value n s * 10 + (c - 48)
unfolding value
value-append n [] c = refl
value-append n (d ∷ s) c = value-append (n * 10 + (d - 48)) s c

value-digits : (f n : ℕ) → n < f → value 0 (digits f n) ≡ n
unfolding value digits
value-digits zero n h = elim h [ ]
value-digits (suc f) n h =
    ground (arith, value-append 0 (digits f (n / 10)) (48 + n % 10), value-digits f (n / 10))

to_string-injective : (n m : ℕ) → to_string n ≡ to_string m → n ≡ m
unfolding to_string
to_string-injective n m e =
    sym (value-digits (suc n) n (omega arith))
    ∙ (ap (value 0) e ∙ value-digits (suc m) m (omega arith))

abbrev IsUnbroken : Bytes → Type 0
IsUnbroken [] = Unit {0}
IsUnbroken (c ∷ s) = (c ≢ 95) × IsUnbroken s

append-IsUnbroken : (s : Bytes) (c : ℕ) → IsUnbroken s → c ≢ 95 → IsUnbroken (s ++ c ∷ [])
append-IsUnbroken [] c h k = (k, tt)
append-IsUnbroken (d ∷ s) c h k = (h.0, append-IsUnbroken s c h.1 k)

digits-IsUnbroken : (f n : ℕ) → IsUnbroken (digits f n)
unfolding digits
digits-IsUnbroken zero n = tt
digits-IsUnbroken (suc f) n = elim (Bool-cases (ltb n 10)) [
  | inl e ↦ rw e ((λ h. absurd (omega (arith, h, ltb→lt n 10 e))), tt)
  | inr e ↦ rw e (
      append-IsUnbroken (digits f (n / 10)) (48 + n % 10) (digits-IsUnbroken f (n / 10))
        (λ h. absurd (omega (arith, h))))
]

-- Where neither of two texts has the separator, it separates.
separated :
    (a b s t : Bytes)
    → IsUnbroken a
    → IsUnbroken b
    → a ++ (95 ∷ s) ≡ b ++ (95 ∷ t)
    → (a ≡ b) × (s ≡ t)
separated [] [] s t h k e = (refl, cc e)
separated [] (c ∷ b) s t h k e = absurd (k.0 (cc e))
separated (c ∷ a) [] s t h k e = absurd (h.0 (cc e))
separated (c ∷ a) (d ∷ b) s t h k e =
    let same = separated a b s t h.1 k.1 (cc e) in (cc (e, same.0), same.1)

str_domain_id-injective :
    (d i d' i' : ℕ) → str_domain_id d i ≡ str_domain_id d' i' → (d ≡ d') × (i ≡ i')
unfolding str_domain_id to_string
str_domain_id-injective d i d' i' e =
    let same =
      separated (to_string d) (to_string d') (to_string i) (to_string i')
        (digits-IsUnbroken (suc d) d) (digits-IsUnbroken (suc d') d') e in
    (to_string-injective d d' same.0, to_string-injective i i' same.1)

-- Transports that are configured for different domains, or at different counts of the process, have
-- different names, the configuration's and the instance's.
pub transport_names_differ :
    (d i d' i' : ℕ)
    → (d ≢ d') ⊎ (i ≢ i')
    → (config_name d i ≢ config_name d' i') × (inst_name d i ≢ inst_name d' i')
unfolding config_name inst_name
transport_names_differ d i d' i' (inl h) = (
  λ e. h (str_domain_id-injective d i d' i' (cc e)).0,
  λ e. h (str_domain_id-injective d i d' i' (cc e)).0,
)
transport_names_differ d i d' i' (inr h) = (
  λ e. h (str_domain_id-injective d i d' i' (cc e)).1,
  λ e. h (str_domain_id-injective d i d' i' (cc e)).1,
)
