-- ===== src/Participants/UserData.antt =====
-- The user data of a participant: the buffer is as long as the text needs, within the width of an
-- `int`.
use rmw_opendds.Prelude.{
  ℕ, ◌<◌, ◌≤◌, ◌%◌, ◌^◌, Bool-cases, inl, inr, ◌+◌, ◌-◌, ◌≡◌, refl, ap, zero, suc, ◌∙◌, false, none,
  some, [], ◌∷◌, ◌++◌, ltb, length, length-append, take, arith, if◌then◌else◌,
}
use rmw_opendds.Text.{Bytes, codes}
use rmw_opendds.Participants.{int_max, user_data_text, snprintf, fill_user_data, user_data_of}

take-length : (s : Bytes) → take (length s) s ≡ s
take-length [] = refl
take-length (c ∷ s) = ap (λ x. c ∷ x) (take-length s)

length-user_data_text :
    (name namespace : Bytes)
    → length (user_data_text name namespace)
      ≡ length name + length namespace + length (codes "name=;namespace=;")
length-user_data_text name namespace = omega (
  arith,
  length-append {0} name (codes ";namespace=" ++ (namespace ++ codes ";")),
  length-append {0} namespace (codes ";"),
)

take-more : (n : ℕ) (s : Bytes) → length s ≤ n → take n s ≡ s
take-more zero [] h = refl
take-more zero (c ∷ s) h = absurd (omega (arith, h))
take-more (suc n) [] h = refl
take-more (suc n) (c ∷ s) h = ap (λ x. c ∷ x) (take-more n s (omega (arith, h)))

-- What is filled in for a text and one byte more.
filled :
    (size : ℕ) (text : Bytes)
    → size ≡ length text + 1
    → fill_user_data size (snprintf size text)
      ≡ (if ltb int_max size then none else some (text ++ (0 ∷ [])))
unfolding fill_user_data snprintf
filled size text h = elim (Bool-cases (ltb int_max size)) [
  | inl e ↦ rw (fill_user_data, snprintf, e) refl
  | inr e ↦
      let short : ltb int_max (length text) ≡ false = ground (arith, h, e) in
      let small : size % 2 ^ 32 ≡ size = ground (arith, e) in
      let exact : ltb (size - 1) (length text) ≡ false = ground (arith, h) in
      let one : size - 1 ≡ length text = omega (arith, h) in
      let held : take (size - 1) text ≡ text = take-more (size - 1) text (omega (arith, h)) in
      let all : take size (text ++ (0 ∷ [])) ≡ text ++ (0 ∷ []) =
        take-more size (text ++ (0 ∷ [])) (omega (arith, h, length-append {0} text (0 ∷ []))) in
      rw (snprintf, e, short, fill_user_data, small, e, exact, held, all) refl
]

-- The user data is the whole text of the names and a zero byte, where these are at most as many
-- bytes as an `int` can say; for longer names the constructor throws. The bytes are counted by a
-- `size_t`.
pub user_data_of-eq :
    (name namespace : Bytes)
    → length (user_data_text name namespace) + 1 < 2 ^ 64
    → user_data_of name namespace ≡ (
        if ltb int_max (length (user_data_text name namespace) + 1)
        then none
        else some (user_data_text name namespace ++ (0 ∷ [])))
unfolding user_data_of
user_data_of-eq name namespace h =
    let size = (length name + length namespace + length (codes "name=;namespace=;") + 1) % 2 ^ 64 in
    let same : size ≡ length (user_data_text name namespace) + 1 =
      omega (arith, h, length-user_data_text name namespace) in
    filled size (user_data_text name namespace) same
    ∙ ap (λ n. if ltb int_max n then none else some (user_data_text name namespace ++ (0 ∷ [])))
        same
