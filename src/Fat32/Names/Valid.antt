-- ===== src/Fat32/Names/Valid.antt =====
-- Which names are accepted, and which are the same.
use funny_os.Common.{
  ℕ, ◌≤◌, ◌<◌, ◌≡◌, refl, ap, ◌≢◌, ◌↔◌, inl, inr, true, List, [], ◌∷◌, ◌++◌, map, arith, ◌==◌,
  Bool-cases, length, All,
}
use funny_os.KString.{k_toupper}
use funny_os.Fat32.Names.{name_equals_ignore_case}

-- A printable ASCII character other than " * / : < > ? \ and |.
pub record IsPlainCharacter (c : ℕ) : Type 0 where
  pub not_control : 0x20 ≤ c
  pub ascii : c < 128
  pub not_quote : c ≢ 0x22
  pub not_star : c ≢ 0x2a
  pub not_slash : c ≢ 0x2f
  pub not_colon : c ≢ 0x3a
  pub not_less : c ≢ 0x3c
  pub not_greater : c ≢ 0x3e
  pub not_question : c ≢ 0x3f
  pub not_backslash : c ≢ 0x5c
  pub not_bar : c ≢ 0x7c

abbrev pub IsPlain : List ℕ → Type 0
IsPlain name = All IsPlainCharacter name

-- A name that may stand in a directory. "." and ".." are not such names.
pub record IsName (name : List ℕ) : Type 0 where
  pub some_characters : 0 < length name
  pub fits : length name < 128
  pub plain : IsPlain name
  pub not_dot : name ≢ 0x2e ∷ []
  pub not_dot_dot : name ≢ 0x2e ∷ 0x2e ∷ []
  pub ends_well :
      (front : List ℕ) (last : ℕ) → name ≡ front ++ (last ∷ []) → (last ≢ 0x20) × (last ≢ 0x2e)

abbrev head_of : List ℕ → ℕ
head_of [] = 0
head_of (x ∷ xs) = x

abbrev tail_of : List ℕ → List ℕ
tail_of [] = []
tail_of (x ∷ xs) = xs

-- Names are compared as the table's upper case of them.
pub name_equals_ignore_case_iff :
    (lhs rhs : List ℕ)
    → (name_equals_ignore_case lhs rhs ≡ true) ↔ (map k_toupper lhs ≡ map k_toupper rhs)
unfolding name_equals_ignore_case
name_equals_ignore_case_iff [] [] = (λ e. refl, λ e. refl)
name_equals_ignore_case_iff [] (b ∷ bs) = (λ e. absurd (ground arith), λ e. absurd (cc e))
name_equals_ignore_case_iff (a ∷ xs) [] = (λ e. absurd (cc e), λ e. absurd (cc e))
name_equals_ignore_case_iff (a ∷ xs) (b ∷ bs) =
    let rest = name_equals_ignore_case_iff xs bs in
    elim (Bool-cases (k_toupper a == k_toupper b)) [
      | inl t ↦
          let e : k_toupper a ≡ k_toupper b = ground arith in
          rw t (λ h. let r = rest.0 h in cc (e, r), λ h. rest.1 (ap tail_of h))
      | inr t ↦ rw t (λ h. absurd (cc h), λ h. absurd (let s = ap head_of h in ground (arith, s)))
    ]
