-- ===== src/Repos/Content/Cleaned.antt =====
-- What `_clean_id` of src/subscription_manager/repofile.py makes of a text, character by character.
use Prim.Native.Char.{Char, code}
use subscription_manager.Base.{
  ◌≡◌, refl, ap, ◌∙◌, sym, ℕ, zero, suc, ◌+◌, leb, ltb, ℕ_discrete, nat_eq, String, Bool, true,
  false, ◌&&◌, ◌||◌, ◌==◌, arith, Bool-cases, inl, inr,
}
use subscription_manager.Repos.Repo.{_clean_id, is_valid_char}

abbrev occurs : Char → String → Bool
occurs c String.[] = false
occurs c (String.◌∷◌ d s) = code c == code d || occurs c s

-- string.ascii_letters + string.digits + "-_.:"
abbrev is_allowed : Char → Bool
is_allowed c = occurs c "abcdefghijklmnopqrstuvwxyzABCDEFGHIJKLMNOPQRSTUVWXYZ0123456789-_.:"

-- one of so many numbers from a first one on, or else the rest
abbrev one_of : (first many n : ℕ) → Bool → Bool
one_of first zero n rest = rest
one_of first (suc many) n rest = n == first || one_of (suc first) many n rest

one_of_lem :
    (first many n : ℕ) (rest : Bool)
    → one_of first many n rest ≡ (leb first n && ltb n (first + many) || rest)
one_of_lem first zero n rest = ground arith
one_of_lem first (suc many) n rest = ground (arith, one_of_lem (suc first) many n rest)

is_allowed-codes :
    (c : Char)
    → is_allowed c
      ≡ one_of 97 26 (code c) (one_of 65 26 (code c) (one_of 48 10 (code c) (occurs c "-_.:")))
is_allowed-codes c = refl

-- the letters and digits as ranges
ranges :
    (n : ℕ) (others : Bool)
    → one_of 97 26 n (one_of 65 26 n (one_of 48 10 n others))
      ≡ ((leb 97 n && ltb n 123) || ((leb 65 n && ltb n 91) || ((leb 48 n && ltb n 58) || others)))
ranges n others =
    let digits = one_of 48 10 n others in
    let capitals = one_of 65 26 n digits in
    one_of_lem 97 26 n capitals
    ∙ ap (λ b. leb 97 n && ltb n 123 || b)
        (one_of_lem 65 26 n digits
          ∙ ap (λ b. leb 65 n && ltb n 91 || b) (one_of_lem 48 10 n others))

is_valid_char-is_allowed : (c : Char) → is_valid_char c ≡ is_allowed c
is_valid_char-is_allowed c = ground (arith, is_allowed-codes c ∙ ranges (code c) (occurs c "-_.:"))

-- The second text is the first with "-" in place of every character that is not allowed.
pub data Cleaned : String → String → Type 0 where
  ends : Cleaned "" ""
  keeps :
      {s t : String} (c : Char)
      → is_allowed c ≡ true
      → Cleaned s t
      → Cleaned (String.◌∷◌ c s) (String.◌∷◌ c t)
  replaces :
      {s t : String} (c : Char)
      → is_allowed c ≡ false
      → Cleaned s t
      → Cleaned (String.◌∷◌ c s) (String.◌∷◌ "-" t)

pub _clean_id-Cleaned : (s : String) → Cleaned s (_clean_id s)
unfolding _clean_id
_clean_id-Cleaned String.[] = ends
_clean_id-Cleaned (String.◌∷◌ c s) = elim (Bool-cases (is_valid_char c)) [
  | inl e ↦ rw (e) (keeps c (sym (is_valid_char-is_allowed c) ∙ e) (_clean_id-Cleaned s))
  | inr e ↦ rw (e) (replaces c (sym (is_valid_char-is_allowed c) ∙ e) (_clean_id-Cleaned s))
]

-- a cleaned text stays when it is cleaned
pub Cleaned-twice : {s t : String} → Cleaned s t → Cleaned t t
unfolding ℕ_discrete
Cleaned-twice ends = ends
Cleaned-twice (keeps c h k) = keeps c h (Cleaned-twice k)
Cleaned-twice (replaces c h k) = keeps "-" refl (Cleaned-twice k)
