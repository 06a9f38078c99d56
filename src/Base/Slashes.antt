-- ===== src/Base/Slashes.antt =====
-- Python's methods of `str` that the components call, mostly at slashes.
use Prim.Native.Char.{Char, code}
use text.Mathlib.Text.{starts_with, find?}
use subscription_manager.Base.{
  ℕ, zero, suc, ◌+◌, ◌-◌, String, ◌<>◌, Bool, true, false, ◌&&◌, List, [], ◌∷◌, leb, is_some,
  nat_eq, string_eq, ◌==◌, if◌then◌else◌,
}

-- a character that is a slash
abbrev pub is_slash : Char → Bool
is_slash c = code c == 47

-- path.strip("/")
abbrev pub strip_left : String → String
strip_left String.[] = String.[]
strip_left (String.◌∷◌ c s) = if is_slash c then strip_left s else String.◌∷◌ c s

abbrev pub strip_right : String → String
strip_right String.[] = String.[]
strip_right (String.◌∷◌ c s) =
    let rest = strip_right s in if is_slash c && rest == "" then "" else String.◌∷◌ c rest

-- path.split("/")
abbrev pub split : String → List String
split String.[] = "" ∷ []
split (String.◌∷◌ c s) = elim (split s) [
  | [] ↦ []
  | w ∷ ws ↦ if is_slash c then "" ∷ w ∷ ws else String.◌∷◌ c w ∷ ws
]

-- t in s
abbrev pub has_part : String → String → Bool
has_part t s = is_some (find? s t)

abbrev pub size : String → ℕ
size String.[] = 0
size (String.◌∷◌ c s) = suc (size s)

-- The rounds of s.replace(old, new) over a text, with the number of characters to be left out; the
-- replaced text is not empty.
abbrev pub replace_loop : String → String → ℕ → String → String
replace_loop old new' skip String.[] = ""
replace_loop old new' (suc skip) (String.◌∷◌ c s) = replace_loop old new' skip s
replace_loop old new' zero (String.◌∷◌ c s) =
    let hit = new' <> replace_loop old new' (size old - 1) s in
    let miss = String.◌∷◌ c (replace_loop old new' 0 s) in
    if starts_with (String.◌∷◌ c s) old then hit else miss

unfoldable pub replace : String → String → String → String
replace old new' s = replace_loop old new' 0 s

-- s[:-len(suffix)] if s.endswith(suffix), and else s
abbrev pub drop_suffix : String → String → String
drop_suffix suffix String.[] = ""
drop_suffix suffix (String.◌∷◌ c s) =
    let rest = drop_suffix suffix s in if String.◌∷◌ c s == suffix then "" else String.◌∷◌ c rest

-- s.endswith("/")
abbrev pub ends_with_slash : String → Bool
ends_with_slash String.[] = false
ends_with_slash (String.◌∷◌ c s) = if s == "" then is_slash c else ends_with_slash s

-- s.lower() == t.lower(), on ASCII
abbrev pub lower : ℕ → ℕ
lower n = if leb 65 n && leb n 90 then n + 32 else n

abbrev pub same_letters : String → String → Bool
same_letters String.[] String.[] = true
same_letters String.[] (String.◌∷◌ d t) = false
same_letters (String.◌∷◌ c s) String.[] = false
same_letters (String.◌∷◌ c s) (String.◌∷◌ d t) =
    lower (code c) == lower (code d) && same_letters s t

-- glue.join(parts)
abbrev pub join_rest : String → List String → String
join_rest glue [] = ""
join_rest glue (t ∷ ts) = glue <> t <> join_rest glue ts

abbrev pub join : String → List String → String
join glue [] = ""
join glue (t ∷ ts) = t <> join_rest glue ts
