-- ===== src/Connection/KeepAlive.antt =====
-- `parse_keep_alive_header` of src/rhsm/connection.py.
use Prim.Native.Char.{Char, code}
use subscription_manager.Base.{
  ℕ, ◌+◌, ◌-◌, ◌*◌, String, Bool, true, false, ◌||◌, Option, none, some, List, [], ◌∷◌, ◌==◌,
  nat_eq, string_eq, if◌then◌else◌,
}
use subscription_manager.Connection.Responses.{is_digit}

-- The words of a text between blanks: the rest of the current word, and the words behind it.
abbrev is_blank : Char → Bool
is_blank c = code c == 32 || code c == 9 || code c == 10 || code c == 13

abbrev add_word : String → List String → List String
add_word word words = if word == "" then words else word ∷ words

abbrev words_of : String → String × List String
words_of String.[] = ("", [])
words_of (String.◌∷◌ c s) =
    let (word, words) = words_of s in
    if is_blank c then ("", add_word word words) else (String.◌∷◌ c word, words)

-- text.split(), on ASCII
unfoldable pub split_blanks : String → List String
split_blanks s = let (word, words) = words_of s in add_word word words

-- `[,;]*$`
abbrev is_end : String → Bool
is_end String.[] = true
is_end (String.◌∷◌ c s) =
    let rest = is_end s in if code c == 44 || code c == 59 then rest else false

-- `(\d+)[,;]*$`, behind the digits of a number
abbrev value_from : ℕ → String → Option ℕ
value_from n String.[] = some n
value_from n (String.◌∷◌ c s) =
    let more = value_from (n * 10 + (code c - 48)) s in
    if is_digit c then more else if is_end (String.◌∷◌ c s) then some n else none

abbrev value_of : String → Option ℕ
value_of String.[] = none
value_of (String.◌∷◌ c s) =
    let value = value_from (code c - 48) s in if is_digit c then value else none

-- `^(.*)=(\d+)[,;]*$`, whose first group takes as much as it can
unfoldable pub key_value : String → Option (String × ℕ)
key_value String.[] = none
key_value (String.◌∷◌ c s) = elim (key_value s) [
  | some (key, value) ↦ some (String.◌∷◌ c key, value)
  | none ↦
      if code c == 61
      then elim (value_of s) [ some value ↦ some ("", value) | none ↦ none ]
      else none
]

-- the body of the loop, on the timeout and the number of requests that were found
abbrev use_item : Option (String × ℕ) → Option ℕ × Option ℕ → Option ℕ × Option ℕ
use_item none found = found
use_item (some (key, value)) (timeout, max_num) =
    if key == "timeout"
    then (some value, max_num)
    else if key == "max"
    then (timeout, some value)
    else (timeout, max_num)

unfoldable pub parse_items : List String → Option ℕ × Option ℕ → Option ℕ × Option ℕ
unfolding key_value
parse_items [] found = found
parse_items (item ∷ items) found = parse_items items (use_item (key_value item) found)

unfoldable pub parse_keep_alive_header : String → Option ℕ × Option ℕ
unfolding parse_items split_blanks
parse_keep_alive_header header = parse_items (split_blanks header) (none, none)
