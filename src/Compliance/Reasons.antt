-- ===== src/Compliance/Reasons.antt =====
-- `get_name_message_map` of `Reasons` of src/subscription_manager/reasons.py.
use subscription_manager.Base.{
  ◌≡◌, refl, sym, ◌∙◌, String, Bool, false, ◌&&◌, ◌||◌, Option, none, some, List, [], ◌∷◌, ◌++◌,
  any, contains, contains-append, ◌==◌, string_eq, if◌then◌else◌, arith, Option-cases, inl, inr,
}
use subscription_manager.Base.Dict.{Dict, lookup, insert, lookup-insert, lookup-nil}
use subscription_manager.Base.Result.{Result, ok, err, key_error}

-- A reason of the server; its attributes are texts.
pub record Reason : Type 0 where
  pub key : String
  pub message : String
  pub attributes : Dict String String

abbrev pub messages : Option (List String) → List String
messages none = []
messages (some texts) = texts

-- the body of the loop of `get_name_message_map`
unfoldable pub add_message : String → String → Dict String (List String) → Dict String (List String)
add_message name message result =
    let old : List String = messages (lookup name result) in
    insert name (if contains old message then old else old ++ (message ∷ [])) result

unfoldable pub message_loop :
    List Reason → Dict String (List String) → Result (Dict String (List String))
unfolding add_message
message_loop [] result = ok result
message_loop (reason ∷ reasons) result = elim (lookup "name" reason.attributes) [
  | none ↦ err key_error
  | some name ↦ message_loop reasons (add_message name reason.message result)
]

unfoldable pub get_name_message_map : List Reason → Result (Dict String (List String))
unfolding message_loop
get_name_message_map reasons = message_loop reasons []

contains-add_message :
    (name message n m : String) (d : Dict String (List String))
    → contains (messages (lookup n (add_message name message d))) m
      ≡ (contains (messages (lookup n d)) m || (name == n && message == m))
unfolding add_message
contains-add_message name message n m d = ground (
  arith,
  lookup-insert n name
      (if contains (messages (lookup name d)) message
        then messages (lookup name d)
        else messages (lookup name d) ++ (message ∷ []))
      d,
  contains-append (messages (lookup name d)) (message ∷ []) m,
)

abbrev names : Option String → String → Bool
names none n = false
names (some name) n = name == n

-- Whether a reason has the name and the message.
abbrev pub tells : String → String → Reason → Bool
tells n m reason = names (lookup "name" reason.attributes) n && reason.message == m

message_loop-some :
    (r : Reason) (reasons : List Reason) (d : Dict String (List String)) (name : String)
    → lookup "name" r.attributes ≡ some name
    → message_loop (r ∷ reasons) d ≡ message_loop reasons (add_message name r.message d)
unfolding message_loop
message_loop-some r reasons d name e = rw (message_loop, e) refl

message_loop-none :
    (r : Reason) (reasons : List Reason) (d : Dict String (List String))
    → lookup "name" r.attributes ≡ none
    → message_loop (r ∷ reasons) d ≡ err key_error
unfolding message_loop
message_loop-none r reasons d e = rw (message_loop, e) refl

message_loop-nil : (d : Dict String (List String)) → message_loop [] d ≡ ok d
unfolding message_loop
message_loop-nil d = refl

contains-message_loop :
    (reasons : List Reason) (d result : Dict String (List String)) (n m : String)
    → message_loop reasons d ≡ ok result
    → contains (messages (lookup n result)) m
      ≡ (contains (messages (lookup n d)) m || any (tells n m) reasons)
contains-message_loop [] d result n m h = ended (message_loop-nil d) h
  where
    ended :
        message_loop [] d ≡ ok d
        → message_loop [] d ≡ ok result
        → contains (messages (lookup n result)) m
          ≡ (contains (messages (lookup n d)) m || any (tells n m) [])
    ended a b = ground (arith, a, b)
contains-message_loop (r ∷ reasons) d result n m h =
    elim (Option-cases (lookup "name" r.attributes)) [
      | inl e ↦ absurd (ground (arith, message_loop-none r reasons d e))
      | inr (name, e) ↦
          let rest =
            contains-message_loop reasons (add_message name r.message d) result n m
              (sym (message_loop-some r reasons d name e) ∙ h) in
          ground (arith, e, rest, contains-add_message name r.message n m d)
    ]

-- The map of a list of reasons has a message under a name exactly if a reason has that name and that
-- message.
get_name_message_map_lem :
    (reasons : List Reason) (result : Dict String (List String)) (n m : String)
    → get_name_message_map reasons ≡ ok result
    → contains (messages (lookup n result)) m ≡ any (tells n m) reasons
unfolding get_name_message_map
get_name_message_map_lem reasons result n m h =
    ground (arith, contains-message_loop reasons [] result n m h, lookup-nil {V = List String} n)
