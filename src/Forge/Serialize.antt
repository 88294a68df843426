-- ===== src/Forge/Serialize.antt =====
-- `stableSerialize` of packages/forge-application/src/store/in-memory-store.ts.
use Prim.Native.Nat.{◌/◌, ◌%◌}
use Prim.Native.Char.{Char, code}
use cyclewarden.Prelude.{
  ℕ, suc, Bool, true, false, String, List, [], ◌∷◌, ltb, nat_beq, if◌then◌else◌, ◌++ₛ◌, decimal,
  digit, Json, null, bool, num, str, arr, obj, Items, nil, cons, Fields, end, field, ℤ, pos, negsuc,
}

number_text : ℤ → String
unfolding decimal
number_text (pos n) = decimal n
number_text (negsuc n) = "-" ++ₛ decimal (suc n)

hex_digit : ℕ → String
unfolding digit
hex_digit n =
    if ltb n 10
    then digit n
    else if nat_beq n 10
    then "a"
    else if nat_beq n 11
    then "b"
    else if nat_beq n 12
    then "c"
    else if nat_beq n 13
    then "d"
    else if nat_beq n 14
    then "e"
    else "f"

-- How `JSON.stringify` writes a character inside a text.
escape : Char → String → String
unfolding hex_digit
escape c rest =
    let n = code c in
    if nat_beq n 34
    then "\\\"" ++ₛ rest
    else if nat_beq n 92
    then "\\\\" ++ₛ rest
    else if nat_beq n 8
    then "\\b" ++ₛ rest
    else if nat_beq n 12
    then "\\f" ++ₛ rest
    else if nat_beq n 10
    then "\\n" ++ₛ rest
    else if nat_beq n 13
    then "\\r" ++ₛ rest
    else if nat_beq n 9
    then "\\t" ++ₛ rest
    else if ltb n 32
    then "\\u00" ++ₛ hex_digit (n / 16) ++ₛ hex_digit (n % 16) ++ₛ rest
    else String.◌∷◌ c rest

escape_all : String → String → String
unfolding escape
escape_all String.[] rest = rest
escape_all (String.◌∷◌ c s) rest = escape c (escape_all s rest)

-- `JSON.stringify` of a text.
quote : String → String
unfolding escape_all
quote s = "\"" ++ₛ escape_all s "\""

-- `xs.join(",")`
join : List String → String
join [] = ""
join (x ∷ []) = x
join (x ∷ y ∷ rest) = x ++ₛ "," ++ₛ join (y ∷ rest)

-- `left.localeCompare(right) <= 0`, which depends on the host's locale, is a parameter.
module _ (locale_le : String → String → Bool) where
  -- The sort of the entries by key: an insertion sort, stable as JavaScript's sort is.
  insert_entry : String × String → List (String × String) → List (String × String)
  insert_entry e [] = e ∷ []
  insert_entry e (f ∷ fs) =
      let rest = insert_entry e fs in if locale_le e.0 f.0 then e ∷ f ∷ fs else f ∷ rest

  sort_entries : List (String × String) → List (String × String)
  unfolding insert_entry
  sort_entries [] = []
  sort_entries (e ∷ es) = insert_entry e (sort_entries es)

  entry_texts : List (String × String) → List String
  entry_texts [] = []
  entry_texts ((k, v) ∷ es) = (quote k ++ₛ ":" ++ₛ v) ∷ entry_texts es

  mutual
    unfolding quote number_text join sort_entries entry_texts

    serialize : Json → String
    serialize null = "null"
    serialize (bool true) = "true"
    serialize (bool false) = "false"
    serialize (num n) = number_text n
    serialize (str s) = quote s
    serialize (arr xs) = "[" ++ₛ join (serialize_items xs) ++ₛ "]"
    serialize (obj fs) = "{" ++ₛ join (entry_texts (sort_entries (serialize_fields fs))) ++ₛ "}"

    serialize_items : Items → List String
    serialize_items nil = []
    serialize_items (cons x xs) = serialize x ∷ serialize_items xs

    serialize_fields : Fields → List (String × String)
    serialize_fields end = []
    serialize_fields (field k v fs) = (k, serialize v) ∷ serialize_fields fs

  unfoldable pub stable_serialize : Json → String
  unfolding serialize
  stable_serialize v = serialize v
