-- ===== src/Dynamic/Defs.antt =====
-- Dictionaries, lists and texts of type `Any`.
use oopsys_agent.Base.{
  ℕ, suc, String, ◌<>◌, Bool, true, false, not, ◌||◌, Option, none, some, List, [], ◌∷◌, ◌==◌,
  if◌then◌else◌, str_eq, is_truthy, other, Exc, Result, ok, raised, type_name,
}
use oopsys_agent.Base.Int.{pos, negsuc}
use oopsys_agent.Domain.Values.{
  Json, null, bool, num, float, str, arr, obj, Items, nil, cons, Fields, end, field,
}

-- `type(j).__name__`
abbrev pub type_of : Json → String
type_of null = "NoneType"
type_of (bool b) = "bool"
type_of (num z) = "int"
type_of (float f) = "float"
type_of (str s) = "str"
type_of (arr xs) = "list"
type_of (obj fs) = "dict"

abbrev pub no_attribute : Json → String → Exc
no_attribute j name =
    other "AttributeError" ("'" <> (type_of j <> ("' object has no attribute '" <> (name <> "'"))))

-- The keys of a dict that a parser has made are distinct.
abbrev pub lookup : String → Fields → Option Json
lookup key end = none
lookup key (field k j fs) = if str_eq k key then some j else lookup key fs

abbrev pub or_default : Json → Option Json → Json
or_default default none = default
or_default default (some j) = j

-- `j.get(key, default)`
abbrev pub get_or : String → Json → Json → Result Json
get_or key default (obj fs) = ok (or_default default (lookup key fs))
get_or key default j = raised (no_attribute j "get")

-- `j.get(key)`
abbrev pub get : String → Json → Result Json
get key j = get_or key null j

abbrev pub not_a_dict : Json → Exc
not_a_dict (arr xs) = other "TypeError" "list indices must be integers or slices, not str"
not_a_dict (str s) = other "TypeError" "string indices must be integers, not 'str'"
not_a_dict j = other "TypeError" ("'" <> (type_of j <> "' object is not subscriptable"))

abbrev pub found_at : String → Option Json → Result Json
found_at key none = raised (other "KeyError" ("'" <> (key <> "'")))
found_at key (some j) = ok j

-- `j[key]`
abbrev pub subscript : String → Json → Result Json
subscript key (obj fs) = found_at key (lookup key fs)
subscript key j = raised (not_a_dict j)

-- `except (KeyError, TypeError)`
abbrev pub is_key_or_type_error : Exc → Bool
is_key_or_type_error e = str_eq (type_name e) "KeyError" || str_eq (type_name e) "TypeError"

-- `bool(j)`; a float is false at both zeros.
abbrev pub truthy : Json → Bool
truthy null = false
truthy (bool b) = b
truthy (num (pos n)) = not (n == 0)
truthy (num (negsuc n)) = true
truthy (float f) = not (f == 0 || f == 9223372036854775808)
truthy (str s) = is_truthy s
truthy (arr nil) = false
truthy (arr (cons x xs)) = true
truthy (obj end) = false
truthy (obj (field k j fs)) = true

-- `j or default`
abbrev pub or_else : Json → Json → Json
or_else j default = if truthy j then j else default

abbrev pub empty_dict : Json
empty_dict = obj end

abbrev pub empty_list : Json
empty_list = arr nil

abbrev pub items : Items → List Json
items nil = []
items (cons x xs) = x ∷ items xs

abbrev pub keys : Fields → List String
keys end = []
keys (field k j fs) = k ∷ keys fs

abbrev pub field_values : Fields → List Json
field_values end = []
field_values (field k j fs) = j ∷ field_values fs

abbrev pub strs : List String → List Json
strs [] = []
strs (s ∷ ss) = str s ∷ strs ss

abbrev pub chars : String → List Json
chars String.[] = []
chars (String.◌∷◌ c s) = str (String.◌∷◌ c "") ∷ chars s

-- `for x in j`
abbrev pub iterate : Json → Result (List Json)
iterate (arr xs) = ok (items xs)
iterate (obj fs) = ok (strs (keys fs))
iterate (str s) = ok (chars s)
iterate j = raised (other "TypeError" ("'" <> (type_of j <> "' object is not iterable")))

-- `j.values()`
abbrev pub dict_values : Json → Result (List Json)
dict_values (obj fs) = ok (field_values fs)
dict_values j = raised (no_attribute j "values")

abbrev pub count_items : List Json → ℕ
count_items [] = 0
count_items (x ∷ xs) = suc (count_items xs)

-- `len(j)`
abbrev pub len : Json → Result ℕ
len (arr xs) = ok (count_items (items xs))
len (obj fs) = ok (count_items (field_values fs))
len (str s) = ok (count_items (chars s))
len j = raised (other "TypeError" ("object of type '" <> (type_of j <> "' has no len()")))

-- `j == text`
abbrev pub is_text : String → Json → Bool
is_text text (str s) = str_eq s text
is_text text j = false

-- A method of `str`, on any value.
abbrev pub text_method : String → Json → Result String
text_method name (str s) = ok s
text_method name j = raised (no_attribute j name)
