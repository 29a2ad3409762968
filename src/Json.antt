-- ===== src/Json.antt =====
-- JSON documents, the values that the models keep in their `JSONField` columns.
use Prim.Native.Char.{Char, code}
use Prim.Native.String.{[], ◌∷◌}
use novena_hub.Prelude.{
  ℕ, Bool, true, false, not, ◌&&◌, ◌||◌, String, Option, none, some, ltb, leb, ◌==◌, str_eq,
  if◌then◌else◌,
}

mutual
  pub data Json : Type 0 where
    null : Json
    bool : Bool → Json
    int : ℕ → Json
    text : String → Json
    arr : Items → Json
    obj : Fields → Json

  pub data Items : Type 0 where
    nil : Items
    cons : Json → Items → Items

  pub data Fields : Type 0 where
    end : Fields
    field : String → Json → Fields → Fields

-- `value` or, when the key is missing, `None`: `document.get(key)`.
unfoldable pub get : Fields → String → Json
get end key = null
get (field k v rest) key = let found = get rest key in if str_eq k key then v else found

-- `key in document`
abbrev pub has_key : Fields → String → Bool
has_key end key = false
has_key (field k v rest) key = str_eq k key || has_key rest key

-- `bool(value)`
unfoldable pub truthy : Json → Bool
truthy null = false
truthy (bool b) = b
truthy (int n) = ltb 0 n
truthy (text s) = not (str_eq s "")
truthy (arr nil) = false
truthy (arr (cons _ _)) = true
truthy (obj end) = false
truthy (obj (field _ _ _)) = true

-- `isinstance(value, dict)`, with the dictionary.
unfoldable pub as_object : Json → Option Fields
as_object (obj fields) = some fields
as_object _ = none

-- `isinstance(value, list)`, with the list.
unfoldable pub as_list : Json → Option Items
as_list (arr items) = some items
as_list _ = none

abbrev is_digit : Char → Bool
is_digit c = leb 48 (code c) && leb (code c) 57

abbrev is_space : Char → Bool
is_space c = (leb 9 (code c) && leb (code c) 13) || (leb 28 (code c) && leb (code c) 32)

spaces : String → Bool
spaces [] = true
spaces (c ∷ rest) = is_space c && spaces rest

-- What follows the sign of an integer; the flag tells that a digit stands just before.
digits : Bool → String → Bool
unfolding spaces
digits after [] = after
digits after (c ∷ rest) =
    let digit = digits true rest in
    let underscore = digits false rest in
    let blank = spaces rest in
    if is_digit c
    then digit
    else after && (if code c == 95 then underscore else is_space c && blank)

signed : String → Bool
unfolding digits
signed [] = false
signed (c ∷ rest) =
    if (code c == 43) || (code c == 45) then digits false rest else digits false (c ∷ rest)

-- Whether `int(value)` of a text succeeds, over ASCII.
unfoldable pub int_text : String → Bool
unfolding signed
int_text [] = false
int_text (c ∷ rest) =
    let skipped = int_text rest in if is_space c then skipped else signed (c ∷ rest)

-- Whether `int(value)` succeeds: it raises `TypeError` or `ValueError` otherwise.
unfoldable pub converts_to_int : Json → Bool
unfolding int_text
converts_to_int null = false
converts_to_int (bool b) = true
converts_to_int (int n) = true
converts_to_int (text s) = int_text s
converts_to_int (arr _) = false
converts_to_int (obj _) = false
