-- ===== src/Json.antt =====
-- JSON texts as the program reads them. A `content` column, a message body or a stored payload is
-- a text on which the program runs `JSON.parse`; it is modelled by what that returns.
use clawie.Prelude.{
  ℕ, String, Bool, true, false, Option, none, some, List, [], ◌∷◌, if◌then◌else◌, str_eq,
}

mutual
  pub data Value : Type 0 where
    null : Value
    boolean : Bool → Value
    number : ℕ → Value
    text : String → Value
    array : Items → Value
    object : Fields → Value

  pub data Items : Type 0 where
    nil : Items
    cons : Value → Items → Items

  pub data Fields : Type 0 where
    end : Fields
    field : String → Value → Fields → Fields

-- A text: the value that it parses to, or a text on which `JSON.parse` throws.
pub data Content : Type 0 where
  json : Value → Content
  plain : String → Content

-- `fields[key]`; `none` is `undefined`
abbrev pub lookup : String → Fields → Option Value
lookup key end = none
lookup key (field name value rest) = if str_eq name key then some value else lookup key rest

-- `value[key]` on any value but `null`, on which the property access throws
abbrev pub get : String → Value → Option Value
get key (object fields) = lookup key fields
get key _ = none

-- `typeof value === 'string' ? value : undefined`
abbrev pub as_string : Option Value → Option String
as_string (some (text s)) = some s
as_string _ = none

-- the elements of an array; `none` where `Array.isArray` is false
abbrev pub as_items : Option Value → Option Items
as_items (some (array xs)) = some xs
as_items _ = none

abbrev pub items : Items → List Value
items nil = []
items (cons x xs) = x ∷ items xs

-- the JavaScript truth value
abbrev pub truthy : Option Value → Bool
truthy none = false
truthy (some null) = false
truthy (some (boolean b)) = b
truthy (some (number ℕ.zero)) = false
truthy (some (number (ℕ.suc n))) = true
truthy (some (text s)) = if str_eq s "" then false else true
truthy (some (array xs)) = true
truthy (some (object fields)) = true

-- object[key] = value keeps the place of a key that is there
abbrev pub set_field : String → Value → Fields → Fields
set_field key value end = field key value end
set_field key value (field name old rest) =
    if str_eq name key then field name value rest else field name old (set_field key value rest)
