-- ===== src/Logs/Json.antt =====
-- Parsed JSON values, and `parseJsonLog`. `JSON.parse` and `toLowerCase` are parameters, the first
-- with `none` where it throws; a number is kept as the text that it prints as.
pub mod Parsing
use dockstack.Prelude.{
  Bool, true, false, not, Option, none, some, List, [], ◌∷◌, keep, includes, text_eq, Text, codes,
  if◌then◌else◌,
}

mutual
  pub data Json : Type 0 where
    null : Json
    boolean : Bool → Json
    number : Text → Json
    string : Text → Json
    array : Items → Json
    object : Fields → Json

  pub data Items : Type 0 where
    nil : Items
    cons : Json → Items → Items

  pub data Fields : Type 0 where
    end : Fields
    field : Text → Json → Fields → Fields

-- `obj[key]`, with `none` for `undefined`
pub get : Text → Fields → Option Json
get key end = none
get key (field k v rest) = if text_eq k key then some v else get key rest

pub data ParsedLog : Type 0 where
  text : (text : Text) → ParsedLog
  json : (text : Text) → (level : Option Text) → (fields : Fields) → ParsedLog

-- `a ?? b`
pub coalesce : Option Json → Option Json → Option Json
coalesce none b = b
coalesce (some null) b = b
coalesce (some v) b = some v

-- `obj.msg ?? obj.message ?? obj.log ?? obj.text`
pub message_of : Fields → Option Json
unfolding coalesce
message_of obj =
    coalesce
      (coalesce (coalesce (get (codes "msg") obj) (get (codes "message") obj))
        (get (codes "log") obj))
      (get (codes "text") obj)

level_text : (Text → Text) → Option Json → Option Text
level_text to_lower_case (some (string l)) = some (to_lower_case l)
level_text to_lower_case (some _) = none
level_text to_lower_case none = none

-- `typeof obj.level === "string" ? obj.level.toLowerCase() : null`
pub level_of : (Text → Text) → Fields → Option Text
unfolding level_text
level_of to_lower_case obj = level_text to_lower_case (get (codes "level") obj)

abbrev pub consumed : List Text
consumed = codes "msg" ∷ codes "message" ∷ codes "log" ∷ codes "text" ∷ codes "level" ∷ []

-- `const { msg, message, log, text, level, ...fields } = obj`
pub rest_fields : Fields → Fields
rest_fields end = end
rest_fields (field k v rest) =
    if includes k consumed then rest_fields rest else field k v (rest_fields rest)

module _ (to_lower_case : Text → Text) where
  with_message : Text → Fields → Option Json → ParsedLog
  with_message raw obj (some (string t)) = json t (level_of to_lower_case obj) (rest_fields obj)
  with_message raw obj (some _) = text raw
  with_message raw obj none = text raw

  parsed_value : Text → Option Json → ParsedLog
  unfolding with_message
  parsed_value raw (some (object obj)) = with_message raw obj (message_of obj)
  parsed_value raw (some _) = text raw
  parsed_value raw none = text raw

  -- the first argument is `JSON.parse`
  pub parse_json_log : (Text → Option Json) → Text → ParsedLog
  unfolding parsed_value
  parse_json_log json_parse raw = parsed_value raw (json_parse raw)
