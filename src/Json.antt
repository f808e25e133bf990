-- ===== src/Json.antt =====
-- serde_json, as far as the health check and the command line use it: a parameter.
use hubert_rust.Base.{◌≡◌, Option, some, List, bytes_eq}
use hubert_rust.Base.Lists.{Bytes}
use hubert_rust.Base.Assoc.{lookup}
use hubert_rust.Base.Io.{Result, ok}

pub record Json : Type 1 where
  pub Value : Type 0
  -- `json!` of an object and of a string
  pub object : List (Bytes × Value) → Value
  pub string : Bytes → Value
  -- `to_string`, which does not fail on a `Value`, and `from_str`
  pub to_string : Value → Bytes
  pub from_str : Bytes → Result Value Bytes
  -- `Value::get` of a key and `as_str`
  pub get : Bytes → Value → Option Value
  pub as_str : Value → Option Bytes

-- What was printed reads back, an object has its fields, and a string is one.
pub record IsJson (J : Json) : Type 0 where
  pub from_str-to_string : (v : J.Value) → J.from_str (J.to_string v) ≡ ok v
  pub get-object :
      (key : Bytes) (fields : List (Bytes × J.Value))
      → J.get key (J.object fields) ≡ lookup bytes_eq key fields
  pub as_str-string : (s : Bytes) → J.as_str (J.string s) ≡ some s
