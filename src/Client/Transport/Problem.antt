-- ===== src/Client/Transport/Problem.antt =====
-- src/client/transport.ts: the value of an HTTP text, and the message of an answer that is not ok.
use sync_engine_v.Base.{String, Bool, true, false, true-ne-false, ◌≡◌, refl, none, some}
use sync_engine_v.Json.{Json, null, bool, number, numeral, string, array, object, Fields, member}
use sync_engine_v.Client.Transport.{ResponseText, blank, json, error_message, string_or_default}

-- The value that a text stands for: what is written, or null if nothing is.
pub data Body : ResponseText → Json → Type 0 where
  written : (value : Json) → Body (json value) value
  unwritten : Body blank null

abbrev pub is_text : Json → Bool
is_text (string text) = true
is_text other = false

abbrev pub is_object : Json → Bool
is_object (object fields) = true
is_object other = false

-- The message of a problem: the text that its field has, or a general one.
pub data MessageOf : Json → String → Type 0 where
  said :
      {fields : Fields} {text : String}
      → member "message" fields ≡ some (string text)
      → MessageOf (object fields) text
  unsaid :
      {fields : Fields}
      → member "message" fields ≡ none
      → MessageOf (object fields) "sync endpoint returned HTTP status"
  untold :
      {fields : Fields} {value : Json}
      → member "message" fields ≡ some value
      → is_text value ≡ false
      → MessageOf (object fields) "sync endpoint returned HTTP status"
  plain :
      {problem : Json}
      → is_object problem ≡ false
      → MessageOf problem "sync endpoint returned HTTP status"

string_or_default-other :
    (value : Json) (d : String) → is_text value ≡ false → string_or_default (some value) d ≡ d
string_or_default-other (string s) d h = absurd (true-ne-false h)
string_or_default-other null d h = refl
string_or_default-other (bool b) d h = refl
string_or_default-other (number n) d h = refl
string_or_default-other (numeral s) d h = refl
string_or_default-other (array items) d h = refl
string_or_default-other (object fields) d h = refl

error_message-other :
    (problem : Json)
    → is_object problem ≡ false
    → error_message problem ≡ "sync endpoint returned HTTP status"
error_message-other (object fields) h = absurd (true-ne-false h)
error_message-other null h = refl
error_message-other (bool b) h = refl
error_message-other (number n) h = refl
error_message-other (numeral s) h = refl
error_message-other (string s) h = refl
error_message-other (array items) h = refl

pub error_message-MessageOf :
    {problem : Json} {message : String}
    → MessageOf problem message
    → error_message problem ≡ message
error_message-MessageOf (said there) = rw there refl
error_message-MessageOf (unsaid absent) = rw absent refl
error_message-MessageOf (untold {value = value} there other) =
    rw there (string_or_default-other value "sync endpoint returned HTTP status" other)
error_message-MessageOf (plain {problem = problem} other) = error_message-other problem other
