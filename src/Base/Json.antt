-- ===== src/Base/Json.antt =====
-- The values of the crate serde_json, with what the code reads of them.
use mathlib.Core.Bool.{Bool}
use mathlib.Core.Option.{Option, none, some}
use arbeiterfarm.Base.Tests.{if◌then◌else◌}
use arbeiterfarm.Base.Text.{Text, text_eq}

-- `serde_json::Value`; a number stands as its text.
mutual
  pub data Json : Type 0 where
    null : Json
    bool : Bool → Json
    number : Text → Json
    string : Text → Json
    array : JsonItems → Json
    object : JsonMembers → Json

  pub data JsonItems : Type 0 where
    nil : JsonItems
    item : Json → JsonItems → JsonItems

  pub data JsonMembers : Type 0 where
    end : JsonMembers
    member : Text → Json → JsonMembers → JsonMembers

-- `map.get(key)`
abbrev pub member_of : Text → JsonMembers → Option Json
member_of key end = none
member_of key (member k v rest) = if text_eq k key then some v else member_of key rest

-- `value.get(key)`, for a text.
abbrev pub get : Text → Json → Option Json
get key (object members) = member_of key members
get key null = none
get key (bool b) = none
get key (number n) = none
get key (string s) = none
get key (array items) = none

-- `as_str`
abbrev pub as_str : Json → Option Text
as_str (string s) = some s
as_str null = none
as_str (bool b) = none
as_str (number n) = none
as_str (array items) = none
as_str (object members) = none

-- `as_object`
abbrev pub as_object : Json → Option JsonMembers
as_object (object members) = some members
as_object null = none
as_object (bool b) = none
as_object (number n) = none
as_object (string s) = none
as_object (array items) = none
