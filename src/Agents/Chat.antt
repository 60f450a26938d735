-- ===== src/Agents/Chat.antt =====
-- af/crates/af-core/src/llm_types.rs and the token estimate of af/crates/af-llm/src/request.rs. A
-- `serde_json::Value` stands as its serialisation, of which the estimate reads the length.
use arbeiterfarm.Base.{
  ℕ, ◌+◌, ◌/◌, ◌%◌, ◌^◌, Bool, true, false, Option, none, some, List, [], ◌∷◌, map, if◌then◌else◌,
}
use arbeiterfarm.Base.Text.{Text, byte_len}

pub data ChatRole : Type 0 where
  system user assistant tool : ChatRole

abbrev pub role_eq : ChatRole → ChatRole → Bool
role_eq system system = true
role_eq user user = true
role_eq assistant assistant = true
role_eq tool tool = true
role_eq _ _ = false

pub record ToolCallInfo : Type 0 where
  pub id : Text
  pub name : Text
  pub arguments : Text

pub data ContentPart : Type 0 where
  text : Text → ContentPart
  image : Text → Text → ContentPart

pub record ChatMessage : Type 0 where
  pub role : ChatRole
  pub content : Text
  pub tool_call_id : Option Text
  pub name : Option Text
  pub tool_calls : List ToolCallInfo
  pub content_parts : Option (List ContentPart)

-- A message with a role and a content alone.
abbrev pub plain : ChatRole → Text → ChatMessage
plain role content = record {
  role = role;
  content = content;
  tool_call_id = none;
  name = none;
  tool_calls = [];
  content_parts = none;
}

-- `a + b` and `len as u32`, on u32.
abbrev pub add32 : ℕ → ℕ → ℕ
add32 a b = (a + b) % 2 ^ 32

abbrev pub len32 : Text → ℕ
len32 s = byte_len s % 2 ^ 32

unfoldable pub part_tokens : ContentPart → ℕ
part_tokens (text t) = len32 t / 4
part_tokens (image data_ media) = 516

-- `.sum()`
unfoldable pub sum32 : List ℕ → ℕ
sum32 [] = 0
sum32 (n ∷ ns) = add32 n (sum32 ns)

unfoldable pub estimate_content_tokens : ChatMessage → ℕ
estimate_content_tokens m = elim m.content_parts [
  | some parts ↦ sum32 (map part_tokens parts)
  | none ↦ len32 m.content / 4
]

pub record ToolDescription : Type 0 where
  pub name : Text
  pub description : Text
  pub parameters : Text

unfoldable pub tool_call_tokens : ToolCallInfo → ℕ
tool_call_tokens tc = add32 (len32 tc.name / 4 + 4) (len32 tc.arguments / 4)

abbrev pub tool_name_tokens : Option Text → ℕ
tool_name_tokens none = 0
tool_name_tokens (some name) = len32 name / 4 + 2

unfoldable pub message_tokens : ChatMessage → ℕ
message_tokens m =
    add32 (add32 (add32 (estimate_content_tokens m) 4) (sum32 (map tool_call_tokens m.tool_calls)))
      (if role_eq m.role tool then tool_name_tokens m.name else 0)

unfoldable pub tool_tokens : ToolDescription → ℕ
tool_tokens t =
    add32 (add32 (len32 t.name / 4 + 2) (len32 t.description / 4)) (len32 t.parameters / 4 + 10)

unfoldable pub estimate_tokens : List ChatMessage → List ToolDescription → ℕ
estimate_tokens messages tools =
    add32 (sum32 (map message_tokens messages)) (sum32 (map tool_tokens tools))
