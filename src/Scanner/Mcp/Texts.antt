-- ===== src/Scanner/Mcp/Texts.antt =====
-- server/scanner/mcp.js:86-116: the texts of a manifest that the rules look at. A field is `none`
-- where the manifest has none. JSON.stringify is not in the repository: a tool carries the JSON text
-- of its schema.
use monadguard.Base.{
  ℕ, ◌+◌, Bool, true, false, Option, none, some, List, [], ◌∷◌, ◌++◌, Text, lit, length, truthy,
  if◌then◌else◌,
}

pub record Tool : Type 0 where
  pub name : Option Text
  pub description : Option Text
  pub input_schema : Option Text

pub record Resource : Type 0 where
  pub uri : Option Text
  pub description : Option Text

pub record Prompt : Type 0 where
  pub description : Option Text
  pub template : Option Text

pub record Manifest : Type 0 where
  pub name : Option Text
  pub description : Option Text
  pub tools : Option (List Tool)
  pub resources : Option (List Resource)
  pub prompts : Option (List Prompt)

pub record Chunk : Type 0 where
  pub field : Text
  pub text : Text
  pub is_name : Bool
  pub is_schema : Bool
  pub is_uri : Bool

-- `if (text) chunks.push(…)`: neither a missing text nor the empty one is pushed.
unfoldable pub pushed : Option Text → (Text → Chunk) → List Chunk
pushed none make = []
pushed (some t) make = if truthy t then make t ∷ [] else []

-- A missing name stands as `undefined` in a template.
shown : Option Text → Text
shown none = lit "undefined"
shown (some t) = t

abbrev plain : Text → Text → Chunk
plain field text = record {
  field = field;
  text = text;
  is_name = false;
  is_schema = false;
  is_uri = false;
}

unfoldable pub tool_chunks : Tool → List Chunk
unfolding pushed shown
tool_chunks t =
    pushed t.name
      (λ x. record (plain (lit "tool." ++ (shown t.name ++ lit ".name")) x) { is_name = true })
    ++ (pushed t.description (plain (lit "tool." ++ (shown t.name ++ lit ".description")))
        ++ pushed t.input_schema (λ x.
          record (plain (lit "tool." ++ (shown t.name ++ lit ".schema")) x) { is_schema = true }))

unfoldable pub resource_chunks : Resource → List Chunk
unfolding pushed
resource_chunks r =
    pushed r.uri (λ x. record (plain (lit "resource.uri") x) { is_uri = true })
    ++ pushed r.description (plain (lit "resource.description"))

unfoldable pub prompt_chunks : Prompt → List Chunk
unfolding pushed
prompt_chunks p =
    pushed p.description (plain (lit "prompt.description"))
    ++ pushed p.template (plain (lit "prompt.template"))

-- `xs || []`
unfoldable pub or_empty : {A : Type 0} → Option (List A) → List A
or_empty none = []
or_empty (some xs) = xs

unfoldable pub each : {A : Type 0} → (A → List Chunk) → List A → List Chunk
each f [] = []
each f (x ∷ xs) = f x ++ each f xs

unfoldable pub extract_text : Manifest → List Chunk
unfolding tool_chunks resource_chunks prompt_chunks or_empty each pushed
extract_text m =
    pushed m.name (plain (lit "server.name"))
    ++ (pushed m.description (plain (lit "server.description"))
        ++ (each tool_chunks (or_empty m.tools)
            ++ (each resource_chunks (or_empty m.resources)
                ++ each prompt_chunks (or_empty m.prompts))))

-- What the manifest declares: its tools, resources and prompts.
unfoldable pub declared : Manifest → ℕ
unfolding or_empty
declared m = length (or_empty m.tools) + length (or_empty m.resources) + length (or_empty m.prompts)
