-- ===== src/Handlers/Answers.antt =====
-- What the handlers of internal/adapters/mcp/handler.go answer. Their Go error is always nil.
use sh_mcp_go.Prelude.{String, Option, none, some, [], ◌∷◌, Result, ok, err, concat}

-- `mcp.CallToolResult`, as `NewToolResultText` and `NewToolResultError` make it.
pub data ToolResult : Type 0 where
  tool_text tool_error : String → ToolResult

-- `toolJSON`, by `json.MarshalIndent`.
unfoldable pub tool_json : {V : Type 0} → (marshal : V → Result String String) → V → ToolResult
unfolding concat
tool_json marshal v = elim (marshal v) [
  | ok text ↦ tool_text text
  | err e ↦ tool_error (concat ("serializing result: " ∷ e ∷ []))
]

module _ {E : Type 0} (error_text : E → String) where
  -- `toolError(fmt.Sprintf("<tool> failed: %v", err))`.
  abbrev pub tool_failed : (tool : String) → E → ToolResult
  unfolding concat
  tool_failed tool e = tool_error (concat (tool ∷ " failed: " ∷ error_text e ∷ []))

  -- A call with a result: the error, or what is made of the result.
  unfoldable pub answer :
      {V : Type 0} → (tool : String) → (V → ToolResult) → Result E V → ToolResult
  unfolding concat
  answer tool shown (ok v) = shown v
  answer tool shown (err e) = tool_failed tool e

  -- A call that returns an error only, and the text where it is nil.
  unfoldable pub confirm : (tool : String) → (text : String) → Option E → ToolResult
  unfolding concat
  confirm tool text none = tool_text text
  confirm tool text (some e) = tool_failed tool e
