-- ===== src/Editor.antt =====
-- web/src/components/editor/monaco-file-editor.tsx: the editor of a file, its copy and paste buttons and
-- what it sets up. Monaco and the clipboard are parameters.
pub mod CopyPaste
use dockstack.Prelude.{
  Bool, true, false, not, Option, none, some, List, [], ◌∷◌, ◌++◌, length, drop, ◌-◌, text_eq, Text,
  codes, if◌then◌else◌,
}
use dockstack.Effect.{Effect, toast_error}

-- an editor of Monaco with a model: its text, its selection, and edits
pub record Monaco : Type 1 where
  pub State : Type 0
  pub Range : Type 0
  pub get_value : State → Text
  pub get_selection : State → Option Range
  pub is_empty : Range → Bool
  pub get_value_in_range : Range → State → Text
  pub execute_edits : Range → Text → State → State

-- what the browser's clipboard does: `none` where it refuses
pub record Clipboard : Type 0 where
  pub write_text : Text → Option Text
  pub read_text : Option Text

module _ (monaco : Monaco) where
  -- `selection && !selection.isEmpty() ? ... : ...`
  text_of_selection : Option monaco.Range → monaco.State → Text
  text_of_selection none s = monaco.get_value s
  text_of_selection (some range) s =
      if not (monaco.is_empty range) then monaco.get_value_in_range range s else monaco.get_value s

  pub copied_text : monaco.State → Text
  unfolding text_of_selection
  copied_text s = text_of_selection (monaco.get_selection s) s

  copied : Option Text → Option Text × List Effect
  copied none = (none, toast_error (codes "Failed to copy") ∷ [])
  copied (some text) = (some text, [])

  -- `handleCopy`: what the clipboard holds after it, if it takes the text; nothing without an editor
  pub handle_copy : Clipboard → Option monaco.State → Option Text × List Effect
  unfolding copied
  handle_copy clipboard none = (none, [])
  handle_copy clipboard (some s) = copied (clipboard.write_text (copied_text s))

  pasted : Option Text → monaco.Range → monaco.State → monaco.State × List Effect
  pasted none range s = (s, toast_error (codes "Failed to paste") ∷ [])
  pasted (some text) range s = (monaco.execute_edits range text s, [])

  paste_at : Option monaco.Range → Clipboard → monaco.State → monaco.State × List Effect
  unfolding pasted
  paste_at none clipboard s = (s, [])
  paste_at (some range) clipboard s = pasted clipboard.read_text range s

  -- `handlePaste` of an editor, which nothing else changes while the clipboard is read; that the editor
  -- is focused afterwards is left out
  pub handle_paste : Clipboard → monaco.State → monaco.State × List Effect
  unfolding paste_at
  handle_paste clipboard s = paste_at (monaco.get_selection s) clipboard s

-- `filename.endsWith(".env") ? "ini" : "yaml"`
ends_with : Text → Text → Bool
ends_with part text = text_eq (drop (length text - length part) text) part

pub language_of : (filename : Text) → Text
unfolding ends_with
language_of filename = if ends_with (codes ".env") filename then codes "ini" else codes "yaml"

-- `beforeMount`: whether YAML is set up now, by `window.IS_MONACO_YAML_CONFIGURED`, which is then true
pub before_mount : (configured : Bool) → Bool × Bool
before_mount true = (false, true)
before_mount false = (true, true)

-- `onChange?.(v ?? "")`
pub changed_value : Option Text → Text
changed_value none = []
changed_value (some v) = v

-- whether the button for pasting is shown
pub shows_paste : (read_only : Bool) → Bool
shows_paste read_only = not read_only
