-- ===== src/Editor/CopyPaste.antt =====
-- Copying and pasting in an editor.
use dockstack.Prelude.{
  ◌≡◌, sym, ap, ◌∙◌, Bool, true, false, none, some, [], ◌∷◌, ◌++◌, Text, codes, not, if◌then◌else◌,
}
use dockstack.Effect.{toast_error}
use dockstack.Editor.{
  Monaco, Clipboard, copied_text, text_of_selection, handle_paste, paste_at, pasted,
}

-- What Monaco says of a range: the text is what is before it, in it and behind it, and an edit puts
-- another text in its place; an empty range holds nothing.
pub record MonacoLaws (monaco : Monaco) : Type 0 where
  pub before : monaco.Range → monaco.State → Text
  pub behind : monaco.Range → monaco.State → Text
  pub parted :
      (r : monaco.Range) (s : monaco.State)
      → monaco.get_value s ≡ before r s ++ (monaco.get_value_in_range r s ++ behind r s)
  pub edited :
      (r : monaco.Range) (t : Text) (s : monaco.State)
      → monaco.get_value (monaco.execute_edits r t s) ≡ before r s ++ (t ++ behind r s)

-- A clipboard that holds a text, and takes any.
abbrev pub holding : Text → Clipboard
holding text = record { write_text = λ t. some t; read_text = some text }

-- A clipboard that refuses.
abbrev pub refusing : Clipboard
refusing = record { write_text = λ t. none; read_text = none }

module _ (monaco : Monaco) (laws : MonacoLaws monaco) where
  open laws use {before, behind, parted, edited}

  paste_text :
      (r : monaco.Range) (t : Text) (s : monaco.State)
      → monaco.get_selection s ≡ some r
      → monaco.get_value (handle_paste monaco (holding t) s).0 ≡ before r s ++ (t ++ behind r s)
  unfolding handle_paste paste_at pasted
  paste_text r t s e =
      ap (λ o. monaco.get_value (paste_at monaco o (holding t) s).0) e ∙ edited r t s

  copy_range :
      (r : monaco.Range) (s : monaco.State) (b : Bool)
      → monaco.get_selection s ≡ some r
      → monaco.is_empty r ≡ b
      → copied_text monaco s ≡ (if not b then monaco.get_value_in_range r s else monaco.get_value s)
  unfolding copied_text text_of_selection
  copy_range r s b e f =
      ap (λ o. text_of_selection monaco o s) e
      ∙ ap (λ x. if not x then monaco.get_value_in_range r s else monaco.get_value s) f

  -- Pasting what was copied leaves the text as it is where something is selected. At a cursor,
  -- which selects nothing, it puts the whole text there once more. A clipboard that refuses changes
  -- nothing, and is reported.
  handle_paste-copied_text :
      (r c : monaco.Range) (s t : monaco.State)
      → monaco.get_selection s ≡ some r
      → monaco.is_empty r ≡ false
      → monaco.get_selection t ≡ some c
      → monaco.is_empty c ≡ true
      → (monaco.get_value (handle_paste monaco (holding (copied_text monaco s)) s).0
          ≡ monaco.get_value s)
        × (monaco.get_value (handle_paste monaco (holding (copied_text monaco t)) t).0
            ≡ before c t ++ (monaco.get_value t ++ behind c t))
        × (handle_paste monaco refusing s ≡ (s, toast_error (codes "Failed to paste") ∷ []))
  unfolding handle_paste paste_at pasted
  handle_paste-copied_text r c s t er full ec empty = (
    paste_text r _ s er
        ∙ ap (λ x. before r s ++ (x ++ behind r s)) (copy_range r s false er full)
        ∙ sym (parted r s),
    paste_text c _ t ec ∙ ap (λ x. before c t ++ (x ++ behind c t)) (copy_range c t true ec empty),
    ap (λ o. paste_at monaco o refusing s) er,
  )
