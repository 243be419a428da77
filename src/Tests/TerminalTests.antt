-- ===== src/Tests/TerminalTests.antt =====
-- A terminal that is opened, resized and typed into, and what the server makes of its texts.
use dockstack.Prelude.{
  ◌≡◌, refl, Option, none, some, List, [], ◌∷◌, Text, codes, text_eq, if◌then◌else◌, ◌==◌,
}
use dockstack.Terminal.{Size, Control, init, resize}
use dockstack.Terminal.Heard.{Decoder, heard, of_type, said_resize}
use dockstack.Terminal.Sizes.{Event, opened, framed, observed, typed}

abbrev small : Size
small = record { cols = 80; rows = 24 }

abbrev large : Size
large = record { cols = 120; rows = 40 }

-- A short code in place of JSON: a number for the type, the columns and the rows.
to_code : Control → Text
to_code (init container_id shell size) = 1 ∷ size.cols ∷ size.rows ∷ []
to_code (resize size) = 2 ∷ size.cols ∷ size.rows ∷ []

code_type : Text → Option Text
code_type (n ∷ cols ∷ rows ∷ []) =
    if n == 1 then some (codes "init") else (if n == 2 then some (codes "resize") else none)
code_type [] = none
code_type (a ∷ []) = none
code_type (a ∷ b ∷ []) = none
code_type (a ∷ b ∷ c ∷ d ∷ rest) = none

code_size : Text → Option Size
code_size (n ∷ cols ∷ rows ∷ []) = some (record { cols = cols; rows = rows })
code_size [] = none
code_size (a ∷ []) = none
code_size (a ∷ b ∷ []) = none
code_size (a ∷ b ∷ c ∷ d ∷ rest) = none

abbrev decoder : Decoder
decoder = record { type_of = code_type; size_of = code_size }

abbrev history : List Event
history = framed large ∷ typed (codes "x") ∷ opened ∷ typed (codes "ls") ∷ observed small ∷ []

-- A typed text that is the code of a size is taken for one.
typed_size : heard decoder (2 ∷ 1 ∷ 1 ∷ []) ≡ said_resize (record { cols = 1; rows = 1 })
unfolding heard of_type code_type code_size text_eq
typed_size = refl
