-- ===== src/Terminal/Heard.antt =====
-- internal/server/api/ws/exec.go: what the server takes a text for that comes on the socket of a terminal.
-- The two decodings of a text, `json.Unmarshal` into the type and into the columns and rows, are parameters.
use dockstack.Prelude.{◌≡◌, refl, Option, none, some, Text, codes, text_eq, if◌then◌else◌}
use dockstack.Terminal.{Size, Control, init, resize}

pub record Decoder : Type 0 where
  pub type_of : Text → Option Text
  pub size_of : Text → Option Size

-- the size of an `init` and of a `resize`; `input` is a text that is written to the process, and `other`
-- one that closes its input or is ignored
pub data Heard : Type 0 where
  said_init said_resize : Size → Heard
  input other : Heard

unfoldable pub with_size : (Size → Heard) → Option Size → Heard
with_size said none = other
with_size said (some size) = said size

-- the `switch` on the type
unfoldable pub of_type : Option Size → Option Text → Heard
unfolding with_size
of_type size none = input
of_type size (some name) =
    if text_eq name (codes "init")
    then with_size said_init size
    else (if text_eq name (codes "resize") then with_size said_resize size else other)

unfoldable pub heard : Decoder → Text → Heard
unfolding of_type
heard d data' = of_type (d.size_of data') (d.type_of data')

-- Decoding the text of an object gives its type and its size.
abbrev pub IsDecoded : Decoder → Text → Control → Type 0
IsDecoded d data' (init container_id shell size) =
    (d.type_of data' ≡ some (codes "init")) × (d.size_of data' ≡ some size)
IsDecoded d data' (resize size) =
    (d.type_of data' ≡ some (codes "resize")) × (d.size_of data' ≡ some size)

-- What the server should take the text of an object for.
unfoldable pub said : Control → Heard
said (init container_id shell size) = said_init size
said (resize size) = said_resize size

pub heard-stringify :
    (d : Decoder) (data' : Text) (m : Control) → IsDecoded d data' m → heard d data' ≡ said m
unfolding heard of_type with_size said text_eq
heard-stringify d data' (init container_id shell size) (t, s) = rw (t, s) refl
heard-stringify d data' (resize size) (t, s) = rw (t, s) refl
