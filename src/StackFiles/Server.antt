-- ===== src/StackFiles/Server.antt =====
-- internal/server/api/stacks.go and internal/docker/stacks.go: the handlers that read and write the
-- files of one stack. The name is valid, and reading and writing succeed; `base` is `filepath.Base`
-- and `within` says whether a file name stays within the stack's directory.
use dockstack.Prelude.{
  Bool, true, false, not, ◌||◌, Option, none, some, List, [], ◌∷◌, text_eq, Text, codes,
  if◌then◌else◌,
}
use dockstack.StackFiles.{StackFilesResponse, StackFilesSaveRequest}

-- the files of the stack's directory, by name
abbrev pub Disk : Type 0
Disk = List (Text × Text)

unfoldable pub read : Text → Disk → Option Text
read name [] = none
read name ((n, content) ∷ disk) = if text_eq n name then some content else read name disk

unfoldable pub write : Text → Text → Disk → Disk
write name content [] = (name, content) ∷ []
write name content ((n, old) ∷ disk) =
    if text_eq n name then (name, content) ∷ disk else (n, old) ∷ write name content disk

abbrev pub env_name : Text
env_name = codes ".env"

-- `ComposeFilenames`
abbrev pub compose_filenames : List Text
compose_filenames =
    codes "compose.yaml"
    ∷ codes "compose.yml"
    ∷ codes "docker-compose.yml"
    ∷ codes "docker-compose.yaml"
    ∷ []

-- `FindComposePath`: the first of the names that exists, here with what it holds
unfoldable pub find_compose : List Text → Disk → Option (Text × Text)
find_compose [] disk = none
find_compose (name ∷ names) disk = elim (read name disk) [
  | none ↦ find_compose names disk
  | some content ↦ some (name, content)
]

pub data Reply {ℓ} (A : Type ℓ) : Type ℓ where
  ok : A → Reply A
  not_found : Reply A
  bad_request : Text → Reply A

unfoldable pub get_reply : Disk → Option (Text × Text) → Reply StackFilesResponse
get_reply disk none = not_found
get_reply disk (some (name, content)) =
    ok (record { compose = content; compose_file = name; env = read env_name disk })

unfoldable pub handle_stack_files_get : Disk → Reply StackFilesResponse
unfolding get_reply
handle_stack_files_get disk = get_reply disk (find_compose compose_filenames disk)

unfoldable pub write_env : Option Text → Disk → Disk
write_env none disk = disk
write_env (some env) disk = write env_name env disk

abbrev pub is_blank : Text → Bool
is_blank [] = true
is_blank (c ∷ cs) = false

unfoldable pub handle_stack_files_save :
    (Text → Text) → (Text → Bool) → StackFilesSaveRequest → Disk → Reply Disk
unfolding write_env
handle_stack_files_save base within req disk =
    if is_blank req.compose_file || not (text_eq (base req.compose_file) req.compose_file)
    then bad_request (codes "invalid compose file name")
    else if is_blank req.compose
    then bad_request (codes "compose content is required")
    else if not (within req.compose_file)
    then bad_request (codes "invalid compose file path")
    else ok (write_env req.env (write req.compose_file req.compose disk))

-- `handleStackCreateEnv`
unfoldable pub handle_stack_create_env : Disk → Disk
handle_stack_create_env disk = write env_name (codes "# VAR1=example\n") disk
