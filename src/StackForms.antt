-- ===== src/StackForms.antt =====
-- web/src/components/stacks/create-stack-dialog.tsx and rename-stack-dialog.tsx: the forms that take
-- the name of a stack.
pub mod Names
use dockstack.Prelude.{
  ℕ, Bool, true, false, not, ◌&&◌, ◌||◌, Option, none, some, List, [], ◌∷◌, ◌++◌, includes, text_eq,
  Text, codes, ◌==◌, leb, if◌then◌else◌,
}
use dockstack.Api.Stacks.{post_stacks, post_stacks_name_rename}
use dockstack.Api.Keys.{get_stacks_drift_query_key, get_stacks_query_key}
use dockstack.Effect.{Effect, toast_success, toast_error, invalidate, navigate, reset_form, mutate}

unfoldable pub between : ℕ → ℕ → ℕ → Bool
between lo hi c = leb lo c && leb c hi

-- the class `[a-zA-Z0-9_-]`
unfoldable pub is_name_char : ℕ → Bool
unfolding between
is_name_char c =
    between b'a' b'z' c
    || (between b'A' b'Z' c || (between b'0' b'9' c || (c == b'_' || c == b'-')))

unfoldable pub all_name_chars : Text → Bool
all_name_chars [] = true
all_name_chars (c ∷ cs) = is_name_char c && all_name_chars cs

-- `/^[a-zA-Z0-9_-]+$/`
unfoldable pub matches_name : Text → Bool
unfolding all_name_chars
matches_name [] = false
matches_name (c ∷ cs) = all_name_chars (c ∷ cs)

abbrev pub required_message : Text
required_message = codes "Name is required"

abbrev pub letters_message : Text
letters_message = codes "Only letters, numbers, hyphens, underscores"

unfoldable pub min_length_issue : Text → List Text
min_length_issue [] = required_message ∷ []
min_length_issue (c ∷ cs) = []

-- `schema`: the issues of both checks, in their order
unfoldable pub name_issues : Text → List Text
unfolding min_length_issue matches_name
name_issues value =
    min_length_issue value ++ (if matches_name value then [] else letters_message ∷ [])

-- `v.safeParse(schema.entries.name, value).success`
unfoldable pub no_issue : List Text → Bool
no_issue [] = true
no_issue (i ∷ is) = false

unfoldable pub is_valid_name : Text → Bool
unfolding no_issue name_issues
is_valid_name value = no_issue (name_issues value)

unfoldable pub exists_message : Text → Text
exists_message value = codes "A stack named \"" ++ (value ++ codes "\" already exists")

-- `onChangeAsync` of the two fields; `exists` says whether `getStacksName` succeeds
unfoldable pub create_field_error : (exists : Text → Bool) → Text → Option Text
unfolding exists_message
create_field_error exists value =
    if not (is_valid_name value)
    then none
    else if exists value
    then some (exists_message value)
    else none

unfoldable pub rename_field_error :
    (exists : Text → Bool) → (stack_name : Text) → Text → Option Text
unfolding exists_message
rename_field_error exists stack_name value =
    if not (is_valid_name value)
    then none
    else if text_eq value stack_name
    then none
    else if exists value
    then some (exists_message value)
    else none

-- `onSubmit` of the two forms, given a value that the form has accepted; `body` is the JSON text of
-- `{ name }`
unfoldable pub submit_create : (body : Text → Text) → Text → List Effect
submit_create body value = mutate (post_stacks (body value)) ∷ []

unfoldable pub submit_rename : (body : Text → Text) → (stack_name : Text) → Text → List Effect
submit_rename body stack_name value = mutate (post_stacks_name_rename stack_name (body value)) ∷ []

-- the `onSuccess` of the two mutations; the dialog is closed as well
unfoldable pub create_succeeded : Text → Bool × List Effect
create_succeeded name = (
  false,
  toast_success (codes "Stack \"" ++ (name ++ codes "\" created"))
      ∷ invalidate get_stacks_query_key
      ∷ invalidate get_stacks_drift_query_key
      ∷ reset_form
      ∷ navigate (codes "/stacks/" ++ name) (some (codes "files"))
      ∷ [],
)

unfoldable pub rename_succeeded : (old new : Text) → Bool × List Effect
rename_succeeded old new = (
  false,
  toast_success (codes "Stack \"" ++ (old ++ (codes "\" renamed to \"" ++ (new ++ codes "\""))))
      ∷ invalidate get_stacks_query_key
      ∷ invalidate get_stacks_drift_query_key
      ∷ reset_form
      ∷ navigate (codes "/stacks/" ++ new) (some (codes "services"))
      ∷ [],
)

-- the `onError` of both
unfoldable pub form_failed : (message : Text) → List Effect
form_failed message = toast_error message ∷ []

-- `FieldError` of web/src/components/ui/field.tsx: the messages, each once, in the order of their
-- first occurrences
distinct : List Text → List Text → List Text
distinct seen [] = []
distinct seen (m ∷ ms) = if includes m seen then distinct seen ms else m ∷ distinct (m ∷ seen) ms

pub data ErrorContent : Type 0 where
  no_content : ErrorContent
  one : Text → ErrorContent
  many : List Text → ErrorContent

content_of : List Text → ErrorContent
content_of [] = no_content
content_of (m ∷ []) = one m
content_of (m ∷ n ∷ ms) = many (m ∷ n ∷ ms)

unfoldable pub error_content : List Text → ErrorContent
unfolding distinct content_of
error_content messages = content_of (distinct [] messages)
