-- ===== src/Tests/FilesTests.antt =====
-- The editor of a stack with a compose file and an .env file.
use dockstack.Prelude.{◌≡◌, ◌↔◌, refl, true, false, none, some, [], ◌∷◌, codes, text_eq}
use dockstack.StackFiles.{
  StackFilesResponse, StackFilesSaveRequest, StackFiles, mount, receive_data, is_dirty,
  save_request,
}
use dockstack.StackFiles.Dirty.{EnvSettles, is_dirty-receive_data}
use dockstack.StackFiles.Saving.{saved_files, save_request-get}
use dockstack.StackFiles.Server.{
  Disk, read, ok, find_compose, handle_stack_files_get, handle_stack_files_save,
}

abbrev disk : Disk
disk = (codes "compose.yml", codes "a") ∷ (codes ".env", codes "K=1") ∷ []

abbrev files : StackFilesResponse
files = record { compose = codes "a"; compose_file = codes "compose.yml"; env = some (codes "K=1") }

abbrev editor : StackFiles
editor = record (mount (codes "web")) {
  compose = codes "b";
  env_content = some (codes "K=1");
  data_of = some files;
}

is_dirty-receive_data_example :
    (is_dirty (receive_data files (mount (codes "web"))) ≡ false) ↔ EnvSettles files.env none
is_dirty-receive_data_example = is_dirty-receive_data files (mount (codes "web"))

served : handle_stack_files_get disk ≡ ok files
unfolding handle_stack_files_get find_compose read text_eq
served = refl

edited : is_dirty editor ≡ true
unfolding is_dirty text_eq
edited = refl

save_request-get_example :
    (req : StackFilesSaveRequest) × (save_request editor ≡ some req)
    × ((after : Disk) × (handle_stack_files_save (λ t. t) (λ _. true) req disk ≡ ok after)
        × (handle_stack_files_get after ≡ ok (saved_files editor files)))
save_request-get_example =
    save_request-get (λ t. t) (λ _. true) disk files editor served refl edited refl (refl, refl)
