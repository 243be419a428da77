-- ===== src/StackFiles/Saving.antt =====
-- Saving the editors and reading the files back.
use dockstack.Prelude.{
  ◌≡◌, refl, subst, Bool, true, false, Option, none, some, List, [], ◌∷◌, All, text_eq, text_eq_iff,
  text_eq_self, Text, if◌then◌else◌, Option-cases, arith, inl, inr,
}
use dockstack.StackFiles.{
  StackFilesResponse, StackFilesSaveRequest, StackFiles, receive_data, save_request, is_dirty,
  save_of,
}
use dockstack.StackFiles.Server.{
  Disk, read, write, env_name, compose_filenames, find_compose, ok, handle_stack_files_get,
  write_env, handle_stack_files_save, is_blank,
}

pub read-write :
    (k j v : Text) (disk : Disk)
    → read k (write j v disk) ≡ (if text_eq j k then some v else read k disk)
unfolding read write
read-write k j v [] = refl
read-write k j v ((n, old) ∷ disk) =
    ground (arith, text_eq_iff n j, text_eq_iff n k, text_eq_iff j k, read-write k j v disk)

module _ (disk : Disk) where
  read_of_find_compose :
      (ns : List Text) (cf c : Text) → find_compose ns disk ≡ some (cf, c) → read cf disk ≡ some c
  unfolding find_compose
  read_of_find_compose [] cf c h = cc
  read_of_find_compose (n ∷ ns) cf c h = elim (Option-cases (read n disk)) [
    | inl e ↦ read_of_find_compose ns cf c (ground arith)
    | inr (x, e) ↦ ground arith
  ]

  -- Overwriting the compose file that was found leaves it the one that is found.
  find_compose-write :
      (ns : List Text) (cf c v : Text)
      → find_compose ns disk ≡ some (cf, c)
      → find_compose ns (write cf v disk) ≡ some (cf, v)
  unfolding find_compose
  find_compose-write [] cf c v h = cc
  find_compose-write (n ∷ ns) cf c v h = elim (Option-cases (read n disk)) [
    | inl e ↦ ground (
      arith,
      read-write n cf v disk,
      text_eq_iff cf n,
      read_of_find_compose ns cf c,
      find_compose-write ns cf c v,
    )
    | inr (x, e) ↦ ground (arith, read-write n cf v disk, text_eq_self n)
  ]

  -- Writing another file changes nothing.
  find_compose-write_ne :
      (ns : List Text) (j v : Text)
      → All (λ n. text_eq j n ≡ false) ns
      → find_compose ns (write j v disk) ≡ find_compose ns disk
  unfolding find_compose
  find_compose-write_ne [] j v h = refl
  find_compose-write_ne (n ∷ ns) j v (h, hs) =
      ground (arith, read-write n j v disk, find_compose-write_ne ns j v hs)

get-find :
    (disk : Disk) (d : StackFilesResponse)
    → handle_stack_files_get disk ≡ ok d
    → (find_compose compose_filenames disk ≡ some (d.compose_file, d.compose))
      × (d.env ≡ read env_name disk)
unfolding handle_stack_files_get
get-find disk d h = elim (Option-cases (find_compose compose_filenames disk)) [
  | inl e ↦ cc (e, h)
  | inr ((name, content), e) ↦ ground arith
]

-- The .env file after a save: the one that was sent, or else the old one.
abbrev pub saved_env : Option Text → Option Text → Option Text
saved_env none old = old
saved_env (some env) old = some env

not_env : All (λ n. text_eq env_name n ≡ false) compose_filenames
unfolding text_eq
not_env = (refl, (refl, (refl, (refl, tt))))

get-write_env :
    (disk : Disk) (cf c : Text) (env : Option Text)
    → find_compose compose_filenames disk ≡ some (cf, c)
    → handle_stack_files_get (write_env env disk)
      ≡ ok (record { compose = c; compose_file = cf; env = saved_env env (read env_name disk) })
unfolding handle_stack_files_get write_env
get-write_env disk cf c none h = rw h
get-write_env disk cf c (some env) h = rw (
  find_compose-write_ne disk compose_filenames env_name env not_env,
  h,
  read-write env_name env_name env disk,
  text_eq_self env_name,
)

find_compose_All :
    (P : Text → Type 0) (disk : Disk) (ns : List Text) (cf c : Text)
    → All P ns
    → find_compose ns disk ≡ some (cf, c)
    → P cf
unfolding find_compose
find_compose_All P disk [] cf c ps h = cc
find_compose_All P disk (n ∷ ns) cf c (p, ps) h = elim (Option-cases (read n disk)) [
  | inl e ↦ find_compose_All P disk ns cf c ps (ground arith)
  | inr (x, e) ↦ let same : n ≡ cf = ground arith in subst P same p
]

-- A name that the handler accepts as that of the compose file.
abbrev pub IsFileName : (Text → Text) → (Text → Bool) → Text → Type 0
IsFileName base within name = (base name ≡ name) × (within name ≡ true)

abbrev IsComposeName : Text → Type 0
IsComposeName name = (text_eq name env_name ≡ false) × (is_blank name ≡ false)

compose_names : All IsComposeName compose_filenames
unfolding text_eq
compose_names = ((refl, refl), ((refl, refl), ((refl, refl), ((refl, refl), tt))))

-- What the files are after a save of the editors.
abbrev pub saved_files : StackFiles → StackFilesResponse → StackFilesResponse
saved_files s d = record {
  compose = s.compose;
  compose_file = d.compose_file;
  env = saved_env s.env_content d.env;
}

handle_save :
    (base : Text → Text) (within : Text → Bool) (req : StackFilesSaveRequest) (disk : Disk)
    → IsFileName base within req.compose_file
    → is_blank req.compose_file ≡ false
    → is_blank req.compose ≡ false
    → handle_stack_files_save base within req disk
      ≡ ok (write_env req.env (write req.compose_file req.compose disk))
unfolding handle_stack_files_save
handle_save base within req disk (b, w) f c = rw (f, b, text_eq_self req.compose_file, c, w)

-- If the files `d` that the page shows are those of the server, the compose editor is not empty,
-- there is something to save, and the name of the compose file is a base name that stays within the
-- stack's directory, the Save button sends the two editors' texts, the server accepts them,
-- and it then answers with exactly those texts; an .env file that has no editor is left as it is.
pub save_request-get :
    (base : Text → Text) (within : Text → Bool) (disk : Disk) (d : StackFilesResponse)
    (s : StackFiles)
    → handle_stack_files_get disk ≡ ok d
    → s.data_of ≡ some d
    → is_dirty s ≡ true
    → is_blank s.compose ≡ false
    → IsFileName base within d.compose_file
    → (req : StackFilesSaveRequest) × (save_request s ≡ some req)
      × ((after : Disk) × (handle_stack_files_save base within req disk ≡ ok after)
          × (handle_stack_files_get after ≡ ok (saved_files s d)))
unfolding save_request save_of
save_request-get base within disk d s got shown dirty full name =
    let (found, env) = get-find disk d got in
    let (other, named) =
      find_compose_All IsComposeName disk compose_filenames d.compose_file d.compose compose_names
        found in
    let kept = find_compose-write disk compose_filenames d.compose_file d.compose s.compose found in
    (
      record { compose = s.compose; compose_file = d.compose_file; env = s.env_content },
      rw (dirty, shown),
      (
        write_env s.env_content (write d.compose_file s.compose disk),
        handle_save base within _ disk name named full,
        rw (
          get-write_env (write d.compose_file s.compose disk) d.compose_file s.compose s.env_content
              kept,
          read-write env_name d.compose_file s.compose disk,
          other,
          ← env,
        ),
      ),
    )

-- Once what was saved has been read back, an open .env editor and the compose editor hold the texts
-- that they held, and the Save button is hidden.
receive_data-saved_files :
    (d : StackFilesResponse) (s : StackFiles) (env : Text)
    → s.env_content ≡ some env
    → ((receive_data (saved_files s d) s).compose ≡ s.compose)
      × ((receive_data (saved_files s d) s).env_content ≡ s.env_content)
      × (is_dirty (receive_data (saved_files s d) s) ≡ false)
unfolding receive_data is_dirty
receive_data-saved_files d s [] h =
    rw (h, text_eq_self s.compose, text_eq_self []) (refl, refl, refl)
receive_data-saved_files d s (c ∷ cs) h =
    rw (h, text_eq_self s.compose, text_eq_self (c ∷ cs)) (refl, refl, refl)
