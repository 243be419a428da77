-- ===== src/StackFiles/Dirty.antt =====
-- When the Save button is shown.
use dockstack.Prelude.{
  ◌≡◌, ◌↔◌, refl, false, Option, none, some, [], ◌∷◌, text_eq_iff, text_eq_self, Text, arith,
}
use dockstack.StackFiles.{
  StackFilesResponse, StackFiles, receive_data, synced_env, env_differs, is_dirty,
}

-- The .env file that arrived is there and not empty, or it is empty and so is the editor for it.
abbrev pub EnvSettles : Option Text → Option Text → Type 0
EnvSettles none env_content = ⊥
EnvSettles (some []) env_content = env_content ≡ some []
EnvSettles (some (c ∷ cs)) env_content = Unit {0}

env_differs-synced_env :
    (env env_content : Option Text)
    → (env_differs (synced_env env env_content) env ≡ false) ↔ EnvSettles env env_content
unfolding env_differs synced_env
env_differs-synced_env none none = ((λ h. cc), (λ h. elim h [ ]))
env_differs-synced_env none (some e) = ((λ h. cc), (λ h. elim h [ ]))
env_differs-synced_env (some []) none = ((λ h. cc), (λ h. cc))
env_differs-synced_env (some []) (some []) = ((λ h. refl), (λ h. rw (text_eq_self [])))
env_differs-synced_env (some []) (some (c ∷ cs)) = ground (arith, text_eq_iff (c ∷ cs) [])
env_differs-synced_env (some (c ∷ cs)) env_content = ((λ h. tt), (λ h. rw (text_eq_self (c ∷ cs))))

-- Right after new data has arrived the Save button is hidden exactly when the data has an .env file
-- that is not empty, or an empty one while the editor for it is empty: in particular a stack with no
-- .env file counts as edited as soon as it has loaded, whatever was done before.
pub is_dirty-receive_data :
    (d : StackFilesResponse) (s : StackFiles)
    → (is_dirty (receive_data d s) ≡ false) ↔ EnvSettles d.env s.env_content
unfolding is_dirty receive_data
is_dirty-receive_data d s = rw (text_eq_self d.compose) (env_differs-synced_env d.env s.env_content)
