-- ===== src/Logs/Json/Parsing.antt =====
-- What `parseJsonLog` keeps of a message.
use dockstack.Prelude.{
  ◌≡◌, ◌↔◌, refl, ap, Option, none, some, includes, text_eq, text_eq_iff, Text, if◌then◌else◌,
  Bool-cases, arith, inl, inr, ◌⊎◌, List, [], ◌∷◌, codes, ◌∙◌, sym,
}
use dockstack.Logs.Json.{
  Json, null, boolean, number, array, coalesce, string, object, Fields, end, field, get, text, json,
  message_of, level_of, consumed, rest_fields, with_message, parsed_value, parse_json_log,
}

-- The remaining fields of a JSON line are those of the object, but for the five that the row shows
-- in other ways or not at all.
get-rest_fields :
    (key : Text) (obj : Fields)
    → get key (rest_fields obj) ≡ (if includes key consumed then none else get key obj)
unfolding get rest_fields
get-rest_fields key end = ground arith
get-rest_fields key (field k v rest) = elim (Bool-cases (text_eq k key)) [
  | inl e ↦
      ground
        (arith, get-rest_fields key rest, ap (λ x. includes x consumed) ((text_eq_iff k key).0 e))
  | inr e ↦ ground (arith, get-rest_fields key rest)
]

-- The fields that can hold the message, by their precedence.
abbrev pub message_keys : List Text
message_keys = codes "msg" ∷ codes "message" ∷ codes "log" ∷ codes "text" ∷ []

-- Missing or null.
abbrev pub IsMissing : Option Json → Type 0
IsMissing none = Unit
IsMissing (some null) = Unit
IsMissing (some _) = ⊥

-- The first of the fields `keys` that is neither missing nor null is `v`.
abbrev pub IsFirst : Fields → List Text → Json → Type 0
IsFirst obj [] v = ⊥
IsFirst obj (key ∷ keys) v = (get key obj ≡ some v) ⊎ (IsMissing (get key obj) × IsFirst obj keys v)

coalesce_assoc : (a b c : Option Json) → coalesce (coalesce a b) c ≡ coalesce a (coalesce b c)
unfolding coalesce
coalesce_assoc none b c = refl
coalesce_assoc (some null) b c = refl
coalesce_assoc (some (boolean x)) b c = refl
coalesce_assoc (some (number x)) b c = refl
coalesce_assoc (some (string x)) b c = refl
coalesce_assoc (some (array x)) b c = refl
coalesce_assoc (some (object x)) b c = refl

given_iff : (P Q : Type 0) {R : Type 0} → (R → ⊥) → P ↔ (P ⊎ (R × Q))
given_iff P Q refuted =
    ((λ h. inl h), (λ c. elim c [ inl h ↦ h | inr (r, _) ↦ absurd (refuted r) ]))

coalesce_iff :
    (a b : Option Json) (t : Text)
    → (coalesce a b ≡ some (string t))
      ↔ ((a ≡ some (string t)) ⊎ (IsMissing a × (b ≡ some (string t))))
unfolding coalesce
coalesce_iff none b t = ((λ h. inr (tt, h)), (λ c. elim c [ inl e ↦ cc | inr (_, e) ↦ e ]))
coalesce_iff (some null) b t = ((λ h. inr (tt, h)), (λ c. elim c [ inl e ↦ cc | inr (_, e) ↦ e ]))
coalesce_iff (some (boolean x)) b t = given_iff _ _ (λ z. z)
coalesce_iff (some (number x)) b t = given_iff _ _ (λ z. z)
coalesce_iff (some (string x)) b t = given_iff _ _ (λ z. z)
coalesce_iff (some (array x)) b t = given_iff _ _ (λ z. z)
coalesce_iff (some (object x)) b t = given_iff _ _ (λ z. z)

message_of_iff :
    (obj : Fields) (t : Text)
    → (message_of obj ≡ some (string t)) ↔ IsFirst obj message_keys (string t)
unfolding message_of
message_of_iff obj t =
    let a = get (codes "msg") obj in
    let b = get (codes "message") obj in
    let c = get (codes "log") obj in
    let d = get (codes "text") obj in
    let same : coalesce (coalesce (coalesce a b) c) d ≡ coalesce a (coalesce b (coalesce c d)) =
      coalesce_assoc (coalesce a b) c d ∙ coalesce_assoc a b (coalesce c d) in
    rw same (
      ground (
        arith,
        coalesce_iff a (coalesce b (coalesce c d)) t,
        coalesce_iff b (coalesce c d) t,
        coalesce_iff c d t,
      ))

module _ (to_lower_case : Text → Text) where
  with_message_iff :
      (raw t : Text) (level : Option Text) (fields obj : Fields) (m : Option Json)
      → (with_message to_lower_case raw obj m ≡ json t level fields) ↔ (
          (m ≡ some (string t)) × (level_of to_lower_case obj ≡ level) × (rest_fields obj ≡ fields))
  unfolding with_message
  with_message_iff raw t level fields obj (some (string s)) = ground arith
  with_message_iff raw t level fields obj (some _) = ground arith
  with_message_iff raw t level fields obj none = ground arith

  -- The object that a line shown as JSON parsed to, with what is shown of it.
  pub record Shows (parsed : Option Json) (t : Text) (level : Option Text) (fields : Fields)
      : Type 0 where
    pub obj : Fields
    pub parses : parsed ≡ some (object obj)
    pub message : IsFirst obj message_keys (string t)
    pub level_is : level_of to_lower_case obj ≡ level
    pub fields_are : rest_fields obj ≡ fields

  parsed_value_iff :
      (raw t : Text) (level : Option Text) (fields : Fields) (parsed : Option Json)
      → (parsed_value to_lower_case raw parsed ≡ json t level fields) ↔ Shows parsed t level fields
  unfolding parsed_value
  parsed_value_iff raw t level fields (some (object obj)) =
      let (to, from) = with_message_iff raw t level fields obj (message_of obj) in
      (
        (λ h. record {
          obj = obj;
          parses = refl;
          message = (message_of_iff obj t).0 (to h).0;
          level_is = (to h).1;
          fields_are = (to h).2;
        }),
        (λ s.
            let same : s.obj ≡ obj = cc (s.parses) in
            from (
              ap message_of (sym same) ∙ (message_of_iff s.obj t).1 s.message,
              cc (same, s.level_is),
              cc (same, s.fields_are),
            )),
      )
  parsed_value_iff raw t level fields (some _) = ((λ h. cc), (λ s. cc (s.parses)))
  parsed_value_iff raw t level fields none = ((λ h. cc), (λ s. cc (s.parses)))

  -- A line is shown as JSON exactly when it parses to an object whose first field that is neither
  -- missing nor null among msg, message, log and text is a string: that string is the text, with
  -- the object's level and its remaining fields.
  pub parse_json_log_iff :
      (json_parse : Text → Option Json) (raw t : Text) (level : Option Text) (fields : Fields)
      → (parse_json_log to_lower_case json_parse raw ≡ json t level fields)
        ↔ Shows (json_parse raw) t level fields
  unfolding parse_json_log
  parse_json_log_iff json_parse raw t level fields =
      parsed_value_iff raw t level fields (json_parse raw)

  with_message_text :
      (raw t : Text) (obj : Fields) (m : Option Json)
      → with_message to_lower_case raw obj m ≡ text t
      → t ≡ raw
  unfolding with_message
  with_message_text raw t obj (some (string s)) h = cc
  with_message_text raw t obj (some _) h = cc
  with_message_text raw t obj none h = cc

  parsed_value_text :
      (raw t : Text) (parsed : Option Json)
      → parsed_value to_lower_case raw parsed ≡ text t
      → t ≡ raw
  unfolding parsed_value
  parsed_value_text raw t (some (object obj)) h = with_message_text raw t obj (message_of obj) h
  parsed_value_text raw t (some _) h = cc
  parsed_value_text raw t none h = cc

  -- Any other line is shown as it came.
  pub parse_json_log_text :
      (json_parse : Text → Option Json) (raw t : Text)
      → parse_json_log to_lower_case json_parse raw ≡ text t
      → t ≡ raw
  unfolding parse_json_log
  parse_json_log_text json_parse raw t h = parsed_value_text raw t (json_parse raw) h
