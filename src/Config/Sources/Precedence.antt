-- ===== src/Config/Sources/Precedence.antt =====
-- Which source a setting is taken from.
use pg_monitor.Prelude.{
  ◌≡◌, refl, sym, ap, ◌∙◌, Option, none, some, Bool-cases, inl, inr, List, [], ◌∷◌, if◌then◌else◌,
}
use pg_monitor.Prelude.Eq.{ℕ_eq, List_eq, ◌=?◌}
use pg_monitor.Prelude.Dict.{Dict, get, get-put}
use pg_monitor.Prelude.Text.{Text}
use pg_monitor.Config.Sources.{
  Environ, Files, Casing, field_name, put_field, add_dotenv, add_environ,
  build_settings_init_values,
}

abbrev pub or_else : Option Text → Option Text → Option Text
or_else (some value) other = some value
or_else none other = other

abbrev sets : Text → Option Text → Option Text → Option Text
sets name (some field) value = if field =? name then value else none
sets name none value = none

module _ ⦃c : Casing⦄ where
  -- The last value that a list of variables gives a field.
  abbrev pub last_set : List (Text × Option Text) → Text → Option Text
  last_set [] name = none
  last_set ((key, value) ∷ rest) name =
      or_else (last_set rest name) (sets name (field_name key) value)

  abbrev pub last_in : Environ → Text → Option Text
  last_in [] name = none
  last_in ((key, value) ∷ rest) name =
      or_else (last_in rest name) (sets name (field_name key) (some value))

  or_else_assoc : (a b d : Option Text) → or_else (or_else a b) d ≡ or_else a (or_else b d)
  or_else_assoc none b d = refl
  or_else_assoc (some x) b d = refl

  get-put_field :
      (field : Option Text) (value name : Text) (values : Dict Text Text)
      → get (put_field field value values) name
        ≡ or_else (sets name field (some value)) (get values name)
  unfolding put_field
  get-put_field none value name values = refl
  get-put_field (some field) value name values = elim (Bool-cases (field =? name)) [
    | inl t ↦ get-put values field name value ∙ rw t
    | inr f ↦ get-put values field name value ∙ rw f
  ]

  or_else-none : (a : Option Text) → or_else a none ≡ a
  or_else-none none = refl
  or_else-none (some x) = refl

  get-add_environ :
      (environ : Environ) (values : Dict Text Text) (name : Text)
      → get (add_environ environ values) name ≡ or_else (last_in environ name) (get values name)
  unfolding add_environ
  get-add_environ [] values name = refl
  get-add_environ ((key, value) ∷ rest) values name =
      get-add_environ rest (put_field (field_name key) value values) name
      ∙ ap (or_else (last_in rest name)) (get-put_field (field_name key) value name values)
      ∙ sym (or_else_assoc (last_in rest name) _ _)

  sets-none : (name : Text) (field : Option Text) → sets name field none ≡ none
  sets-none name none = refl
  sets-none name (some field) = elim (Bool-cases (field =? name)) [ inl t ↦ rw t | inr f ↦ rw f ]

  get-add_dotenv :
      (entries : List (Text × Option Text)) (values : Dict Text Text) (name : Text)
      → get (add_dotenv entries values) name ≡ or_else (last_set entries name) (get values name)
  unfolding add_dotenv
  get-add_dotenv [] values name = refl
  get-add_dotenv ((key, none) ∷ rest) values name =
      get-add_dotenv rest values name
      ∙ ap (λ o. or_else o (get values name))
          (sym (or_else-none _)
            ∙ ap (or_else (last_set rest name)) (sym (sets-none name (field_name key))))
  get-add_dotenv ((key, some value) ∷ rest) values name =
      get-add_dotenv rest (put_field (field_name key) value values) name
      ∙ ap (or_else (last_set rest name)) (get-put_field (field_name key) value name values)
      ∙ sym (or_else_assoc (last_set rest name) _ _)

  -- A setting has the last value that the environment gives it, if it gives one; otherwise the last that the .env
  -- file gives it, if the file exists; otherwise none.
  pub build_settings_init_values-precedence :
      (files : Files) (dotenv_file : Text) (environ : Environ) (name : Text)
      → get (build_settings_init_values files dotenv_file environ) name
        ≡ or_else (last_in environ name) (
            if files.exists dotenv_file
            then last_set (files.dotenv_values dotenv_file) name
            else none)
  unfolding build_settings_init_values get
  build_settings_init_values-precedence files dotenv_file environ name =
      elim (Bool-cases (files.exists dotenv_file)) [
        | inl t ↦ rw t (
            get-add_environ environ (add_dotenv (files.dotenv_values dotenv_file) []) name
            ∙ ap (or_else (last_in environ name))
                (get-add_dotenv (files.dotenv_values dotenv_file) [] name ∙ or_else-none _))
        | inr f ↦ rw f (get-add_environ environ [] name)
      ]
