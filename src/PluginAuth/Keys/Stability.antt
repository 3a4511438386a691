-- ===== src/PluginAuth/Keys/Stability.antt =====
-- Registration is key-stable: a readable key is never replaced.
use nomothetic.Base.{
  ◌≡◌, ◌⊎◌, is_ok, refl, ap, ◌∙◌, sym, Bool, true, false, Option, none, some, List, [], ◌∷◌, arith,
  Result, ok, raised, inl, inr, Bool-cases,
}
use nomothetic.Base.Text.{Text, text_eq, text_eq_iff, text_eq_refl}
use nomothetic.Base.Dict
use nomothetic.Base.Dict.{get-put}
use nomothetic.PluginAuth.Names.{PluginAuthError, validate_plugin_name}
use nomothetic.PluginAuth.Keys.{
  KeyLibrary, readable, Directory, Loaded, ed25519, unparseable, unsupported, other_kind,
  registered, exists, path_of, contents, read_pem, write_pem, parse_pem, get_public_key, register,
}

-- A request to register: the plugin, the PEM text, and whether the disk takes the write.
pub record Request : Type 0 where
  pub plugin : Text
  pub pem : Text
  pub writes : Bool

module _ {Key : Type 0} (library : KeyLibrary Key) where
  open library use {raw_pub, load_pem_public_key}

  -- The key in a file of the directory.
  abbrev key_at : Directory → Text → Result PluginAuthError (Option Key)
  key_at dir path = parse_pem library (contents (Dict.get dir path))

  found-cases :
      (found : Result PluginAuthError (Option Key))
      → ((e : PluginAuthError) × (found ≡ raised e))
        ⊎ ((found ≡ ok none) ⊎ ((key : Key) × (found ≡ ok (some key))))
  found-cases (raised e) = inl (e, refl)
  found-cases (ok none) = inr (inl refl)
  found-cases (ok (some key)) = inr (inr (key, refl))

  validate_cases :
      (plugin : Text)
      → (validate_plugin_name plugin ≡ ok plugin)
        ⊎ (validate_plugin_name plugin ≡ raised PluginAuthError.invalid_plugin_name)
  unfolding validate_plugin_name
  validate_cases plugin = ground arith

  get_public_key-valid :
      (plugin : Text) (dir : Directory)
      → validate_plugin_name plugin ≡ ok plugin
      → get_public_key library plugin dir ≡ key_at dir (path_of plugin)
  unfolding get_public_key read_pem
  get_public_key-valid plugin dir h = rw h

  get_public_key-invalid :
      (plugin : Text) (dir : Directory)
      → validate_plugin_name plugin ≡ raised PluginAuthError.invalid_plugin_name
      → get_public_key library plugin dir ≡ raised PluginAuthError.invalid_plugin_name
  unfolding get_public_key read_pem
  get_public_key-invalid plugin dir h = rw h

  -- What a registration writes: nothing, or the offered key where no key was readable.
  record Writes (plugin pem : Text) (new : Key) (dir after : Directory) : Type 0 where
    valid : validate_plugin_name plugin ≡ ok plugin
    loaded : load_pem_public_key pem ≡ ed25519 new
    absent : key_at dir (path_of plugin) ≡ ok none
    written : after ≡ Dict.put dir (path_of plugin) (readable pem)

  -- The answers of `register`, for a key that the library reads.
  register_cases :
      (plugin pem : Text) (writes : Bool) (new : Key) (dir : Directory)
      → load_pem_public_key pem ≡ ed25519 new
      → ((register library plugin pem writes dir).1 ≡ dir)
        ⊎ Writes plugin pem new dir (register library plugin pem writes dir).1
  unfolding register write_pem
  register_cases plugin pem writes new dir loaded = elim (validate_cases plugin) [
    | inr bad ↦ inl (rw loaded (ground (arith, get_public_key-invalid plugin dir bad)))
    | inl good ↦ elim (found-cases (key_at dir (path_of plugin))) [
      | inl (e, unknown) ↦
          inl (rw loaded (ground (arith, get_public_key-valid plugin dir good, unknown)))
      | inr (inr (old, held)) ↦
          inl (rw loaded (ground (arith, get_public_key-valid plugin dir good, held)))
      | inr (inl absent) ↦ elim (Bool-cases writes) [
        | inr fails ↦
            inl (
              rw loaded (ground (arith, get_public_key-valid plugin dir good, absent, good, fails)))
        | inl works ↦ inr (record {
          valid = good;
          loaded = loaded;
          absent = absent;
          written =
              rw loaded (ground (arith, get_public_key-valid plugin dir good, absent, good, works));
        })
      ]
    ]
  ]

  Loaded-cases :
      (l : Loaded Key)
      → ((l ≡ unparseable) ⊎ ((l ≡ other_kind) ⊎ (l ≡ unsupported)))
        ⊎ ((key : Key) × (l ≡ ed25519 key))
  Loaded-cases unparseable = inl (inl refl)
  Loaded-cases other_kind = inl (inr (inl refl))
  Loaded-cases unsupported = inl (inr (inr refl))
  Loaded-cases (ed25519 key) = inr (key, refl)

  -- A file that holds a key holds the same key after any registration.
  key_at-register :
      (plugin pem path : Text) (writes : Bool) (key : Key) (dir : Directory)
      → key_at dir path ≡ ok (some key)
      → key_at (register library plugin pem writes dir).1 path ≡ ok (some key)
  key_at-register plugin pem path writes key dir h = elim (Loaded-cases (load_pem_public_key pem)) [
    | inl (inl bad) ↦ unfold register in rw bad h
    | inl (inr (inl bad)) ↦ unfold register in rw bad h
    | inl (inr (inr bad)) ↦ unfold register in rw bad h
    | inr (new, loaded) ↦ elim (register_cases plugin pem writes new dir loaded) [
      | inl same ↦ rw same h
      | inr w ↦ elim (Bool-cases (text_eq (path_of plugin) path)) [
        | inl clash ↦
            let e : path_of plugin ≡ path = (text_eq_iff (path_of plugin) path).0 clash in
            absurd (none-ne-some (sym w.absent ∙ ap (key_at dir) e ∙ h))
        | inr other ↦ rw w.written (simp (get-put, other) h)
      ]
    ]
  ]
    where
      none-ne-some : ◌≡◌ {A = Result PluginAuthError (Option Key)} (ok none) (ok (some key)) → ⊥
      none-ne-some e = cc

  -- A series of registrations, with whatever answers.
  unfoldable pub register_all : List Request → Directory → Directory
  register_all [] dir = dir
  register_all (r ∷ rest) dir = register_all rest (register library r.plugin r.pem r.writes dir).1

  key_at-register_all :
      (requests : List Request) (path : Text) (key : Key) (dir : Directory)
      → key_at dir path ≡ ok (some key)
      → key_at (register_all requests dir) path ≡ ok (some key)
  unfolding register_all
  key_at-register_all [] path key dir h = h
  key_at-register_all (r ∷ rest) path key dir h =
      key_at-register_all rest path key _ (key_at-register r.plugin r.pem path r.writes key dir h)

  -- Once a plugin's key can be read, no series of registrations, for this plugin or others, with
  -- this key or others, changes the key that the store returns for it.
  pub get_public_key-register_all :
      (plugin : Text) (key : Key) (requests : List Request) (dir : Directory)
      → get_public_key library plugin dir ≡ ok (some key)
      → get_public_key library plugin (register_all requests dir) ≡ ok (some key)
  get_public_key-register_all plugin key requests dir h = elim (validate_cases plugin) [
    | inr bad ↦ absurd (ground (arith, get_public_key-invalid plugin dir bad))
    | inl good ↦
        let held : key_at dir (path_of plugin) ≡ ok (some key) =
          ground (arith, get_public_key-valid plugin dir good) in
        get_public_key-valid plugin _ good
        ∙ key_at-register_all requests (path_of plugin) key dir held
  ]

  -- The effect of a registration whose PEM text is an Ed25519 key.
  abbrev Effect : (plugin pem : Text) (writes : Bool) (dir : Directory) → Type 0
  Effect plugin pem writes dir =
      ((register library plugin pem writes dir).1 ≡ dir)
        × (is_ok (register library plugin pem writes dir).0 ≡ false)
      ⊎ ((new stored : Key) × (is_ok (register library plugin pem writes dir).0 ≡ true)
          × (load_pem_public_key pem ≡ ed25519 new)
          × (get_public_key library plugin (register library plugin pem writes dir).1
              ≡ ok (some stored))
          × (raw_pub stored ≡ raw_pub new))

  module _ (plugin pem : Text) (writes : Bool) (new : Key) (dir : Directory)
      (loaded : load_pem_public_key pem ≡ ed25519 new)
      (good : validate_plugin_name plugin ≡ ok plugin) where
    Effect-of_held :
        (old : Key) → key_at dir (path_of plugin) ≡ ok (some old) → Effect plugin pem writes dir
    Effect-of_held old held =
        let known = get_public_key-valid plugin dir good ∙ held in
        elim (Bool-cases (text_eq (raw_pub old) (raw_pub new))) [
          | inl same ↦
              let result : register library plugin pem writes dir ≡ (ok exists, dir) =
                unfold register in rw loaded (ground (arith, known, same)) in
              inr (
                new,
                old,
                rw result,
                loaded,
                rw result known,
                (text_eq_iff (raw_pub old) (raw_pub new)).0 same,
              )
          | inr differ ↦
              let result : register library plugin pem writes dir
                  ≡ (raised PluginAuthError.key_conflict, dir) =
                unfold register in rw loaded (ground (arith, known, differ)) in
              inl (rw result (refl, refl))
        ]

    Effect-of_unknown :
        (e : PluginAuthError)
        → key_at dir (path_of plugin) ≡ raised e
        → Effect plugin pem writes dir
    Effect-of_unknown e unknown =
        let known = get_public_key-valid plugin dir good ∙ unknown in
        let result : register library plugin pem writes dir ≡ (raised e, dir) =
          unfold register in rw loaded (ground (arith, known)) in
        inl (rw result (refl, refl))

    Effect-of_absent : key_at dir (path_of plugin) ≡ ok none → Effect plugin pem writes dir
    Effect-of_absent absent =
        let known = get_public_key-valid plugin dir good ∙ absent in
        elim (Bool-cases writes) [
          | inl works ↦
              let after = Dict.put dir (path_of plugin) (readable pem) in
              let result : register library plugin pem writes dir ≡ (ok registered, after) =
                unfold register write_pem in rw loaded (ground (arith, known, good, works)) in
              let stored : key_at after (path_of plugin) ≡ ok (some new) =
                simp (get-put, text_eq_refl) (unfold parse_pem contents in rw loaded) in
              inr (
                new,
                new,
                rw result,
                loaded,
                rw result (get_public_key-valid plugin after good ∙ stored),
                refl,
              )
          | inr fails ↦
              let result : register library plugin pem writes dir
                  ≡ (raised PluginAuthError.os_error, dir) =
                unfold register write_pem in rw loaded (ground (arith, known, good, fails)) in
              inl (rw result (refl, refl))
        ]

  Effect-of_loaded :
      (plugin pem : Text) (writes : Bool) (new : Key) (dir : Directory)
      → load_pem_public_key pem ≡ ed25519 new
      → Effect plugin pem writes dir
  Effect-of_loaded plugin pem writes new dir loaded = elim (validate_cases plugin) [
    | inr bad ↦
        let result : register library plugin pem writes dir
            ≡ (raised PluginAuthError.invalid_plugin_name, dir) =
          unfold register in rw loaded (ground (arith, get_public_key-invalid plugin dir bad)) in
        inl (rw result (refl, refl))
    | inl good ↦ elim (found-cases (key_at dir (path_of plugin))) [
      | inr (inr (old, held)) ↦ Effect-of_held plugin pem writes new dir loaded good old held
      | inr (inl absent) ↦ Effect-of_absent plugin pem writes new dir loaded good absent
      | inl (e, unknown) ↦ Effect-of_unknown plugin pem writes new dir loaded good e unknown
    ]
  ]

  -- A registration that succeeds, new or not, leaves the plugin with a key whose raw bytes are
  -- those of the key that was offered; one that raises leaves every file as it was.
  pub register_effect :
      (plugin pem : Text) (writes : Bool) (dir : Directory)
      → ((register library plugin pem writes dir).1 ≡ dir)
          × (is_ok (register library plugin pem writes dir).0 ≡ false)
        ⊎ ((new stored : Key) × (is_ok (register library plugin pem writes dir).0 ≡ true)
            × (load_pem_public_key pem ≡ ed25519 new)
            × (get_public_key library plugin (register library plugin pem writes dir).1
                ≡ ok (some stored))
            × (raw_pub stored ≡ raw_pub new))
  register_effect plugin pem writes dir = elim (Loaded-cases (load_pem_public_key pem)) [
    | inl (inl bad) ↦ inl (unfold register in rw bad (refl, refl))
    | inl (inr (inl bad)) ↦ inl (unfold register in rw bad (refl, refl))
    | inl (inr (inr bad)) ↦ inl (unfold register in rw bad (refl, refl))
    | inr (new, loaded) ↦ Effect-of_loaded plugin pem writes new dir loaded
  ]
