-- ===== src/Config/Files.antt =====
-- The file operations of config/config.go. The file system, `filepath.Split` and viper are
-- parameters, over a world `W`.
pub mod Writes
use covenant_signer.Prelude.{ℕ, Bool, false, [], ◌∷◌, ◌++◌, ◌==◌, ◌||◌, ◌&&◌, not, if◌then◌else◌}
use covenant_signer.Go.Text.{GoString, Bytes, str}
use covenant_signer.Go.Outcome.{GoError, new, message, ok, or_err, Reply}
use covenant_signer.Go.Exec.{Exec, Call, call, call_or, lift, ◌>>=◌, ◌>>◌}
use covenant_signer.Config.{Config, default_config}
use covenant_signer.Config.Template.{render}

pub record FileSystem (W : Type 0) : Type 0 where
  -- `os.Stat` with `os.IsNotExist` of its error
  pub is_not_exist : GoString → W → Bool × W
  -- `os.MkdirAll` and `os.WriteFile` with their permissions
  pub mkdir_all : GoString → ℕ → Call W (Unit {0})
  pub write_file : GoString → Bytes → ℕ → Call W (Unit {0})
  -- `filepath.Split`: the directory and the file
  pub split : GoString → GoString × GoString

-- viper: `ReadInConfig` with the path, the name and the type that were set, and `Unmarshal` into a
-- configuration, whose fields stay where the file has none.
pub record Viper (W : Type 0) : Type 1 where
  pub Settings : Type 0
  pub read_in_config : GoString → GoString → GoString → Call W Settings
  pub unmarshal : Settings → Config → Reply Config

-- `folderPermissions`, 0750, and the 0600 of the file
abbrev pub folder_permissions : ℕ
folder_permissions = 0o750

abbrev pub file_permissions : ℕ
file_permissions = 0o600

-- `fmt.Errorf("…: %v", err)`, which does not wrap
unfoldable pub error_v : GoString → GoError → GoError
unfolding message
error_v text e = new (text ++ message e)

module _ {W : Type 0} (fs : FileSystem W) where
  -- `writeConfigToFile`. The template does not fail: its fields are those of the configuration.
  unfoldable pub write_rendered : GoString → Config → Call W (Unit {0})
  write_rendered path config = fs.write_file path (render config) file_permissions

  -- The branch for a path where nothing is
  unfoldable pub create_config : GoString → Config → Exec W (Unit {0})
  unfolding write_rendered
  create_config path config = do
    call_or (error_v (str "couldn't make config: "))
        (fs.mkdir_all (fs.split path).0 folder_permissions)
    call_or (error_v (str "could config to the file: ")) (write_rendered path config)

  -- `WriteConfigToFile`
  unfoldable pub write_config_to_file : GoString → Config → Exec W (Unit {0})
  unfolding create_config
  write_config_to_file path config w =
      let (missing, w') = fs.is_not_exist path w in
      if missing then create_config path config w' else (ok tt, w')

unfoldable pub has_slash : GoString → Bool
has_slash [] = false
has_slash (c ∷ s) = c == b'/' || has_slash s

-- `filepath.Ext(s) != ""`: a dot stands behind the last slash.
unfoldable pub has_extension : GoString → Bool
unfolding has_slash
has_extension [] = false
has_extension (c ∷ s) = has_extension s || c == b'.' && not (has_slash s)

-- `strings.TrimSuffix(s, filepath.Ext(s))`: the text in front of the last such dot.
unfoldable pub file_name_without_extension : GoString → GoString
unfolding has_extension
file_name_without_extension [] = []
file_name_without_extension (c ∷ s) =
    let rest = c ∷ file_name_without_extension s in
    if has_extension s then rest else if c == b'.' && not (has_slash s) then [] else c ∷ s

-- `GetConfig`
unfoldable pub get_config : {W : Type 0} → FileSystem W → Viper W → GoString → Exec W Config
unfolding file_name_without_extension
get_config fs viper path = do
  let (dir, file) = fs.split path
  settings ← call (viper.read_in_config dir (file_name_without_extension file) (str "toml"))
  lift (or_err (viper.unmarshal settings default_config))
