-- ===== src/Config/Files/Writes.antt =====
-- What `WriteConfigToFile` does to the files.
use covenant_signer.Prelude.{ℕ, ◌≡◌, subst, ◌∙◌, inl, inr, true, Option, none, some, Bool-cases}
use covenant_signer.Go.Text.{GoString, Bytes, str}
use covenant_signer.Go.Outcome.{ok, answer, or_fail-eq-ok}
use covenant_signer.Go.Exec.{Fails, Fails-ne-ok, bind_rule, call_or}
use covenant_signer.Config.{Config}
use covenant_signer.Config.Template.{render}
use covenant_signer.Config.Template.Reader.{read_config}
use covenant_signer.Config.Template.RoundTrip.{IsPrintable, read_config-render}
use covenant_signer.Config.Files.{
  FileSystem, error_v, folder_permissions, file_permissions, write_rendered, create_config,
  write_config_to_file,
}

-- What `os` documents of its functions, for the content `at path w` of the file at a path in a
-- world, if there is one: to ask changes nothing, nothing is at a path that is reported missing, a
-- new directory changes no file that is there, and a write to a path where nothing is changes no
-- file that is there. A write that succeeds leaves what was written. Two paths may name one file.
pub record FileLaws {W : Type 0} (fs : FileSystem W) (at : GoString → W → Option Bytes)
    : Type 0 where
  pub stat_keeps : (path p : GoString) (w : W) → at p (fs.is_not_exist path w).1 ≡ at p w
  pub missing : (path : GoString) (w : W) → (fs.is_not_exist path w).0 ≡ true → at path w ≡ none
  pub mkdir_keeps :
      (dir : GoString) (mode : ℕ) (p : GoString) (w : W) (b : Bytes)
      → at p w ≡ some b
      → at p (fs.mkdir_all dir mode w).1 ≡ some b
  pub write_keeps :
      (path : GoString) (new : Bytes) (mode : ℕ) (p : GoString) (w : W) (b : Bytes)
      → at path w ≡ none
      → at p w ≡ some b
      → at p (fs.write_file path new mode w).1 ≡ some b
  pub writes :
      (path : GoString) (b : Bytes) (mode : ℕ) (w : W)
      → (fs.write_file path b mode w).0 ≡ answer tt
      → at path (fs.write_file path b mode w).1 ≡ some b

module _ {W : Type 0} (fs : FileSystem W) (at : GoString → W → Option Bytes)
    (laws : FileLaws fs at) where
  create_config-writes :
      (path : GoString) (config : Config) (w : W)
      → (create_config fs path config w).0 ≡ ok tt
      → at path (create_config fs path config w).1 ≡ some (render config)
  unfolding create_config write_rendered
  create_config-writes path config w =
      bind_rule (λ x. x.0 ≡ ok tt → at path x.1 ≡ some (render config))
        (call_or (error_v (str "couldn't make config: "))
          (fs.mkdir_all (fs.split path).0 folder_permissions))
        _ w (λ r f h. absurd (Fails-ne-ok _ tt (subst (Fails _) h f)))
        λ _ made h.
          laws.writes path (render config) file_permissions _
            (or_fail-eq-ok (error_v (str "could config to the file: ")) _ h)

  -- Let no text of the settings have a quote, a backslash or a newline. When writing them to a
  -- path where nothing is succeeds, a reader of sections and keys finds the same settings in the
  -- file.
  pub write_config_to_file_reads :
      (path : GoString) (config : Config) (w : W)
      → IsPrintable config
      → (fs.is_not_exist path w).0 ≡ true
      → (write_config_to_file fs path config w).0 ≡ ok tt
      → (b : Bytes) × (at path (write_config_to_file fs path config w).1 ≡ some b)
        × (read_config b ≡ some config)
  unfolding write_config_to_file
  write_config_to_file_reads path config w printable missing h =
      let wrote = rw missing at h in
      (
        render config,
        rw missing (create_config-writes path config _ wrote),
        read_config-render config printable,
      )

  -- Making the directory of the path does not make a file of it, as it can for a path that leads
  -- through a missing directory and back up.
  module _ (path : GoString)
      (new_directory : (w : W)
        → at path w ≡ none
        → at path (fs.mkdir_all (fs.split path).0 folder_permissions w).1 ≡ none) where
    create_config-keeps :
        (config : Config) (w : W) (p : GoString) (b : Bytes)
        → at path w ≡ none
        → at p w ≡ some b
        → at p (create_config fs path config w).1 ≡ some b
    unfolding create_config write_rendered
    create_config-keeps config w p b missing h =
        bind_rule (λ x. at p x.1 ≡ some b)
          (call_or (error_v (str "couldn't make config: "))
            (fs.mkdir_all (fs.split path).0 folder_permissions))
          _ w (λ r f. laws.mkdir_keeps _ _ p w b h)
          λ _ made.
            laws.write_keeps path _ _ p _ b (new_directory w missing) (laws.mkdir_keeps _ _ p w b h)

    -- If making the directory of its path does not make a file of the path, `WriteConfigToFile`
    -- leaves every file that is there as it is, also one at its path, and whether it succeeds or
    -- fails.
    pub write_config_to_file_keeps :
        (config : Config) (w : W) (p : GoString) (b : Bytes)
        → at p w ≡ some b
        → at p (write_config_to_file fs path config w).1 ≡ some b
    unfolding write_config_to_file
    write_config_to_file_keeps config w p b there = elim (Bool-cases (fs.is_not_exist path w).0) [
      | inl missing ↦ rw missing (
          create_config-keeps config _ p b
            (laws.stat_keeps path path w ∙ laws.missing path w missing)
            (laws.stat_keeps path p w ∙ there))
      | inr there_already ↦ rw there_already (laws.stat_keeps path p w ∙ there)
    ]
