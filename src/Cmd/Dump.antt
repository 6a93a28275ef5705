-- ===== src/Cmd/Dump.antt =====
-- cmd/dumpDefaultCfgCmd.go: what `dump-cfg` leaves is read back as the default configuration.
use covenant_signer.Prelude.{◌≡◌, subst, ◌∙◌, true, Option, some}
use covenant_signer.Go.Text.{GoString, Bytes}
use covenant_signer.Go.Outcome.{ok, answer}
use covenant_signer.Go.Exec.{bind_rule, Fails, Fails-ne-ok}
use covenant_signer.Config.{default_config}
use covenant_signer.Config.Default.{default_config-IsPrintable}
use covenant_signer.Config.Files.{FileSystem, write_config_to_file}
use covenant_signer.Config.Files.Writes.{FileLaws, write_config_to_file_reads}
use covenant_signer.Config.Template.Reader.{read_config}
use covenant_signer.Cmd.{Shell, dump_cfg, config_path_key}

module _ {W : Type 0} (shell : Shell W) (fs : FileSystem W) (at : GoString → W → Option Bytes)
    (laws : FileLaws fs at)
    (print_keeps : (text p : GoString) (w : W) → at p (shell.print text w) ≡ at p w) where
  -- The file at a path holds the default configuration.
  abbrev pub HoldsDefault : GoString → W → Type 0
  HoldsDefault path w = (b : Bytes) × (at path w ≡ some b) × (read_config b ≡ some default_config)

  printed-HoldsDefault :
      (path text : GoString) (w : W) → HoldsDefault path w → HoldsDefault path (shell.print text w)
  printed-HoldsDefault path text w (b, there, reads) = (b, print_keeps text path w ∙ there, reads)

  -- If `dump-cfg` succeeds for a path where nothing is, the file there is read as the default
  -- configuration.
  pub dump_cfg-HoldsDefault :
      (path : GoString) (w : W)
      → shell.get_string config_path_key ≡ answer path
      → (fs.is_not_exist path w).0 ≡ true
      → (dump_cfg shell fs w).0 ≡ ok tt
      → HoldsDefault path (dump_cfg shell fs w).1
  unfolding dump_cfg
  dump_cfg-HoldsDefault path w given missing = rw given (
      bind_rule (λ x. x.0 ≡ ok tt → HoldsDefault path x.1)
        (write_config_to_file fs path default_config) _ w
        (λ r f h. absurd (Fails-ne-ok _ tt (subst (Fails _) h f)))
        λ _ wrote h. printed-HoldsDefault path _ _ (
          write_config_to_file_reads fs at laws path default_config w default_config-IsPrintable
            missing wrote))
