-- ===== src/Tests/Files.antt =====
-- Runs of the settings' files on a file system that is a function from paths to contents.
use covenant_signer.Prelude.{
  ◌≡◌, ◌↔◌, refl, true, false, Bool, none, some, Option, [], ◌∷◌, arith, bytes_equal,
  bytes_equal_iff, if◌then◌else◌, subst, Bool-cases, inl, inr,
}
use covenant_signer.Go.Text.{GoString, Bytes}
use covenant_signer.Go.Outcome.{ok, answer}
use covenant_signer.Config
use covenant_signer.Config.{Config, default_config}
use covenant_signer.Config.Default.{default_config-IsPrintable, default_parsed}
use covenant_signer.Config.Files.{FileSystem, write_config_to_file}
use covenant_signer.Config.Files.Writes.{
  FileLaws, write_config_to_file_keeps, write_config_to_file_reads,
}
use covenant_signer.Config.Laws.{IsParsed, config_parse_iff}
use covenant_signer.Config.Template.Reader.{read_config}
use covenant_signer.Cmd.{Shell, dump_cfg}
use covenant_signer.Cmd.Dump.{HoldsDefault, dump_cfg-HoldsDefault}

abbrev Files : Type 0
Files = GoString → Option Bytes

abbrev is_none : Option Bytes → Bool
is_none none = true
is_none (some b) = false

abbrev put : GoString → Bytes → Files → Files
put path b w p = if bytes_equal p path then some b else w p

abbrev toy_fs : FileSystem Files
toy_fs = record {
  is_not_exist = λ path w. (is_none (w path), w);
  mkdir_all = λ dir mode w. (answer tt, w);
  write_file = λ path b mode w. (answer tt, put path b w);
  split = λ path. ([], path);
}

abbrev content : GoString → Files → Option Bytes
content path w = w path

is_none_lem : (o : Option Bytes) → is_none o ≡ true → o ≡ none
is_none_lem none h = refl
is_none_lem (some b) h = cc

put-kept :
    (path p : GoString) (new b : Bytes) (w : Files)
    → w path ≡ none
    → w p ≡ some b
    → put path new w p ≡ some b
put-kept path p new b w free h = elim (Bool-cases (bytes_equal p path)) [
  | inl same ↦
      let there : w path ≡ some b = subst (λ q. w q ≡ some b) ((bytes_equal_iff p path).0 same) h in
      cc
  | inr other ↦ rw other h
]

put-same : (path : GoString) (b : Bytes) (w : Files) → put path b w path ≡ some b
put-same path b w = rw ((bytes_equal_iff path path).1 refl) refl

toy_fs_laws : FileLaws toy_fs content
toy_fs_laws = record {
  stat_keeps = λ path p w. refl;
  missing = λ path w h. is_none_lem (w path) h;
  mkdir_keeps = λ dir mode p w b h. h;
  write_keeps = λ path new mode p w b free h. put-kept path p new b w free h;
  writes = λ path b mode w h. put-same path b w;
}

abbrev empty : Files
empty p = none

abbrev path_a : GoString
path_a = b'a' ∷ []

abbrev one_file : Files
one_file = put path_a (7 ∷ []) empty

wrote : (write_config_to_file toy_fs path_a default_config empty).0 ≡ ok tt
unfolding write_config_to_file
wrote = refl

write_config_to_file_reads_example :
    (b : Bytes) × (content path_a (write_config_to_file toy_fs path_a default_config empty).1
      ≡ some b)
    × (read_config b ≡ some default_config)
write_config_to_file_reads_example =
    write_config_to_file_reads toy_fs content toy_fs_laws path_a default_config empty
      default_config-IsPrintable refl wrote

-- A file that is there stays, though the default configuration is to be written to its path.
write_config_to_file_keeps_example :
    content path_a (write_config_to_file toy_fs path_a default_config one_file).1 ≡ some (7 ∷ [])
unfolding bytes_equal
write_config_to_file_keeps_example =
    write_config_to_file_keeps toy_fs content toy_fs_laws path_a (λ w free. free) default_config
      one_file path_a (7 ∷ []) (put-same path_a (7 ∷ []) empty)

abbrev toy_shell : Shell Files
toy_shell = record {
  get_string = λ key. answer path_a;
  global_param_path = [];
  print = λ text w. w;
  app_data_dir = λ name roaming. [];
  join = λ dir name. name;
}

dumped : (dump_cfg toy_shell toy_fs empty).0 ≡ ok tt
unfolding dump_cfg write_config_to_file
dumped = refl

dump_cfg-HoldsDefault_example :
    HoldsDefault toy_shell toy_fs content toy_fs_laws
      (λ text p w. refl)
      path_a
      (dump_cfg toy_shell toy_fs empty).1
dump_cfg-HoldsDefault_example =
    dump_cfg-HoldsDefault toy_shell toy_fs content toy_fs_laws (λ text p w. refl) path_a empty refl
      refl dumped

config_parse_iff_example :
    (Config.parse (λ text. true) default_config ≡ ok default_parsed)
    ↔ IsParsed (λ text. true) default_config default_parsed
unfolding default_config
config_parse_iff_example =
    config_parse_iff (λ text. true) default_config default_parsed
      (record {
        write_timeout = omega arith;
        read_timeout = omega arith;
        idle_timeout = omega arith;
      })
