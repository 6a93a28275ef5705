-- ===== src/Cmd/Root.antt =====
-- main.go, cmd/root.go and the commands that cmd/*.go add to the root. cobra is a parameter.
use covenant_signer.Prelude.{
  ◌≡◌, refl, ap, Option, none, some, List, [], ◌∷◌, ◌++◌, bytes_equal, if◌then◌else◌,
}
use covenant_signer.Go.Text.{GoString, str}
use covenant_signer.Go.Outcome.{Outcome, ok, err, panicked}
use covenant_signer.Go.Exec.{Exec}
use covenant_signer.Btc.{Btc}
use covenant_signer.Cmd.{Flag, persistent_flags, dump_cfg, Parts, run_signer}

-- The fields of `cobra.Command` that the program sets
pub record Command (W : Type 0) : Type 0 where
  pub name : GoString
  pub short : GoString
  pub run_e : Exec W (Unit {0})

pub record RootCommand (W : Type 0) : Type 0 where
  pub name : GoString
  pub short : GoString
  pub flags : List Flag
  pub commands : List (Command W)

unfoldable pub add_command : {W : Type 0} → Command W → RootCommand W → RootCommand W
add_command c root = record root { commands = root.commands ++ c ∷ [] }

-- `Execute` of the root, for the arguments of the process
abbrev pub Cobra : Type 0 → Type 0
Cobra W = List GoString → RootCommand W → Exec W (Unit {0})

-- `_ = cmd.Execute()`: an error is dropped, a panic is not.
abbrev pub dropped : Outcome (Unit {0}) → Outcome (Unit {0})
dropped (ok u) = ok tt
dropped (err e) = ok tt
dropped (panicked t) = panicked t

module _ {btc : Btc} {W : Type 0} (parts : Parts btc W) where
  unfoldable pub dump_cfg_cmd : Command W
  unfolding dump_cfg
  dump_cfg_cmd = record {
    name = str "dump-cfg";
    short = str "dumps default confiiguration file";
    run_e = dump_cfg parts.shell parts.fs;
  }

  unfoldable pub run_signer_cmd : Command W
  unfolding run_signer
  run_signer_cmd = record {
    name = str "start";
    short = str "starts the signer service";
    run_e = run_signer parts;
  }

  -- Before the functions `init`
  unfoldable pub bare_root : RootCommand W
  bare_root = record {
    name = str "covenant-signer";
    short = str "remote signing serivce to perform covenant duties";
    flags = [];
    commands = [];
  }

  -- The functions `init`, in the order of the files
  unfoldable pub root_cmd : RootCommand W
  unfolding bare_root add_command dump_cfg_cmd run_signer_cmd persistent_flags
  root_cmd =
      add_command run_signer_cmd
        (record (add_command dump_cfg_cmd bare_root) { flags = persistent_flags parts.shell })

  module _ (cobra : Cobra W) (args : List GoString) where
    unfoldable pub execute : Exec W (Unit {0})
    unfolding root_cmd
    execute = cobra args root_cmd

    unfoldable pub main : Exec W (Unit {0})
    unfolding execute
    main w = let (r, w') = execute w in (dropped r, w')

-- The command of a name
unfoldable pub named : {W : Type 0} → GoString → List (Command W) → Option (Command W)
named name [] = none
named name (c ∷ cs) = if bytes_equal c.name name then some c else named name cs

-- What cobra documents: with the name of a command as the only argument it runs the command and
-- returns its error, of which it tells.
pub record CobraLaws {W : Type 0} (cobra : Cobra W) : Type 0 where
  pub shown : Outcome (Unit {0}) → W → W
  pub runs :
      (root : RootCommand W) (name : GoString) (c : Command W) (w : W)
      → named name root.commands ≡ some c
      → cobra (name ∷ []) root w ≡ ((c.run_e w).0, shown (c.run_e w).0 (c.run_e w).1)

module _ {btc : Btc} {W : Type 0} (parts : Parts btc W) (cobra : Cobra W)
    (laws : CobraLaws cobra) where
  -- The process with one argument
  abbrev pub Runs : GoString → Exec W (Unit {0}) → W → Type 0
  Runs name command w =
      main parts cobra (name ∷ []) w
      ≡ (dropped (command w).0, laws.shown (command w).0 (command w).1)

  -- Under the laws of cobra, the process with the argument `start` runs the service, and with
  -- `dump-cfg` the command that writes the settings; it panics as these do, and drops an error
  -- of these, so that it ends as after a success.
  pub main-Runs :
      (w : W)
      → Runs (str "start") (run_signer parts) w
        × Runs (str "dump-cfg") (dump_cfg parts.shell parts.fs) w
  unfolding main named str bytes_equal
  main-Runs w =
      let ran = laws.runs (root_cmd parts) (str "start") (run_signer_cmd parts) w refl in
      let dumped = laws.runs (root_cmd parts) (str "dump-cfg") (dump_cfg_cmd parts) w refl in
      (ap (λ x. (dropped x.0, x.1)) ran, ap (λ x. (dropped x.0, x.1)) dumped)
