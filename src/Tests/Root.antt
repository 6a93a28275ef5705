-- ===== src/Tests/Root.antt =====
-- The process with a cobra that takes one argument and prints nothing.
use covenant_signer.Prelude.{ℕ, refl, Option, none, some, [], ◌∷◌}
use covenant_signer.Go.Text.{str}
use covenant_signer.Go.Outcome.{err, new}
use covenant_signer.Go.Exec.{Exec}
use covenant_signer.Cmd.{dump_cfg, run_signer}
use covenant_signer.Cmd.Root.{Command, Cobra, CobraLaws, named, Runs, main-Runs}
use covenant_signer.Tests.Parts.{parts}

abbrev run : Option (Command ℕ) → Exec ℕ (Unit {0})
run (some c) w = c.run_e w
run none w = (err (new (str "unknown command")), w)

abbrev toy_cobra : Cobra ℕ
toy_cobra (name ∷ []) root = run (named name root.commands)
toy_cobra [] root = run none
toy_cobra (a ∷ b ∷ args) root = run none

toy_laws : CobraLaws toy_cobra
toy_laws = record { shown = λ r w. w; runs = λ root name c w found. rw found refl }

main-Runs_example :
    Runs parts toy_cobra toy_laws (str "start") (run_signer parts) 0
    × Runs parts toy_cobra toy_laws (str "dump-cfg") (dump_cfg parts.shell parts.fs) 0
main-Runs_example = main-Runs parts toy_cobra toy_laws 0
