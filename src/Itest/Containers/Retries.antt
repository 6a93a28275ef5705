-- ===== src/Itest/Containers/Retries.antt =====
-- When `ExecCmd` cannot succeed any more.
use covenant_signer.Prelude.{
  ℕ, zero, suc, ◌≡◌, refl, Bool, true, false, some, List, [], ◌∷◌, ◌++◌, arith,
}
use covenant_signer.Go.Text.{GoString, str}
use covenant_signer.Go.Outcome.{ok, panicked, Reply, answer, failure}
use covenant_signer.Itest.Docker.{Docker, Buffers}
use covenant_signer.Itest.Testify.{eventually}
use covenant_signer.Itest.Containers.{
  Manager, has_rror, has_error, find, written, no_output, exec_options, checked, started, attempt,
  output, exec_cmd,
}

has_rror-append : (s t : GoString) → has_rror s ≡ true → has_rror (s ++ t) ≡ true
unfolding has_rror
has_rror-append (a ∷ b ∷ c ∷ d ∷ s) t h = h
has_rror-append (a ∷ b ∷ c ∷ []) t h = cc
has_rror-append (a ∷ b ∷ []) t h = cc
has_rror-append (a ∷ []) t h = cc
has_rror-append [] t h = cc

-- An error in a text stays when more is written.
pub has_error-append : (s t : GoString) → has_error s ≡ true → has_error (s ++ t) ≡ true
unfolding has_error
has_error-append [] t h = cc
has_error-append (c ∷ s) t h = ground (arith, has_rror-append s t, has_error-append s t)

has_error-append_right : (s t : GoString) → has_error t ≡ true → has_error (s ++ t) ≡ true
unfolding has_error
has_error-append_right [] t h = h
has_error-append_right (c ∷ s) t h = ground (arith, has_error-append_right s t h)

module _ {W : Type 0} (docker : Docker W) (pool : docker.Pool) (id : GoString)
    (command : List GoString) where
  checked_lem :
      (r : Reply (Unit {0})) (bufs : Buffers) (w : W)
      → has_error bufs.err ≡ true
      → checked docker r bufs w ≡ (ok false, bufs, w)
  checked_lem (answer _) bufs w h = rw h
  checked_lem (failure text) bufs w h = refl

  started_lem :
      (x : Reply GoString × W) (bufs : Buffers)
      → has_error bufs.err ≡ true
      → (bufs' : Buffers) × (w' : W) × (started docker pool x bufs ≡ (ok false, bufs', w'))
        × (has_error bufs'.err ≡ true)
  started_lem (failure text, w) bufs h = (bufs, w, refl, h)
  started_lem (answer e, w) bufs h =
      let (r, more, w') = docker.start_exec pool e w in
      let bufs' = written bufs more in
      let still = has_error-append bufs.err more.err h in
      (bufs', w', checked_lem r bufs' w' still, still)

  -- Once there is an error among what was written, no attempt succeeds.
  pub eventually-false :
      (n : ℕ) (bufs : Buffers) (w : W)
      → has_error bufs.err ≡ true
      → (eventually n (attempt docker pool id command) (bufs, w)).0 ≡ false
  unfolding eventually attempt
  eventually-false zero bufs w h = refl
  eventually-false (suc n) bufs w h =
      let (bufs', w', e, still) =
        started_lem (docker.create_exec pool (exec_options id command) w) bufs h in
      rw e (eventually-false n bufs' w' still)

  eventually_wrong :
      (n : ℕ) (w w₁ w₂ : W) (e : GoString) (r : Reply (Unit {0})) (more : Buffers)
      → docker.create_exec pool (exec_options id command) w ≡ (answer e, w₁)
      → docker.start_exec pool e w₁ ≡ (r, more, w₂)
      → has_error more.err ≡ true
      → (eventually n (attempt docker pool id command) (no_output, w)).0 ≡ false
  unfolding eventually attempt
  eventually_wrong zero w w₁ w₂ e r more creates starts wrong = refl
  eventually_wrong (suc n) w w₁ w₂ e r more creates starts wrong =
      rw (creates, starts, checked_lem r (written no_output more) w₂ wrong)
        (eventually-false n (written no_output more) w₂ wrong)

output-false :
    {W : Type 0} (x : Bool × (Buffers × W))
    → x.0 ≡ false
    → (output x).0 ≡ panicked (str "command failed")
output-false (true, (bufs, w)) h = cc
output-false (false, (bufs, w)) h = refl

module _ {W : Type 0} (docker : Docker W) (attempts : ℕ) (m : Manager docker)
    (container_name : GoString) (command : List GoString) where
  -- If the first attempt of a command writes an error to its error stream, then `ExecCmd` ends
  -- the test, however many attempts there is time for: the buffers keep the error.
  pub exec_cmd-fails :
      (resource : docker.Resource) (w w₁ w₂ : W) (id : GoString) (r : Reply (Unit {0}))
      (more : Buffers)
      → find container_name m.resources ≡ some resource
      → docker.create_exec m.pool (exec_options (docker.container_id resource) command) w
        ≡ (answer id, w₁)
      → docker.start_exec m.pool id w₁ ≡ (r, more, w₂)
      → has_error more.err ≡ true
      → (exec_cmd docker attempts m container_name command w).0 ≡ panicked (str "command failed")
  unfolding exec_cmd
  exec_cmd-fails resource w w₁ w₂ id r more found creates starts wrong = rw found (
      output-false
        (eventually attempts (attempt docker m.pool (docker.container_id resource) command)
          (no_output, w))
        (eventually_wrong docker m.pool (docker.container_id resource) command attempts w w₁ w₂ id r
          more creates starts wrong))
