-- ===== src/Itest/Containers/Tried.antt =====
-- What `ExecCmd` returns: the attempts it made, and what they wrote.
use covenant_signer.Prelude.{
  ℕ, zero, suc, ◌≡◌, refl, ap, subst, Bool, true, false, Option, none, some, List, ◌++◌, Bool-cases,
  inl, inr,
}
use covenant_signer.Go.Text.{GoString}
use covenant_signer.Go.Outcome.{Outcome, ok, Reply, answer, failure}
use covenant_signer.Itest.Docker.{Docker, Buffers}
use covenant_signer.Itest.Testify.{eventually, try_again}
use covenant_signer.Itest.Containers.{
  Manager, has_error, find, written, no_output, exec_options, checked, started, attempt, output,
  exec_found, exec_cmd,
}
use covenant_signer.Itest.Containers.Retries.{eventually-false}

module _ {W : Type 0} (docker : Docker W) (pool : docker.Pool) (id : GoString)
    (command : List GoString) where
  -- Attempts from `bufs` and `w` on, of which the last succeeds: the others were not created or
  -- did not start, and each adds what it writes.
  pub data Tried : Buffers → W → Buffers → W → Type 0 where
    succeeded :
        (bufs more : Buffers) (w w₁ w₂ : W) (e : GoString)
        → docker.create_exec pool (exec_options id command) w ≡ (answer e, w₁)
        → docker.start_exec pool e w₁ ≡ (answer tt, more, w₂)
        → Tried bufs w (written bufs more) w₂
    not_created :
        (bufs bufs' : Buffers) (w w₁ w' : W) (text : GoString)
        → docker.create_exec pool (exec_options id command) w ≡ (failure text, w₁)
        → Tried bufs w₁ bufs' w'
        → Tried bufs w bufs' w'
    not_started :
        (bufs more bufs' : Buffers) (w w₁ w₂ w' : W) (e text : GoString)
        → docker.create_exec pool (exec_options id command) w ≡ (answer e, w₁)
        → docker.start_exec pool e w₁ ≡ (failure text, more, w₂)
        → Tried (written bufs more) w₂ bufs' w'
        → Tried bufs w bufs' w'

  abbrev pub Success : Buffers → W → Buffers → W → Type 0
  Success bufs w bufs' w' = Tried bufs w bufs' w' × (has_error bufs'.err ≡ false)

  abbrev Sound : ℕ → Type 0
  Sound n =
      (bufs : Buffers) (w : W) (bufs' : Buffers) (w' : W)
      → eventually n (attempt docker pool id command) (bufs, w) ≡ (true, (bufs', w'))
      → Success bufs w bufs' w'

  flat : Outcome Bool × Buffers × W → Outcome Bool × (Buffers × W)
  flat (r, bufs, w) = (r, (bufs, w))

  after_start :
      (n : ℕ) (sound : Sound n) (bufs : Buffers) (w w₁ : W) (e : GoString) (r : Reply (Unit {0}))
      (more : Buffers) (w₂ : W) (bufs' : Buffers) (w' : W)
      → docker.create_exec pool (exec_options id command) w ≡ (answer e, w₁)
      → docker.start_exec pool e w₁ ≡ (r, more, w₂)
      → try_again
          (λ t. eventually n (attempt docker pool id command) t)
          (flat (checked docker r (written bufs more) w₂))
        ≡ (true, (bufs', w'))
      → Success bufs w bufs' w'
  unfolding flat
  after_start n sound bufs w w₁ e (failure text) more w₂ bufs' w' creates starts h =
      let (rest, clean) = sound (written bufs more) w₂ bufs' w' h in
      (not_started bufs more bufs' w w₁ w₂ w' e text creates starts rest, clean)
  after_start n sound bufs w w₁ e (answer u) more w₂ bufs' w' creates starts h =
      elim (Bool-cases (has_error (bufs.err ++ more.err))) [
        | inl wrong ↦
            let again = rw wrong at h in
            let never = eventually-false docker pool id command n (written bufs more) w₂ wrong in
            let clash = ap (λ x. x.0) again in cc
        | inr clean ↦
            let done = rw clean at h in
            let same = ap (λ x. x.1) done in
            subst (λ (x : Buffers × W). Success bufs w x.0 x.1) same
              (succeeded bufs more w w₁ w₂ e creates starts, clean)
      ]

  after_create :
      (n : ℕ) (sound : Sound n) (bufs : Buffers) (w : W) (x : Reply GoString × W) (bufs' : Buffers)
      (w' : W)
      → docker.create_exec pool (exec_options id command) w ≡ x
      → try_again
          (λ t. eventually n (attempt docker pool id command) t)
          (flat (started docker pool x bufs))
        ≡ (true, (bufs', w'))
      → Success bufs w bufs' w'
  unfolding flat
  after_create n sound bufs w (failure text, w₁) bufs' w' creates h =
      let (rest, clean) = sound bufs w₁ bufs' w' h in
      (not_created bufs bufs' w w₁ w' text creates rest, clean)
  after_create n sound bufs w (answer e, w₁) bufs' w' creates h =
      let (r, more, w₂) = docker.start_exec pool e w₁ in
      after_start n sound bufs w w₁ e r more w₂ bufs' w' creates refl h

  pub eventually-Sound : (n : ℕ) → Sound n
  unfolding eventually attempt flat
  eventually-Sound zero bufs w bufs' w' h = cc (ap (λ x. x.0) h)
  eventually-Sound (suc n) bufs w bufs' w' h =
      after_create n (eventually-Sound n) bufs w
        (docker.create_exec pool (exec_options id command) w) bufs' w' refl h

output-ok :
    {W : Type 0} (x : Bool × (Buffers × W)) (bufs : Buffers) (w : W)
    → output x ≡ (ok bufs, w)
    → x ≡ (true, (bufs, w))
output-ok (true, (bufs', w')) bufs w h = cc
output-ok (false, (bufs', w')) bufs w h = cc

module _ {W : Type 0} (docker : Docker W) (attempts : ℕ) where
  exec_found-Success :
      (pool : docker.Pool) (container_name : GoString) (command : List GoString)
      (found : Option docker.Resource) (w : W) (bufs : Buffers) (w' : W)
      → exec_found docker attempts pool container_name command found w ≡ (ok bufs, w')
      → (resource : docker.Resource) × (found ≡ some resource)
        × Success docker pool (docker.container_id resource) command no_output w bufs w'
  exec_found-Success pool container_name command none w bufs w' h = cc
  exec_found-Success pool container_name command (some resource) w bufs w' h =
      let tried =
        eventually attempts (attempt docker pool (docker.container_id resource) command)
          (no_output, w) in
      (
        resource,
        refl,
        eventually-Sound docker pool (docker.container_id resource) command attempts no_output w
            bufs w' (output-ok tried bufs w' h),
      )

  -- When `ExecCmd` returns, there is a container of the name, and the world and the buffers are
  -- those of a run of attempts in it, of which the last one starts and each one before it is not
  -- created or does not start; the buffers hold what all attempts wrote, and the error stream
  -- has no error.
  pub exec_cmd-Tried :
      (m : Manager docker) (container_name : GoString) (command : List GoString) (w : W)
      (bufs : Buffers) (w' : W)
      → exec_cmd docker attempts m container_name command w ≡ (ok bufs, w')
      → (resource : docker.Resource) × (find container_name m.resources ≡ some resource)
        × Success docker m.pool (docker.container_id resource) command no_output w bufs w'
  unfolding exec_cmd
  exec_cmd-Tried m container_name command w bufs w' h =
      exec_found-Success m.pool container_name command (find container_name m.resources) w bufs w' h
