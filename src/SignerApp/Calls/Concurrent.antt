-- ===== src/SignerApp/Calls/Concurrent.antt =====
-- Any number of calls at once, in any order of their pieces, while the rest of the world changes.
use covenant_signer.Prelude.{◌≡◌, refl, subst, List, [], ◌∷◌, ◌++◌, All, All-append}
use covenant_signer.Go.Outcome.{Outcome, ok, err, panicked}
use covenant_signer.Btc.{Btc, Staking}
use covenant_signer.SignerApp.Asked.{AskedLaws, Asks, Asks-none, Asks-then}
use covenant_signer.SignerApp.Interfaces.{SigningRequest}
use covenant_signer.SignerApp.Signer.Approval.{StakingLaws}
use covenant_signer.SignerApp.Signer.Validation.{Ranges}
use covenant_signer.SignerApp.Signer.{SignerApp}
use covenant_signer.SignerApp.Calls.{Job, Call, begins, Next, continues, returns, advance}
use covenant_signer.SignerApp.Calls.Sound.{IsSound, WasApproved, advance-Goes}

-- The world and the calls that have not returned
pub record Calls (btc : Btc) (W : Type 0) : Type 0 where
  pub world : W
  pub calls : List (Call btc)

-- What is left of a call
abbrev pub left : {btc : Btc} → Outcome (Next btc) → List (Call btc)
left (ok (continues c)) = c ∷ []
left (ok (returns s)) = []
left (err e) = []
left (panicked t) = []

abbrev pub moved :
    {btc : Btc} {W : Type 0}
    → List (Call btc)
    → List (Call btc)
    → Outcome (Next btc) × W
    → Calls btc W
moved before after x = record { world = x.1; calls = before ++ (left x.0 ++ after) }

abbrev pub idle : {btc : Btc} {W : Type 0} → W → Calls btc W
idle w = record { world = w; calls = [] }

module _ {ℓ} {A : Type ℓ} (P : A → Type 0) where
  All-middle :
      (xs : List A) (y : A) (zs all : List A)
      → all ≡ xs ++ y ∷ zs
      → All P all
      → All P xs × P y × All P zs
  All-middle xs y zs all h p = split xs (subst (All P) h p)
    where
      split : (xs : List A) → All P (xs ++ y ∷ zs) → All P xs × P y × All P zs
      split [] (py, pz) = (tt, py, pz)
      split (x ∷ xs) (px, rest) = let (pxs, py, pz) = split xs rest in ((px, pxs), py, pz)

module _ {btc : Btc} (staking : Staking btc) {W : Type 0} (app : SignerApp btc W)
    (requests_asked : W → List (SigningRequest btc)) where
  pub data Step : Calls btc W → Calls btc W → Type 0 where
    arrives : (j : Job btc) (t : Calls btc W) → Step t (record t { calls = begins j ∷ t.calls })
    advances :
        (before : List (Call btc)) (c : Call btc) (after : List (Call btc)) (t : Calls btc W)
        → t.calls ≡ before ++ c ∷ after
        → Step t (moved before after (advance staking app c t.world))
    -- others than the wallet change the world
    meanwhile :
        (w : W) (t : Calls btc W)
        → requests_asked w ≡ requests_asked t.world
        → Step t (record t { world = w })

  pub data Run : Calls btc W → Calls btc W → Type 0 where
    still : (t : Calls btc W) → Run t t
    then : (t u v : Calls btc W) → Run t u → Step u v → Run t v

  module _ (asked_laws : AskedLaws app requests_asked) (laws : StakingLaws staking)
      (ranges : Ranges app) where
    abbrev Holds : W → Calls btc W → Type 0
    Holds w t =
        Asks requests_asked (WasApproved staking app) w t.world × All (IsSound staking app) t.calls

    left-IsSound :
        (r : Outcome (Next btc))
        → ((c : Call btc) → r ≡ ok (continues c) → IsSound staking app c)
        → All (IsSound staking app) (left r)
    left-IsSound (ok (continues c)) h = (h c refl, tt)
    left-IsSound (ok (returns s)) h = tt
    left-IsSound (err e) h = tt
    left-IsSound (panicked t) h = tt

    Step-Holds : (w : W) (t u : Calls btc W) → Step t u → Holds w t → Holds w u
    Step-Holds w _ _ (arrives j t) (asks, sound) = (asks, (tt, sound))
    Step-Holds w _ _ (meanwhile w' t same) (asks, sound) = (
      Asks-then requests_asked (WasApproved staking app) w t.world w' asks
          (Asks-none requests_asked (WasApproved staking app) t.world w' same),
      sound,
    )
    Step-Holds w _ _ (advances before c after t here) (asks, sound) =
        let (sound_before, sound_c, sound_after) =
          All-middle (IsSound staking app) before c after t.calls here sound in
        let x = advance staking app c t.world in
        let goes =
          advance-Goes staking app requests_asked asked_laws laws ranges c t.world sound_c in
        (
          Asks-then requests_asked (WasApproved staking app) w t.world x.1 asks goes.asks,
          All-append (IsSound staking app) before (left x.0 ++ after) sound_before (
              All-append (IsSound staking app) (left x.0) after (left-IsSound x.0 goes.goes_on)
                sound_after),
        )

    Run-Holds : (w : W) (t u : Calls btc W) → Run t u → Holds w t → Holds w u
    Run-Holds w _ _ (still t) h = h
    Run-Holds w _ _ (then t u v run step) h = Step-Holds w u v step (Run-Holds w t u run h)

    -- Under the laws of btcstaking and with answers in the ranges of their types, let only the
    -- wallet write the record of what it was asked, in a call at most that call's request. Then
    -- however the pieces of concurrent calls interleave with each other and with changes that
    -- leave the record alone, each request that was added to the record is the one that
    -- docs/validation.md describes for the arguments of some call, a staking transaction, a best
    -- height and parameters that the node and the parameters' source each answered in some
    -- world.
    pub Run-Asks :
        (w : W) (t : Calls btc W)
        → Run (idle w) t
        → Asks requests_asked (WasApproved staking app) w t.world
    Run-Asks w t run =
        (Run-Holds w (idle w) t run
          (Asks-none requests_asked (WasApproved staking app) w w refl, tt)).0
