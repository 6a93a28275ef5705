-- ===== src/BtcClient/Inputs/Rounds.antt =====
-- The loop of the input source, round by round:
-- `for currentTotal < target && len(utxos) != 0 { ... }`.
use covenant_signer.Prelude.{
  ℕ, zero, suc, ◌+◌, ◌≡◌, refl, inl, inr, arith, List, [], ◌∷◌, length, Bool-cases, false,
}
use covenant_signer.Prelude.Int.{ℤ, ◌<ℤ◌, ltb_ℤ}
use covenant_signer.Btc.{Btc}
use covenant_signer.BtcClient.Inputs.{Utxo, InputSource, add_input, take_inputs, fund}

module _ {btc : Btc} (target : ℤ) where
  -- A round runs while the total is below the target and an output is left.
  pub data Round (s : InputSource btc) : InputSource btc → Type 0 where
    round :
        (u : Utxo btc) (utxos : List (Utxo btc))
        → s.current_total <ℤ target
        → s.utxos ≡ u ∷ utxos
        → Round s (record (add_input u s) { utxos = utxos })

  pub data Rounds (last : InputSource btc) : ℕ → InputSource btc → Type 0 where
    done : Rounds last zero last
    more : {n : ℕ} {s t : InputSource btc} → Round s t → Rounds last n t → Rounds last (suc n) s

  -- The loop from `s` ends in `last`: the rounds lead there, one for each output taken, and no
  -- round can follow.
  pub record Halts (s last : InputSource btc) : Type 0 where
    pub count : ℕ
    pub rounds : Rounds last count s
    pub each_takes_one : count + length last.utxos ≡ length s.utxos
    pub stopped : (t : InputSource btc) → Round last t → ⊥

  stopped_empty : (s t : InputSource btc) → s.utxos ≡ [] → Round s t → ⊥
  stopped_empty s t none (round u utxos below some) = cc

  stopped_reached : (s t : InputSource btc) → ltb_ℤ s.current_total target ≡ false → Round s t → ⊥
  stopped_reached s t reached (round u utxos below some) = ground arith

  take_inputs-Halts :
      (utxos : List (Utxo btc)) (s : InputSource btc)
      → Halts (record s { utxos = utxos }) (take_inputs target utxos s)
  unfolding take_inputs
  take_inputs-Halts [] s = record {
    count = 0;
    rounds = done;
    each_takes_one = omega arith;
    stopped = λ t. stopped_empty (record s { utxos = [] }) t refl;
  }
  take_inputs-Halts (u ∷ utxos) s = elim (Bool-cases (ltb_ℤ s.current_total target)) [
    | inl below ↦
        let rest = take_inputs-Halts utxos (add_input u s) in
        rw below (record {
          count = suc rest.count;
          rounds = more (unfold add_input in round u utxos (ground arith) refl) rest.rounds;
          each_takes_one = omega (arith, rest.each_takes_one);
          stopped = rest.stopped;
        })
    | inr reached ↦ rw reached (record {
      count = 0;
      rounds = done;
      each_takes_one = omega arith;
      stopped = λ t. stopped_reached (record s { utxos = u ∷ utxos }) t reached;
    })
  ]

  -- The loop of the input source, as rounds that each go on while the target is not reached and
  -- an output is left, ends: it comes after one round for each output taken to a state in which
  -- it stops, which is the one that `fund` returns.
  pub fund-Halts : (s : InputSource btc) → Halts s (fund target s)
  unfolding fund
  fund-Halts s = take_inputs-Halts s.utxos s
