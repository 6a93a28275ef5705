-- ===== src/BtcClient/Inputs/Source.antt =====
-- The input source: the inputs are the shortest run of the outputs, from the front, that reaches
-- the target, and a later call goes on where the last one stopped.
use covenant_signer.Prelude.{
  ◌≡◌, refl, ap, sym, ◌∙◌, ◌⊎◌, inl, inr, true, List, [], ◌∷◌, ◌++◌, map, arith, All, Bool-cases,
}
use covenant_signer.Prelude.Int.{ℤ, pos, ◌+ℤ◌, ◌≤ℤ◌, ◌<ℤ◌, ltb_ℤ, add_int64, IsInt64, int_laws}
use covenant_signer.Btc.{Btc}
use covenant_signer.BtcClient.Inputs.{
  Utxo, InputSource, make_input_source, add_input, take_inputs, fund,
}
use mathlib.Core.List.{append_assoc, append-nil}

add_amount :
    (a b c : ℤ)
    → pos 0 ≤ℤ a
    → pos 0 ≤ℤ b
    → pos 0 ≤ℤ c
    → IsInt64 (a +ℤ (b +ℤ c))
    → add_int64 a b ≡ a +ℤ b
unfolding add_int64 ◌+ℤ◌
add_amount (pos a) (pos b) (pos c) ha hb hc h = ground arith
add_amount a b c ha hb hc h = absurd (ground arith)

module _ {btc : Btc} where
  -- The sum of the amounts, with no overflow
  abbrev pub sum_amounts : List (Utxo btc) → ℤ
  sum_amounts [] = pos 0
  sum_amounts (u ∷ us) = u.amount +ℤ sum_amounts us

  -- A call from the state `s` with the outputs `utxos` left has ended in `s'`: it took the outputs
  -- `taken` from the front, and each list of `s'` has grown by them.
  pub record Takes (target : ℤ) (utxos : List (Utxo btc)) (s s' : InputSource btc) : Type 0 where
    pub taken : List (Utxo btc)
    pub split : utxos ≡ taken ++ s'.utxos
    pub total : s'.current_total ≡ s.current_total +ℤ sum_amounts taken
    pub inputs : s'.current_inputs ≡ s.current_inputs ++ map (λ u. btc.new_tx_in u.out_point) taken
    pub scripts : s'.current_scripts ≡ s.current_scripts ++ map (λ u. u.pk_script) taken
    pub values : s'.current_input_values ≡ s.current_input_values ++ map (λ u. u.amount) taken
    -- the target is reached, or nothing is left
    pub reached : (target ≤ℤ s'.current_total) ⊎ (s'.utxos ≡ [])
    -- without the last output taken the target is not reached
    pub minimal :
        (front : List (Utxo btc)) (last : Utxo btc)
        → taken ≡ front ++ last ∷ []
        → s.current_total +ℤ sum_amounts front <ℤ target

  nil≢snoc : (front : List (Utxo btc)) (last : Utxo btc) → [] ≡ front ++ last ∷ [] → ⊥
  nil≢snoc [] last h = cc
  nil≢snoc (x ∷ front) last h = cc

  sum_amounts_nonneg :
      (us : List (Utxo btc)) → All (λ u. pos 0 ≤ℤ u.amount) us → pos 0 ≤ℤ sum_amounts us
  sum_amounts_nonneg [] h = omega arith
  sum_amounts_nonneg (u ∷ us) (h, hs) = omega (int_laws, sum_amounts_nonneg us hs)

  module _ (target : ℤ) where
    minimal_cons :
        (u : Utxo btc) (taken : List (Utxo btc)) (total : ℤ)
        → total <ℤ target
        → ((front : List (Utxo btc)) (last : Utxo btc)
            → taken ≡ front ++ last ∷ []
            → total +ℤ u.amount +ℤ sum_amounts front <ℤ target)
        → (front : List (Utxo btc)) (last : Utxo btc) → u ∷ taken ≡ front ++ last ∷ []
        → total +ℤ sum_amounts front <ℤ target
    minimal_cons u taken total below ih [] last e = omega int_laws
    minimal_cons u taken total below ih (x ∷ front) last e =
        let head : u ≡ x = cc in
        let tail : taken ≡ front ++ last ∷ [] = cc in
        let rest = ih front last tail in rw (← head) (omega int_laws)

    next_nonneg :
        (u : Utxo btc) (s : InputSource btc)
        → pos 0 ≤ℤ s.current_total
        → pos 0 ≤ℤ u.amount
        → add_int64 s.current_total u.amount ≡ s.current_total +ℤ u.amount
        → pos 0 ≤ℤ (add_input u s).current_total
    unfolding add_input
    next_nonneg u s start amount exact = rw exact (omega int_laws)

    next_small :
        (u : Utxo btc) (utxos : List (Utxo btc)) (s : InputSource btc)
        → add_int64 s.current_total u.amount ≡ s.current_total +ℤ u.amount
        → IsInt64 (s.current_total +ℤ sum_amounts (u ∷ utxos))
        → IsInt64 ((add_input u s).current_total +ℤ sum_amounts utxos)
    unfolding add_input
    next_small u utxos s exact small =
        let regroup : s.current_total +ℤ u.amount +ℤ sum_amounts utxos
            ≡ s.current_total +ℤ (u.amount +ℤ sum_amounts utxos) =
          omega int_laws in
        rw (exact, regroup) small

    Takes-cons :
        (u : Utxo btc) (utxos : List (Utxo btc)) (s s' : InputSource btc)
        → s.current_total <ℤ target
        → add_int64 s.current_total u.amount ≡ s.current_total +ℤ u.amount
        → Takes target utxos (add_input u s) s'
        → Takes target (u ∷ utxos) s s'
    unfolding add_input
    Takes-cons u utxos s s' below exact t =
        let total = s.current_total +ℤ u.amount +ℤ sum_amounts t.taken in
        record {
          taken = u ∷ t.taken;
          split = ap (λ us. u ∷ us) t.split;
          total = t.total ∙ ap (λ z. z +ℤ sum_amounts t.taken) exact ∙ (omega int_laws);
          inputs = t.inputs ∙ append_assoc s.current_inputs _ _;
          scripts = t.scripts ∙ append_assoc s.current_scripts _ _;
          values = t.values ∙ append_assoc s.current_input_values _ _;
          reached = t.reached;
          minimal =
              minimal_cons u t.taken s.current_total below
                λ front last e. rw exact at (t.minimal front last e);
        }

    take_inputs-Takes :
        (utxos : List (Utxo btc)) (s : InputSource btc)
        → pos 0 ≤ℤ s.current_total
        → All (λ u. pos 0 ≤ℤ u.amount) utxos
        → IsInt64 (s.current_total +ℤ sum_amounts utxos)
        → Takes target utxos s (take_inputs target utxos s)
    unfolding take_inputs
    take_inputs-Takes [] s start amounts small = record {
      taken = [];
      split = refl;
      total = omega int_laws;
      inputs = sym (append-nil _);
      scripts = sym (append-nil _);
      values = sym (append-nil _);
      reached = inr refl;
      minimal = λ front last e. absurd (nil≢snoc front last e);
    }
    take_inputs-Takes (u ∷ utxos) s start (amount, amounts) small =
        let exact =
          add_amount s.current_total u.amount (sum_amounts utxos) start amount
            (sum_amounts_nonneg utxos amounts) small in
        elim (Bool-cases (ltb_ℤ s.current_total target)) [
          | inl below ↦ rw below (
              Takes-cons u utxos s _ (ground arith) exact (
                take_inputs-Takes utxos (add_input u s) (next_nonneg u s start amount exact) amounts
                  (next_small u utxos s exact small)))
          | inr done ↦ rw done (record {
            taken = [];
            split = refl;
            total = omega int_laws;
            inputs = sym (append-nil _);
            scripts = sym (append-nil _);
            values = sym (append-nil _);
            reached = inl (ground arith);
            minimal = λ front last e. absurd (nil≢snoc front last e);
          })
        ]

  -- From a fresh source, when the amounts are not negative and their sum fits an `int64`, the
  -- inputs are a run of the outputs from the front with their scripts and values, the total is
  -- their sum, the target is reached or nothing is left, and without its last output the run
  -- does not reach the target.
  pub fund-Takes :
      (target : ℤ) (utxos : List (Utxo btc))
      → All (λ u. pos 0 ≤ℤ u.amount) utxos
      → IsInt64 (sum_amounts utxos)
      → Takes target utxos (make_input_source utxos) (fund target (make_input_source utxos))
  unfolding fund make_input_source
  fund-Takes target utxos amounts small =
      let zero_add : pos 0 +ℤ sum_amounts utxos ≡ sum_amounts utxos = omega int_laws in
      take_inputs-Takes target utxos (make_input_source utxos) (omega arith) amounts
        (rw zero_add small)

  take_inputs-utxos :
      (target : ℤ) (utxos us : List (Utxo btc)) (s : InputSource btc)
      → take_inputs target utxos (record s { utxos = us }) ≡ take_inputs target utxos s
  unfolding take_inputs
  take_inputs-utxos target [] us s = refl
  take_inputs-utxos target (u ∷ utxos) us s = elim (Bool-cases (ltb_ℤ s.current_total target)) [
    | inl below ↦ rw below (unfold add_input in take_inputs-utxos target utxos us (add_input u s))
    | inr done ↦ rw done
  ]

  fund-take_inputs :
      (t₁ t₂ : ℤ) (utxos : List (Utxo btc)) (s : InputSource btc)
      → t₁ ≤ℤ t₂
      → fund t₂ (take_inputs t₁ utxos s) ≡ take_inputs t₂ utxos s
  unfolding fund take_inputs
  fund-take_inputs t₁ t₂ [] s le = refl
  fund-take_inputs t₁ t₂ (u ∷ utxos) s le = elim (Bool-cases (ltb_ℤ s.current_total t₁)) [
    | inl below ↦
        let below₂ : ltb_ℤ s.current_total t₂ ≡ true = ground arith in
        rw (below, below₂) (fund-take_inputs t₁ t₂ utxos (add_input u s) le)
    | inr done ↦ rw done (take_inputs-utxos t₂ (u ∷ utxos) (u ∷ utxos) s)
  ]

  -- A later call with a target at least as high goes on from the inputs that the first call
  -- took, and ends as one call with that target.
  pub fund-fund : (t₁ t₂ : ℤ) (s : InputSource btc) → t₁ ≤ℤ t₂ → fund t₂ (fund t₁ s) ≡ fund t₂ s
  unfolding fund
  fund-fund t₁ t₂ s le = fund-take_inputs t₁ t₂ s.utxos s le
