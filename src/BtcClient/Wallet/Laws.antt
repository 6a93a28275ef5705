-- ===== src/BtcClient/Wallet/Laws.antt =====
-- The transactions that the node's wallet funds and signs.
use covenant_signer.Prelude.{
  Bool, ◌∷◌, ◌≡◌, ◌≢◌, ap, sym, ◌∙◌, true, false, not, List, [], length, arith,
}
use mathlib.Core.List.{Perm}
use covenant_signer.Prelude.Int.{ℤ, ◌≤ℤ◌}
use covenant_signer.Go.Text.{Bytes, str}
use covenant_signer.Go.Outcome.{
  ok, ok-injective, new, answer, or_err, or_err-eq-ok, fail_if, fail_if-eq-ok,
}
use covenant_signer.Go.Exec.{continue-eq-ok}
use covenant_signer.Btc.{Btc, TxOut}
use covenant_signer.Btc.Rpc.{Rpc, ListUnspentResult}
use covenant_signer.BtcClient.Node.{sign_raw_transaction}
use covenant_signer.BtcClient.Inputs.{
  Utxo, results_to_utxos, amount_less, make_input_source, fund, TxAuthor,
}
use covenant_signer.BtcClient.Inputs.Results.{
  spendable, results_to_utxos-spendable, build_tx_from_outputs_iff,
}
use covenant_signer.BtcClient.Wallet.{create_transaction, create_and_sign_tx}

-- What the package sort asks of the method `Less`, and of its being strict.
pub record IsLess {A : Type 0} (less : A → A → Bool) : Type 0 where
  pub irreflexive : (a : A) → less a a ≡ false
  pub both : (a b c : A) → less a b ≡ true → less b c ≡ true → less a c ≡ true
  pub neither : (a b c : A) → less a b ≡ false → less b c ≡ false → less a c ≡ false

-- No element is less than the one behind it.
abbrev pub IsReverseSorted : {A : Type 0} → (A → A → Bool) → List A → Type 0
IsReverseSorted less [] = Unit {0}
IsReverseSorted less (a ∷ []) = Unit {0}
IsReverseSorted less (a ∷ b ∷ rest) = (less a b ≡ false) × IsReverseSorted less (b ∷ rest)

-- What sort documents of `sort.Sort(sort.Reverse(…))`: the same elements, in that order.
pub record SortLaws {btc : Btc} (author : TxAuthor btc) : Type 0 where
  pub permutes :
      (less : Utxo btc → Utxo btc → Bool) (utxos : List (Utxo btc))
      → IsLess less
      → Perm (author.sort_reverse less utxos) utxos
  pub sorts :
      (less : Utxo btc → Utxo btc → Bool) (utxos : List (Utxo btc))
      → IsLess less
      → IsReverseSorted less (author.sort_reverse less utxos)

-- From the largest amount to the smallest
abbrev pub IsDescending : {btc : Btc} → List (Utxo btc) → Type 0
IsDescending [] = Unit {0}
IsDescending (a ∷ []) = Unit {0}
IsDescending (a ∷ b ∷ rest) = (b.amount ≤ℤ a.amount) × IsDescending (b ∷ rest)

module _ {btc : Btc} where
  amount_less-IsLess : IsLess (amount_less {btc = btc})
  unfolding amount_less
  amount_less-IsLess = record {
    irreflexive = λ a. ground arith;
    both = λ a b c ab bc. ground arith;
    neither = λ a b c ab bc. ground arith;
  }

  IsReverseSorted-IsDescending :
      (utxos : List (Utxo btc)) → IsReverseSorted amount_less utxos → IsDescending utxos
  unfolding amount_less
  IsReverseSorted-IsDescending [] h = tt
  IsReverseSorted-IsDescending (a ∷ []) h = tt
  IsReverseSorted-IsDescending (a ∷ b ∷ rest) (here, there) =
      (ground arith, IsReverseSorted-IsDescending (b ∷ rest) there)

module _ {btc : Btc} {W : Type 0} (rpc : Rpc btc W) (author : TxAuthor btc)
    (sort_laws : SortLaws author) where
  -- Where a transaction comes from: the spendable outputs that the node listed, from the largest
  -- amount to the smallest, with at least one output to fund.
  pub record Created (outputs : List TxOut) (fee_rate : ℤ) (change : btc.Address) (w : W)
      (tx : btc.MsgTx) (w' : W) : Type 0 where
    pub listed : List (ListUnspentResult rpc.Float)
    pub has_listed : rpc.list_unspent w ≡ (answer listed, w')
    pub utxos : List (Utxo btc)
    pub reads : results_to_utxos rpc (spendable rpc listed) false ≡ ok utxos
    pub script : Bytes
    pub has_script : author.pay_to_addr_script change ≡ answer script
    pub sorted : List (Utxo btc)
    pub permutes : Perm sorted utxos
    pub descends : IsDescending sorted
    pub some_utxo : sorted ≢ []
    pub some_output : outputs ≢ []
    pub made :
        author.new_unsigned_transaction outputs fee_rate fund
          (make_input_source sorted)
          script
          (length script)
        ≡ answer tx

  -- What is returned is what the node made of such a transaction, with every input signed.
  pub record CreatedAndSigned (outputs : List TxOut) (fee_rate : ℤ) (change : btc.Address) (w : W)
      (tx : btc.MsgTx) (w' : W) : Type 0 where
    pub unsigned : btc.MsgTx
    pub w₁ : W
    pub created : Created outputs fee_rate change w unsigned w₁
    pub signs : rpc.sign_raw_transaction_with_wallet unsigned w₁ ≡ (answer (tx, true), w')

  create_transaction-Created :
      (outputs : List TxOut) (fee_rate : ℤ) (change : btc.Address) (w w' : W) (tx : btc.MsgTx)
      → create_transaction rpc author outputs fee_rate change w ≡ (ok tx, w')
      → Created outputs fee_rate change w tx w'
  unfolding create_transaction
  create_transaction-Created outputs fee_rate change w w' tx h =
      let list = rpc.list_unspent w in
      let (listed, e₁, h₁) = continue-eq-ok (or_err list.0) _ list.1 h in
      let given = or_err-eq-ok list.0 e₁ in
      let (utxos, e₂, h₂) = continue-eq-ok (results_to_utxos rpc listed true) _ list.1 h₁ in
      let (script, e₃, h₃) =
        continue-eq-ok (or_err (author.pay_to_addr_script change)) _ list.1 h₂ in
      let (some_utxo, some_output, made) =
        (build_tx_from_outputs_iff author (author.sort_reverse amount_less utxos) outputs fee_rate
            script tx).0
          (ap (λ x. x.0) h₃) in
      record {
        listed = listed;
        has_listed = λ i. (given i, (h₃ i).1);
        utxos = utxos;
        reads = sym (results_to_utxos-spendable rpc listed) ∙ e₂;
        script = script;
        has_script = or_err-eq-ok (author.pay_to_addr_script change) e₃;
        sorted = author.sort_reverse amount_less utxos;
        permutes = sort_laws.permutes amount_less utxos amount_less-IsLess;
        descends =
            IsReverseSorted-IsDescending _ (sort_laws.sorts amount_less utxos amount_less-IsLess);
        some_utxo = some_utxo;
        some_output = some_output;
        made = made;
      }

  -- If sort permutes what it sorts and puts it in the reverse of the order that it is given, a
  -- transaction that is returned was signed by the node, in all of its inputs, from one that
  -- txauthor made over the spendable outputs of the wallet, from the largest amount to the
  -- smallest, with the outputs and the fee rate of the call and a change to the script of the
  -- given address.
  pub create_and_sign_tx-CreatedAndSigned :
      (outputs : List TxOut) (fee_rate : ℤ) (change : btc.Address) (w w' : W) (tx : btc.MsgTx)
      → create_and_sign_tx rpc author outputs fee_rate change w ≡ (ok tx, w')
      → CreatedAndSigned outputs fee_rate change w tx w'
  unfolding create_and_sign_tx sign_raw_transaction
  create_and_sign_tx-CreatedAndSigned outputs fee_rate change w w' tx h =
      let create = create_transaction rpc author outputs fee_rate change w in
      let (unsigned, e₁, h₁) = continue-eq-ok create.0 _ create.1 h in
      let sign = rpc.sign_raw_transaction_with_wallet unsigned create.1 in
      let ((signed, all), e₂, h₂) = continue-eq-ok (or_err sign.0) _ sign.1 h₁ in
      let (_, e₃, h₃) =
        continue-eq-ok (fail_if (not all) (new (str "not all transactions inputs could be signed")))
          _ sign.1 h₂ in
      let replied = or_err-eq-ok sign.0 e₂ in
      let whole : all ≡ true = let test = fail_if-eq-ok (not all) _ e₃ in ground arith in
      let same = ok-injective (ap (λ x. x.0) h₃) in
      record {
        unsigned = unsigned;
        w₁ = create.1;
        created =
            create_transaction-Created outputs fee_rate change w create.1 unsigned
              (λ i. (e₁ i, create.1));
        signs = (λ i. (replied i, sign.1)) ∙ (λ i. (answer (same i, whole i), (h₃ i).1));
      }
