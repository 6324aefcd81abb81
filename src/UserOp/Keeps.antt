-- ===== src/UserOp/Keeps.antt =====
-- `fillUserOp` of test/UserOp.ts keeps what its caller gave.
use mathlib.Core.Option
use mathlib.Core.Path.{subst}
use falcon_smart_account.Prelude.{ℕ, ◌≡◌, ◌≢◌, refl, sym, Option, none, some, arith}
use falcon_smart_account.Js.{Str}
use falcon_smart_account.Outcome.{Outcome, ok, >>=-eq-ok}
use falcon_smart_account.Ethers.{Ethers}
use falcon_smart_account.UserOp.Types.{UserOperation, PartialOp, defaults_for_user_op}
use falcon_smart_account.UserOp.Fill.{
  EntryPointClient, fill_user_op_defaults, fill_if_null, fill_init_code, fill_nonce, fill_call_gas,
  fill_paymaster, fill_fees, fill_pre_verification_gas, fill_user_op,
}

-- A key that was given is still there.
abbrev pub Kept {ℓ} : {A : Type ℓ} → Option A → Option A → Type ℓ
Kept none b = Unit
Kept (some v) b = b ≡ some v

abbrev pub Given {ℓ} : {A : Type ℓ} → Option A → A → Type ℓ
Given none x = Unit
Given (some v) x = x ≡ v

-- Every key of `a` that is not null is the same in `b`.
pub record Extends (a b : PartialOp) : Type 0 where
  pub sender : Kept a.sender b.sender
  pub nonce : Kept a.nonce b.nonce
  pub init_code : Kept a.init_code b.init_code
  pub call_data : Kept a.call_data b.call_data
  pub call_gas_limit : Kept a.call_gas_limit b.call_gas_limit
  pub verification_gas_limit : Kept a.verification_gas_limit b.verification_gas_limit
  pub pre_verification_gas : Kept a.pre_verification_gas b.pre_verification_gas
  pub max_fee_per_gas : Kept a.max_fee_per_gas b.max_fee_per_gas
  pub max_priority_fee_per_gas : Kept a.max_priority_fee_per_gas b.max_priority_fee_per_gas
  pub paymaster : Kept a.paymaster b.paymaster
  pub paymaster_verification_gas_limit :
      Kept a.paymaster_verification_gas_limit b.paymaster_verification_gas_limit
  pub paymaster_post_op_gas_limit : Kept a.paymaster_post_op_gas_limit b.paymaster_post_op_gas_limit
  pub paymaster_data : Kept a.paymaster_data b.paymaster_data
  pub signature : Kept a.signature b.signature

fill_if_null-Kept {ℓ} :
    {A : Type ℓ} (o : Option A) (m : Outcome A) {r : Option A} → fill_if_null o m ≡ ok r → Kept o r
fill_if_null-Kept none m h = tt
fill_if_null-Kept (some a) m h = cc

Kept-refl {ℓ} : {A : Type ℓ} (o : Option A) → Kept o o
Kept-refl none = tt
Kept-refl (some v) = refl

Kept-trans {ℓ} : {A : Type ℓ} (a b c : Option A) → Kept a b → Kept b c → Kept a c
Kept-trans none b c h k = tt
Kept-trans (some v) none c h k = cc
Kept-trans (some v) (some w) c h k = cc

Extends-refl : (a : PartialOp) → Extends a a
Extends-refl a = record {
  sender = Kept-refl a.sender;
  nonce = Kept-refl a.nonce;
  init_code = Kept-refl a.init_code;
  call_data = Kept-refl a.call_data;
  call_gas_limit = Kept-refl a.call_gas_limit;
  verification_gas_limit = Kept-refl a.verification_gas_limit;
  pre_verification_gas = Kept-refl a.pre_verification_gas;
  max_fee_per_gas = Kept-refl a.max_fee_per_gas;
  max_priority_fee_per_gas = Kept-refl a.max_priority_fee_per_gas;
  paymaster = Kept-refl a.paymaster;
  paymaster_verification_gas_limit = Kept-refl a.paymaster_verification_gas_limit;
  paymaster_post_op_gas_limit = Kept-refl a.paymaster_post_op_gas_limit;
  paymaster_data = Kept-refl a.paymaster_data;
  signature = Kept-refl a.signature;
}

-- The keys that were given are those of the filled operation; a `preVerificationGas` of zero is
-- the one value that is not kept.
pub record Honours (op : PartialOp) (r : UserOperation) : Type 0 where
  pub sender : Given op.sender r.sender
  pub nonce : Given op.nonce r.nonce
  pub init_code : Given op.init_code r.init_code
  pub call_data : Given op.call_data r.call_data
  pub call_gas_limit : Given op.call_gas_limit r.call_gas_limit
  pub verification_gas_limit : Given op.verification_gas_limit r.verification_gas_limit
  pub pre_verification_gas :
      op.pre_verification_gas ≢ some 0 → Given op.pre_verification_gas r.pre_verification_gas
  pub max_fee_per_gas : Given op.max_fee_per_gas r.max_fee_per_gas
  pub max_priority_fee_per_gas : Given op.max_priority_fee_per_gas r.max_priority_fee_per_gas
  pub paymaster : Given op.paymaster r.paymaster
  pub paymaster_verification_gas_limit :
      Given op.paymaster_verification_gas_limit r.paymaster_verification_gas_limit
  pub paymaster_post_op_gas_limit :
      Given op.paymaster_post_op_gas_limit r.paymaster_post_op_gas_limit
  pub paymaster_data : Given op.paymaster_data r.paymaster_data
  pub signature : Given op.signature r.signature

Extends-trans : (a b c : PartialOp) → Extends a b → Extends b c → Extends a c
Extends-trans a b c h k = record {
  sender = Kept-trans a.sender b.sender c.sender h.sender k.sender;
  nonce = Kept-trans a.nonce b.nonce c.nonce h.nonce k.nonce;
  init_code = Kept-trans a.init_code b.init_code c.init_code h.init_code k.init_code;
  call_data = Kept-trans a.call_data b.call_data c.call_data h.call_data k.call_data;
  call_gas_limit =
      Kept-trans a.call_gas_limit b.call_gas_limit c.call_gas_limit h.call_gas_limit
        k.call_gas_limit;
  verification_gas_limit =
      Kept-trans a.verification_gas_limit b.verification_gas_limit c.verification_gas_limit
        h.verification_gas_limit k.verification_gas_limit;
  pre_verification_gas =
      Kept-trans a.pre_verification_gas b.pre_verification_gas c.pre_verification_gas
        h.pre_verification_gas k.pre_verification_gas;
  max_fee_per_gas =
      Kept-trans a.max_fee_per_gas b.max_fee_per_gas c.max_fee_per_gas h.max_fee_per_gas
        k.max_fee_per_gas;
  max_priority_fee_per_gas =
      Kept-trans a.max_priority_fee_per_gas b.max_priority_fee_per_gas c.max_priority_fee_per_gas
        h.max_priority_fee_per_gas k.max_priority_fee_per_gas;
  paymaster = Kept-trans a.paymaster b.paymaster c.paymaster h.paymaster k.paymaster;
  paymaster_verification_gas_limit =
      Kept-trans a.paymaster_verification_gas_limit b.paymaster_verification_gas_limit
        c.paymaster_verification_gas_limit h.paymaster_verification_gas_limit
        k.paymaster_verification_gas_limit;
  paymaster_post_op_gas_limit =
      Kept-trans a.paymaster_post_op_gas_limit b.paymaster_post_op_gas_limit
        c.paymaster_post_op_gas_limit h.paymaster_post_op_gas_limit k.paymaster_post_op_gas_limit;
  paymaster_data =
      Kept-trans a.paymaster_data b.paymaster_data c.paymaster_data h.paymaster_data
        k.paymaster_data;
  signature = Kept-trans a.signature b.signature c.signature h.signature k.signature;
}

Kept-Given {ℓ} : {A : Type ℓ} (o p : Option A) (d : A) → Kept o p → Given o (Option.get_or p d)
Kept-Given none p d h = tt
Kept-Given (some v) none d h = cc
Kept-Given (some v) (some w) d h = cc

module _ (e : Ethers) (entry_point : Option EntryPointClient) where
  fill_nonce-Extends :
      (given : Option Str) (op : PartialOp) {r : PartialOp}
      → fill_nonce e entry_point given op ≡ ok r
      → Extends op r
  unfolding fill_nonce
  fill_nonce-Extends given op h = ground (arith, Extends-refl op)

  fill_init_code-Extends :
      (op : PartialOp) (init_code : Option Str) {r : PartialOp}
      → fill_init_code e entry_point op init_code ≡ ok r
      → Extends op r
  unfolding fill_init_code
  fill_init_code-Extends op none h = ground (arith, Extends-refl op)
  fill_init_code-Extends op (some init_code) h = ground (arith, Extends-refl op)

  fill_call_gas-Extends :
      (op : PartialOp) (call_data : Option Str) {r : PartialOp}
      → fill_call_gas e entry_point op call_data ≡ ok r
      → Extends op r
  unfolding fill_call_gas
  fill_call_gas-Extends op none h = ground (arith, Extends-refl op)
  fill_call_gas-Extends op (some _) h = ground (arith, Extends-refl op)

  fill_paymaster-Extends :
      (op : PartialOp) (paymaster : Option Str)
      → Extends op (fill_paymaster e entry_point op paymaster)
  unfolding fill_paymaster
  fill_paymaster-Extends op none = Extends-refl op
  fill_paymaster-Extends op (some _) = ground (arith, Extends-refl op)

  fill_fees-Extends :
      (op : PartialOp) {r : PartialOp} → fill_fees e entry_point op ≡ ok r → Extends op r
  unfolding fill_fees
  fill_fees-Extends op h = ground (arith, Extends-refl op)

-- Only the pre-verification gas is replaced, and only a zero.
fill_pre_verification_gas_lem :
    (e : Ethers) (op : UserOperation) {r : UserOperation}
    → fill_pre_verification_gas e op ≡ ok r
    → (g : ℕ) × (r ≡ record op { pre_verification_gas = g })
      × (op.pre_verification_gas ≢ 0 → g ≡ op.pre_verification_gas)
unfolding fill_pre_verification_gas
fill_pre_verification_gas_lem e op {r} h = (r.pre_verification_gas, ground arith, ground arith)

Given-gas :
    (o p : Option ℕ) (d g : ℕ)
    → Kept o p
    → d ≢ 0
    → (Option.get_or p d ≢ 0 → g ≡ Option.get_or p d)
    → o ≢ some 0
    → Given o g
Given-gas none p d g h nd k ne = tt
Given-gas (some v) none d g h nd k ne = cc
Given-gas (some v) (some w) d g h nd k ne = ground arith

Extends-Honours :
    (e : Ethers) (op b : PartialOp) {r : UserOperation}
    → Extends op b
    → fill_pre_verification_gas e (fill_user_op_defaults b defaults_for_user_op) ≡ ok r
    → Honours op r
unfolding fill_user_op_defaults
Extends-Honours e op b x h =
    let (g, eq, gas) =
      fill_pre_verification_gas_lem e (fill_user_op_defaults b defaults_for_user_op) h in
    subst (Honours op) (sym eq) (record {
      sender = Kept-Given op.sender b.sender defaults_for_user_op.sender x.sender;
      nonce = Kept-Given op.nonce b.nonce defaults_for_user_op.nonce x.nonce;
      init_code = Kept-Given op.init_code b.init_code defaults_for_user_op.init_code x.init_code;
      call_data = Kept-Given op.call_data b.call_data defaults_for_user_op.call_data x.call_data;
      call_gas_limit =
          Kept-Given op.call_gas_limit b.call_gas_limit defaults_for_user_op.call_gas_limit
            x.call_gas_limit;
      verification_gas_limit =
          Kept-Given op.verification_gas_limit b.verification_gas_limit
            defaults_for_user_op.verification_gas_limit x.verification_gas_limit;
      max_fee_per_gas =
          Kept-Given op.max_fee_per_gas b.max_fee_per_gas defaults_for_user_op.max_fee_per_gas
            x.max_fee_per_gas;
      max_priority_fee_per_gas =
          Kept-Given op.max_priority_fee_per_gas b.max_priority_fee_per_gas
            defaults_for_user_op.max_priority_fee_per_gas x.max_priority_fee_per_gas;
      paymaster = Kept-Given op.paymaster b.paymaster defaults_for_user_op.paymaster x.paymaster;
      paymaster_verification_gas_limit =
          Kept-Given op.paymaster_verification_gas_limit b.paymaster_verification_gas_limit
            defaults_for_user_op.paymaster_verification_gas_limit
            x.paymaster_verification_gas_limit;
      paymaster_post_op_gas_limit =
          Kept-Given op.paymaster_post_op_gas_limit b.paymaster_post_op_gas_limit
            defaults_for_user_op.paymaster_post_op_gas_limit x.paymaster_post_op_gas_limit;
      paymaster_data =
          Kept-Given op.paymaster_data b.paymaster_data defaults_for_user_op.paymaster_data
            x.paymaster_data;
      signature = Kept-Given op.signature b.signature defaults_for_user_op.signature x.signature;
      pre_verification_gas =
          Given-gas op.pre_verification_gas b.pre_verification_gas
            defaults_for_user_op.pre_verification_gas g x.pre_verification_gas (omega arith) gas;
    })

module _ (e : Ethers) (entry_point : Option EntryPointClient) where
  -- Whatever the node answers, a filled operation has each key that its caller gave, but for a
  -- `preVerificationGas` of zero.
  pub fill_user_op-Honours :
      (op : PartialOp) {r : UserOperation} → fill_user_op e entry_point op ≡ ok r → Honours op r
  unfolding fill_user_op
  fill_user_op-Honours op h =
      let (op1, h1, k1) = >>=-eq-ok (fill_init_code e entry_point op op.init_code) _ h in
      let (op2, h2, k2) = >>=-eq-ok (fill_nonce e entry_point op.sender op1) _ k1 in
      let (op3, h3, k3) = >>=-eq-ok (fill_call_gas e entry_point op2 op.call_data) _ k2 in
      let (op4, h4, k4) =
        >>=-eq-ok (fill_fees e entry_point (fill_paymaster e entry_point op3 op3.paymaster)) _ k3 in
      Extends-Honours e op op4
        (Extends-trans op op1 op4 (fill_init_code-Extends e entry_point op op.init_code h1) (
          Extends-trans op1 op2 op4 (fill_nonce-Extends e entry_point op.sender op1 h2) (
            Extends-trans op2 op3 op4 (fill_call_gas-Extends e entry_point op2 op.call_data h3) (
              Extends-trans op3 (fill_paymaster e entry_point op3 op3.paymaster) op4
                (fill_paymaster-Extends e entry_point op3 op3.paymaster)
                (fill_fees-Extends e entry_point (fill_paymaster e entry_point op3 op3.paymaster)
                  h4)))))
        k4
