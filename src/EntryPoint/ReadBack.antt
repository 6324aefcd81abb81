-- ===== src/EntryPoint/ReadBack.antt =====
-- The contract reads from a packed user operation what the tooling packed: `packUserOp` of
-- test/UserOp.ts against `_copyUserOpToMemory` of contracts/core/EntryPoint.sol.
use falcon_smart_account.Prelude.{
  ℕ, ◌^◌, ◌<◌, ◌≤◌, ◌≡◌, refl, ap, ap₂, ◌∙◌, Bool-cases, inl, inr, List, [], ◌++◌, sym,
  append_assoc, arith, length, length-append, drop, take-append, drop-append, AllBytes,
  if◌then◌else◌, All-append, le→leb, lt→ltb,
}
use falcon_smart_account.Prelude.Digits.{
  be_bytes, be_value, be_bytes-AllBytes, be_value-be_bytes, be_value-append, length-be_bytes,
}
use falcon_smart_account.Outcome.{ok, ◌>>=◌}
use falcon_smart_account.Ethers.{Ethers}
use falcon_smart_account.UserOp.Types.{UserOperation, PackedUserOperation}
use falcon_smart_account.UserOp.Pack.{has_paymaster, pack_user_op}
use falcon_smart_account.UserOp.RoundTrip.{two_words, two_words-AllBytes}
use falcon_smart_account.UserOp.Bytes.{
  IsPackable, paymaster_and_data_bytes, packed_bytes, pack_user_op-paymaster,
  pack_user_op-no_paymaster,
}
use falcon_smart_account.EntryPoint.Memory.{
  CalldataUserOp, MemoryUserOp, unpack_uints, unpack_paymaster_static_fields, paymaster_fields,
  memory_op, copy_user_op_to_memory,
}

value_be_bytes : (k n : ℕ) → n < 256 ^ k → be_value 0 (be_bytes k n) ≡ n
value_be_bytes k n h = omega (arith, be_value-be_bytes k n 0 h)

pub unpack_uints-two_words :
    (high low : ℕ)
    → high < 2 ^ 128
    → low < 2 ^ 128
    → unpack_uints (two_words high low) ≡ (high, low)
unfolding unpack_uints
unpack_uints-two_words high low h l =
    ap₂ (λ (a b : ℕ). (a, b))
      (ap (be_value 0)
          (take-append 16 (be_bytes 16 high) (be_bytes 16 low) (length-be_bytes 16 high))
        ∙ value_be_bytes 16 high h)
      (omega (
        arith,
        be_value-append 0 (be_bytes 16 high) (be_bytes 16 low),
        value_be_bytes 16 high h,
        be_value-be_bytes 16 low (be_value 0 (be_bytes 16 high)) l,
      ))

-- What the contract gets for the strings of a packed operation: their bytes.
abbrev pub calldata_of : Ethers → PackedUserOperation → CalldataUserOp
calldata_of e p = record {
  sender = be_value 0 (e.arrayify p.sender);
  nonce = p.nonce;
  init_code = e.arrayify p.init_code;
  call_data = e.arrayify p.call_data;
  account_gas_limits = e.arrayify p.account_gas_limits;
  pre_verification_gas = p.pre_verification_gas;
  gas_fees = e.arrayify p.gas_fees;
  paymaster_and_data = e.arrayify p.paymaster_and_data;
  signature = e.arrayify p.signature;
}

-- The fields of the operation, with a paymaster or with none.
abbrev pub fields_of : Ethers → UserOperation → ℕ × ℕ × ℕ → MemoryUserOp
fields_of e op (paymaster, verification, post_op) = record {
  sender = be_value 0 (e.arrayify op.sender);
  nonce = op.nonce;
  verification_gas_limit = op.verification_gas_limit;
  call_gas_limit = op.call_gas_limit;
  paymaster_verification_gas_limit = verification;
  paymaster_post_op_gas_limit = post_op;
  pre_verification_gas = op.pre_verification_gas;
  paymaster = paymaster;
  max_fee_per_gas = op.max_fee_per_gas;
  max_priority_fee_per_gas = op.max_priority_fee_per_gas;
}

-- The contract cuts its three static fields out of the bytes, whatever follows them.
static_fields :
    (a b c rest : List ℕ)
    → length a ≡ 20
    → length b ≡ 16
    → length c ≡ 16
    → paymaster_fields (a ++ (b ++ (c ++ rest))) ≡ ok (be_value 0 a, be_value 0 b, be_value 0 c)
unfolding paymaster_fields unpack_paymaster_static_fields
static_fields a b c rest ha hb hc = rw (
  lt→ltb 0 (length (a ++ (b ++ (c ++ rest)))) (long 1 (omega arith)),
  le→leb 52 (length (a ++ (b ++ (c ++ rest)))) (long 52 (omega arith)),
  take-append 20 a (b ++ (c ++ rest)) ha,
  drop-append 20 a (b ++ (c ++ rest)) ha,
  take-append 16 b (c ++ rest) hb,
  after,
  take-append 16 c rest hc,
)
  where
    long : (k : ℕ) → k ≤ 52 → k ≤ length (a ++ (b ++ (c ++ rest)))
    long k le = omega (
      arith,
      length-append a (b ++ (c ++ rest)),
      length-append b (c ++ rest),
      length-append c rest,
    )

    after : drop 36 (a ++ (b ++ (c ++ rest))) ≡ c ++ rest
    after =
        ap (drop 36) (sym (append_assoc a b (c ++ rest)))
        ∙ drop-append 36 (a ++ b) (c ++ rest) (omega (arith, length-append a b))

paymaster_fields-bytes :
    (op : UserOperation) (paymaster rest : List ℕ)
    → IsPackable op paymaster rest
    → paymaster_fields (paymaster_and_data_bytes op paymaster rest)
      ≡ ok (
        be_value 0 paymaster,
        op.paymaster_verification_gas_limit,
        op.paymaster_post_op_gas_limit,
      )
paymaster_fields-bytes op paymaster rest h = rw (
  static_fields paymaster (be_bytes 16 op.paymaster_verification_gas_limit)
      (be_bytes 16 op.paymaster_post_op_gas_limit) rest h.paymaster_length
      (length-be_bytes 16 op.paymaster_verification_gas_limit)
      (length-be_bytes 16 op.paymaster_post_op_gas_limit),
  value_be_bytes 16 op.paymaster_verification_gas_limit h.paymaster_verification_gas,
  value_be_bytes 16 op.paymaster_post_op_gas_limit h.post_op_gas,
)

module _ (e : Ethers) (op : UserOperation) (paymaster rest : List ℕ) where
  memory_op-packed :
      (d : List ℕ) (fields : ℕ × ℕ × ℕ)
      → IsPackable op paymaster rest
      → memory_op (calldata_of e (packed_bytes op d)) fields ≡ fields_of e op fields
  unfolding memory_op
  memory_op-packed d fields h = rw (
    e.arrayify_data (two_words op.verification_gas_limit op.call_gas_limit) (
        two_words-AllBytes op.verification_gas_limit op.call_gas_limit h.verification_gas
          h.call_gas),
    e.arrayify_data (two_words op.max_priority_fee_per_gas op.max_fee_per_gas) (
        two_words-AllBytes op.max_priority_fee_per_gas op.max_fee_per_gas h.priority_fee h.max_fee),
    unpack_uints-two_words op.verification_gas_limit op.call_gas_limit h.verification_gas
        h.call_gas,
    unpack_uints-two_words op.max_priority_fee_per_gas op.max_fee_per_gas h.priority_fee h.max_fee,
  )

  copy-packed :
      (d : List ℕ) (fields : ℕ × ℕ × ℕ)
      → IsPackable op paymaster rest
      → AllBytes d
      → paymaster_fields d ≡ ok fields
      → copy_user_op_to_memory (calldata_of e (packed_bytes op d)) ≡ ok (fields_of e op fields)
  unfolding copy_user_op_to_memory memory_op
  copy-packed d fields h bytes eq =
      rw (e.arrayify_data d bytes, eq, ◌>>=◌) (ap ok (memory_op-packed d fields h))

  paymaster_bytes-AllBytes :
      IsPackable op paymaster rest → AllBytes (paymaster_and_data_bytes op paymaster rest)
  paymaster_bytes-AllBytes h = All-append _ paymaster _ h.paymaster_bytes (
      All-append _ (be_bytes 16 op.paymaster_verification_gas_limit) _
        (be_bytes-AllBytes 16 op.paymaster_verification_gas_limit h.paymaster_verification_gas)
        (All-append _ (be_bytes 16 op.paymaster_post_op_gas_limit) rest
          (be_bytes-AllBytes 16 op.paymaster_post_op_gas_limit h.post_op_gas) h.rest_bytes))

  -- For an operation whose four gas limits and two fees are below 2^128, whose paymaster is the
  -- lower-case hexadecimal text of 20 bytes and whose paymaster data is such a text of any bytes, the
  -- contract reads from the packed operation the limits, fees, nonce and sender that the operation
  -- has, and its paymaster fields, which are zeros if the paymaster is the zero address.
  pub copy-pack_user_op :
      IsPackable op paymaster rest
      → (pack_user_op e op >>= λ p. copy_user_op_to_memory (calldata_of e p))
        ≡ ok (
            fields_of e op (
              if has_paymaster e op
              then (
                be_value 0 paymaster,
                op.paymaster_verification_gas_limit,
                op.paymaster_post_op_gas_limit,
              )
              else (0, 0, 0)))
  copy-pack_user_op h = elim (Bool-cases (has_paymaster e op)) [
    | inl has ↦
        rw (pack_user_op-paymaster e op paymaster rest h has, has)
          (copy-packed _ _ h (paymaster_bytes-AllBytes h)
            (paymaster_fields-bytes op paymaster rest h))
    | inr has ↦
        rw (pack_user_op-no_paymaster e op paymaster rest h has, has)
          (copy-packed [] (0, 0, 0) h tt (unfold paymaster_fields in refl))
  ]
