-- ===== src/Tx.antt =====
-- rust/facilitator/src/tx.rs: transactions, calldata and signatures. The records are those of
-- tx.rs, batch.rs and types.rs.
pub mod Abi
pub mod Typed
pub mod Calls
pub mod Eip1559
pub mod Reading
pub mod Arrays
use ic_facilitator.Prelude.{ℕ, Option, List}
use ic_facilitator.Text.{Text}
use ic_facilitator.State.{BatchChannelConfig}
use ic_facilitator.Batch.Voucher.{BatchVoucher}

pub record Eip1559Tx : Type 0 where
  pub nonce : ℕ
  pub max_priority_fee_per_gas : ℕ
  pub max_fee_per_gas : ℕ
  pub gas_limit : ℕ
  pub to : List ℕ
  pub value : ℕ
  pub «data» : List ℕ
  pub chain_id : ℕ

pub record BatchClaimVoucher : Type 0 where
  pub channel : BatchChannelConfig
  pub max_claimable_amount : Text

pub record BatchVoucherClaim : Type 0 where
  pub voucher : BatchClaimVoucher
  pub signature : Text
  pub total_claimed : Text

pub record BatchErc3009Authorization : Type 0 where
  pub valid_after : Text
  pub valid_before : Text
  pub salt : Text
  pub signature : Text

pub record BatchDepositAuthorization : Type 0 where
  pub erc3009_authorization : Option BatchErc3009Authorization

pub record BatchDeposit : Type 0 where
  pub amount : Text
  pub authorization : BatchDepositAuthorization

pub record BatchRequestPayload : Type 0 where
  pub kind : Text
  pub channel_config : Option BatchChannelConfig
  pub voucher : Option BatchVoucher
  pub deposit : Option BatchDeposit
  pub amount : Option Text
  pub refund_nonce : Option Text
  pub claims : Option (List BatchVoucherClaim)
  pub receiver : Option Text
  pub token : Option Text
  pub claim_authorizer_signature : Option Text
  pub refund_authorizer_signature : Option Text

-- `SigningKey::sign_prehash` for the key's bytes and a digest: the 64 bytes of the signature and the
-- recovery id, `none` where it fails; and the bytes of an `RlpStream`, a list whose items are byte
-- strings or, for `none`, empty lists.
pub record Signer : Type 0 where
  pub sign_prehash : List ℕ → List ℕ → Option (List ℕ × ℕ)
  pub rlp_list : List (Option (List ℕ)) → List ℕ
