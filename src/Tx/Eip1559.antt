-- ===== src/Tx/Eip1559.antt =====
-- rust/facilitator/src/tx.rs: the signing of a transaction.
use ic_facilitator.Prelude.{
  ℕ, not, ◌==◌, Option, none, some, List, [], ◌∷◌, ◌++◌, take, drop, is_some, if◌then◌else◌, Result,
  ok, ◌>>=◌, ◌>>◌, ok_or, fail_if,
}
use ic_facilitator.Text.{Text, text}
use ic_facilitator.Crates.{Crates}
use ic_facilitator.Hexutil.{parse_hex, be_bytes_onto}
use ic_facilitator.Tx.{Eip1559Tx, Signer}

-- `append_bytes_trimmed`: the bytes from the first that is not 0.
unfoldable pub trimmed : List ℕ → List ℕ
trimmed [] = []
trimmed (b ∷ bs) = let rest = trimmed bs in if b == 0 then rest else b ∷ bs

-- The item that `append_u128` appends; the empty string is no bytes.
unfoldable pub u128_item : ℕ → List ℕ
unfolding be_bytes_onto
u128_item value = if value == 0 then [] else trimmed (be_bytes_onto 16 value [])

-- The items of `base_tx_stream`; the access list is empty.
unfoldable pub base_items : Eip1559Tx → List (Option (List ℕ))
base_items tx =
    some (u128_item tx.chain_id)
    ∷ some (u128_item tx.nonce)
    ∷ some (u128_item tx.max_priority_fee_per_gas)
    ∷ some (u128_item tx.max_fee_per_gas)
    ∷ some (u128_item tx.gas_limit)
    ∷ some tx.to
    ∷ some (u128_item tx.value)
    ∷ some tx.«data»
    ∷ none
    ∷ []

module _ (tools : Signer) where
  unfoldable pub unsigned_hash : Crates → Eip1559Tx → List ℕ
  unsigned_hash c tx = c.keccak256 (2 ∷ tools.rlp_list (base_items tx))

  -- `r` and `s` are the two halves of the signature.
  unfoldable pub sign_eip1559_tx : Crates → Eip1559Tx → Text → Result Text
  sign_eip1559_tx c tx private_key = do
    key ← parse_hex c private_key (some 32)
    fail_if (not (is_some (c.verifying_point key))) (text "invalid facilitator private key")
    signed ←
        ok_or (tools.sign_prehash key (unsigned_hash c tx)) (text "failed to sign settlement tx")
    ok (
        text "0x"
        ++ c.hex_encode (
            2
            ∷ tools.rlp_list (
                base_items tx
                ++ (some (u128_item signed.1)
                    ∷ some (trimmed (take 32 signed.0))
                    ∷ some (trimmed (drop 32 signed.0))
                    ∷ []))))
