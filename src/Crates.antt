-- ===== src/Crates.antt =====
-- The crates that the program calls, as a parameter: `hex`, `sha3` (Keccak-256)
-- and `k256`.
use ic_facilitator.Prelude.{
  ℕ, Bool, ◌*◌, ◌<◌, ◌≡◌, Option, some, List, Result, Checked, length, All,
}
use ic_facilitator.Text.{Text, to_ascii_lowercase}

pub record Crates : Type 0 where
  -- `hex::decode`, `none` where it fails; `hex::encode`
  pub hex_decode : Text → Option (List ℕ)
  pub hex_encode : List ℕ → Text
  pub keccak256 : List ℕ → List ℕ
  -- `SigningKey::from_slice` and the uncompressed point of its verifying key, `none` where the
  -- bytes are no key
  pub verifying_point : List ℕ → Option (List ℕ)
  -- whether `Signature::try_from` takes the 64 bytes, and the uncompressed point of the key that
  -- `VerifyingKey::recover_from_prehash` finds for a digest, a signature and a recovery id
  pub signature_bytes : List ℕ → Bool
  pub recover_point : List ℕ → List ℕ → ℕ → Option (List ℕ)

-- What the `hex` crate documents: decoding takes two digits of either case to a byte, and encoding
-- writes lower-case digits.
pub record HexLaws (c : Crates) : Type 0 where
  pub decode-encode : (b : List ℕ) → All (λ x. x < 256) b → c.hex_decode (c.hex_encode b) ≡ some b
  pub encode-decode :
      (s : Text) (b : List ℕ) → c.hex_decode s ≡ some b → c.hex_encode b ≡ to_ascii_lowercase s
  pub decode_bytes : (s : Text) (b : List ℕ) → c.hex_decode s ≡ some b → All (λ x. x < 256) b
  pub length_decode : (s : Text) (b : List ℕ) → c.hex_decode s ≡ some b → length s ≡ 2 * length b

-- What one message to the canister brings with it: the crates, the time in nanoseconds, the caller
-- whether it is a controller, the canister's own environment variables and the answer of its SQL
-- tables.
pub record Message : Type 0 where
  pub crates : Crates
  pub time : ℕ
  pub caller : Text
  pub is_controller : Bool
  pub env_var_name_exists : Text → Bool
  pub env_var_value : Text → Text
  -- the answer of the SQLite tables: whether the scope of this writer for this receiver is enabled
  -- and the seller active, or the error of the query
  pub scope_query : Text → Text → Result Bool
  -- whether the seller has accepted the current documents, and whether any writer has a scope
  pub seller_accepted : Text → Bool
  pub writer_scope_configured : Checked
