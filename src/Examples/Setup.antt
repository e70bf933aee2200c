-- ===== src/Examples/Setup.antt =====
-- A concrete `hex` crate, a message and some records to run the definitions on.
use ic_facilitator.Prelude.{
  ℕ, ◌+◌, ◌-◌, ◌*◌, ◌/◌, ◌%◌, true, false, ◌&&◌, Option, none, some, List, [], ◌∷◌, leb, ltb,
  if◌then◌else◌, replicate, ok,
}
use ic_facilitator.Text.{Text, text}
use ic_facilitator.Map.{Map}
use ic_facilitator.Crates.{Crates, Message}
use ic_facilitator.State.{State, SellerCredit, SettleResponse, SettlementRecord}

abbrev hex_digit : ℕ → Option ℕ
hex_digit c =
    if leb 48 c && leb c 57
    then some (c - 48)
    else if leb 97 c && leb c 102
    then some (c - 87)
    else if leb 65 c && leb c 70
    then some (c - 55)
    else none

abbrev pair_up : Option ℕ → Option ℕ → Option (List ℕ) → Option (List ℕ)
pair_up none b rest = none
pair_up (some a) none rest = none
pair_up (some a) (some b) none = none
pair_up (some a) (some b) (some rest) = some ((a * 16 + b) ∷ rest)

abbrev hex_decode : Text → Option (List ℕ)
hex_decode [] = some []
hex_decode (a ∷ []) = none
hex_decode (a ∷ b ∷ s) = pair_up (hex_digit a) (hex_digit b) (hex_decode s)

abbrev hex_char : ℕ → ℕ
hex_char n = if ltb n 10 then 48 + n else 87 + n

abbrev hex_encode : List ℕ → Text
hex_encode [] = []
hex_encode (b ∷ bs) = hex_char (b / 16) ∷ hex_char (b % 16) ∷ hex_encode bs

-- Any function of the right type does for the hash and the curve.
abbrev pub crates : Crates
crates = record {
  hex_decode = hex_decode;
  hex_encode = hex_encode;
  keccak256 = λ b. replicate 32 7;
  verifying_point = λ b. some (replicate 65 4);
  signature_bytes = λ b. true;
  recover_point = λ d s v. some (replicate 65 4);
}

abbrev pub message : Message
message = record {
  crates = crates;
  time = 1_700_000_000_000_000_000;
  caller = text "writer";
  is_controller = true;
  env_var_name_exists = λ name. false;
  env_var_value = λ name. [];
  scope_query = λ writer receiver. ok true;
  seller_accepted = λ seller. true;
  writer_scope_configured = ok tt;
}

abbrev pub seller : Text
seller = text "0x1000000000000000000000000000000000000402"

abbrev pub buyer : Text
buyer = text "0x2000000000000000000000000000000000000402"

abbrev pub credits : Map SellerCredit
credits = (seller, record { credit_atoms = 100; updated_at = 0 }) ∷ []

abbrev pub response : SettleResponse
response = record {
  success = false;
  transaction = text "";
  network = text "eip155:137";
  payer = some buyer;
  amount = some (text "5");
  error_reason = none;
  error_message = none;
  extra = none;
  extra_json = none;
}

-- A settlement whose attempt was cut off 1,000 seconds before the message.
abbrev pub stale : SettlementRecord
stale = record {
  status = text "checking";
  response = response;
  pay_to = some seller;
  batch_pre_refund_snapshot = none;
  settlement_kind = some (text "exact");
  charged_fee = some (text "30");
  attempt_started_at = some 1_699_999_000;
  target_total_claimed = none;
  created_at = 1_699_999_000;
  updated_at = 1_699_999_000;
  expires_at = 1_700_085_400;
}

abbrev pub state : State
state = record {
  env = [];
  settlements = (text "k", stale) ∷ [];
  seller_credits = credits;
  credited_settlements = [];
  active_settlements = (text "scope", record { key = text "k"; nonce = none; tx = none }) ∷ [];
  nonces = [];
  batch_channels = [];
  batch_deleted_channels = [];
  seller_settlement_index = [];
  policies = [];
  collections = [];
  due = [];
}
