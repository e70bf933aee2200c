-- ===== src/AutoClaim/Worker/Steps.antt =====
-- The runs of a collection's worker with what other messages do while it waits, and the transactions
-- that go out: rust/facilitator/src/auto_claim.rs.
use ic_facilitator.Prelude.{
  ℕ, ◌≡◌, refl, Bool, List, [], ◌∷◌, Option, some, inl, inr, Checked, ok, if◌then◌else◌,
}
use ic_facilitator.Text.{Text}
use ic_facilitator.Map
use ic_facilitator.Crates.{Message}
use ic_facilitator.State.{State, BatchChannel}
use ic_facilitator.Tx.{Signer}
use ic_facilitator.AutoClaim.{record_monitor_outcall}
use ic_facilitator.AutoClaim.Hooks.{after_update, before_update, before_delete, after_delete}
use ic_facilitator.AutoClaim.Policy.{request_claim, set_enabled}
use ic_facilitator.AutoClaim.Worker.{
  Phase, idle, channel_state, latest_claimed, pending_nonce, fee_quote, gas_estimate, sending,
  receipt, Answers, attempt_of,
}
use ic_facilitator.AutoClaim.Worker.Turn.{turn}
use ic_facilitator.AutoClaim.Worker.Journal.{Journalled, Journalled-same}
use ic_facilitator.AutoClaim.Worker.Turns.{turn-Journalled, resolves}
use ic_facilitator.AutoClaim.Worker.Elsewhere.{
  after_update-attempt_of, after_delete-attempt_of, before_delete-ok,
}
use ic_facilitator.AutoClaim.Worker.Requests.{
  set_enabled-attempt_of, request_claim-attempt_of, record_monitor_outcall-attempt_of,
  before_update-attempt_of,
}

-- What another message does to the state: a reservation or another update of some channel, its
-- deletion, a seller's request or policy, the note of an outcall, or anything that leaves this
-- collection as it is, such as the worker of another one.
pub data Elsewhere (id : Text) (s after : State) : Type 0 where
  reserves :
      (m : Message) (current : Option BatchChannel) (next : BatchChannel) (r : Checked)
      → before_update m current next s ≡ some (r, after)
      → Elsewhere id s after
  updates :
      (m : Message) (current : Option BatchChannel) (next : BatchChannel)
      → after_update m current next s ≡ some after
      → Elsewhere id s after
  deletes :
      (m : Message) (other : Text)
      → before_delete m other s ≡ some (ok tt)
      → after_delete other s ≡ after
      → Elsewhere id s after
  requests :
      (m : Message) (other : Text) → (request_claim m other s).1 ≡ after → Elsewhere id s after
  sets :
      (m : Message) (receiver : Text) (value : Bool) (r : Checked)
      → set_enabled m receiver value s ≡ some (r, after)
      → Elsewhere id s after
  notes :
      (other : Text) (cycles : ℕ)
      → record_monitor_outcall other cycles s ≡ after
      → Elsewhere id s after
  leaves : Map.get id after.collections ≡ Map.get id s.collections → Elsewhere id s after

-- What a step shows outside: a transaction with its nonce goes out, or an attempt is resolved.
pub data Event : Type 0 where
  quiet : Event
  sent : Option Text → Option ℕ → Event
  resolved : Event

abbrev pub sent_by : Phase → Event
sent_by (sending a) = sent a.raw a.nonce
sent_by _ = quiet

abbrev pub event : Answers → Phase → Phase → Event
event answers p q = if resolves answers p then resolved else sent_by q

-- A turn of the worker; its loss, by a trap or an upgrade, with the state as it was; another message.
pub data Step (tools : Signer) (id : Text) (p : Phase) (s : State)
    : Event → Phase → State → Type 0 where
  turns :
      {q : Phase} {after : State} (m : Message) (answers : Answers)
      → turn tools m answers id p s ≡ some (q, after)
      → Step tools id p s (event answers p q) q after
  is_lost : Step tools id p s quiet idle s
  meanwhile : {after : State} → Elsewhere id s after → Step tools id p s quiet p after

pub data Runs (tools : Signer) (id : Text)
    : Phase → State → List Event → Phase → State → Type 0 where
  rests : {p : Phase} {s : State} → Runs tools id p s [] p s
  goes :
      {p q r : Phase} {s t u : State} {e : Event} {events : List Event}
      → Step tools id p s e q t
      → Runs tools id q t events r u
      → Runs tools id p s (e ∷ events) r u

pub Elsewhere-attempt_of :
    (id : Text) (s after : State) → Elsewhere id s after → attempt_of id after ≡ attempt_of id s
Elsewhere-attempt_of id s after (reserves m current next r e) =
    before_update-attempt_of m id current next s after r e
Elsewhere-attempt_of id s after (updates m current next e) =
    after_update-attempt_of m id current next s after e
Elsewhere-attempt_of id s after (deletes m other may e) =
    rw (← e) (after_delete-attempt_of id other s (before_delete-ok m other s may))
Elsewhere-attempt_of id s after (requests m other e) =
    rw (← e) (request_claim-attempt_of m id other s)
Elsewhere-attempt_of id s after (sets m receiver value r e) =
    set_enabled-attempt_of m id receiver value s after r e
Elsewhere-attempt_of id s after (notes other cycles e) =
    rw (← e) (record_monitor_outcall-attempt_of id other cycles s)
Elsewhere-attempt_of id s after (leaves e) = rw e refl

Journalled-idle : (id : Text) (p : Phase) (s : State) → Journalled id p s → Journalled id idle s
Journalled-idle id idle s h = h
Journalled-idle id (channel_state _ _) s h = λ b had. inr (h b had)
Journalled-idle id (latest_claimed _ a) s h =
    λ b had. (let one : a ≡ b = cc in rw (← one) (inl h.1))
Journalled-idle id (pending_nonce _ a) s h = λ b had. (let one : a ≡ b = cc in rw (← one) (inl h.1))
Journalled-idle id (fee_quote _ a _) s h = λ b had. (let one : a ≡ b = cc in rw (← one) (inl h.1))
Journalled-idle id (gas_estimate _ a _ _) s h =
    λ b had. (let one : a ≡ b = cc in rw (← one) (inl h.1))
Journalled-idle id (sending a) s h = λ b had. (let one : a ≡ b = cc in rw (← one) (inr h.1))
Journalled-idle id (receipt _ a) s h = λ b had. (let one : a ≡ b = cc in rw (← one) (inr h.1))

pub Step-Journalled :
    {tools : Signer} {id : Text} {p q : Phase} {s after : State} {e : Event}
    → Step tools id p s e q after
    → Journalled id p s
    → Journalled id q after
Step-Journalled {tools} {id} {p} {q} {s} {after} (turns m answers done) h =
    turn-Journalled tools m answers id p q s after h done
Step-Journalled {id = id} {p = p} {s = s} is_lost h = Journalled-idle id p s h
Step-Journalled {id = id} {p = p} {s = s} {after = after} (meanwhile other) h =
    Journalled-same id p s after (Elsewhere-attempt_of id s after other) h

-- However the turns of the worker, its losses and the other messages follow one another, the phase
-- and the stored attempt agree: an attempt that is being prepared is stored without bytes; an attempt
-- that is sent, or whose receipt is asked for, is stored with its bytes, its nonce and its hash; and
-- one that a worker finds is stored in one of these ways. So nothing goes out that is not stored.
pub Runs-Journalled :
    {tools : Signer} {id : Text} {p q : Phase} {s after : State} {events : List Event}
    → Journalled id p s
    → Runs tools id p s events q after
    → Journalled id q after
Runs-Journalled h rests = h
Runs-Journalled h (goes step rest) = Runs-Journalled (Step-Journalled step h) rest
