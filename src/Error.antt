-- ===== src/Error.antt =====
-- src/error.rs: the error type of the broker and its `Result`. Where the program formats a
-- message with `format!`, the model keeps one constructor for each message, with the values that
-- are formatted into it. `io` stands for the wrapped `std::io::Error` by its code.
use opencode_rustquitto.Text.{Text}
use opencode_rustquitto.Protocol.PacketType.{PacketType}
use opencode_rustquitto.Base.{ℕ, ◌≡◌, refl, Option, none, some, ◌⊎◌, inl, inr}

pub data Message : Type 0 where
  unexpected_end malformed_length length_too_large buffer_exhausted too_short_for_u16 : Message
  too_short : ℕ → ℕ → Message
  invalid_utf8 invalid_utf8_protocol_name : Message
  unknown_packet_type invalid_qos invalid_subscribe_qos : ℕ → Message
  reserved_bit_set will_qos_invalid no_subscriptions no_topics : Message
  incomplete_packet : ℕ → ℕ → Message
  server_received cannot_encode : PacketType → Message
  packet_id_required : Message
  failed_to_bind_tcp failed_to_bind_ws : Text → ℕ → ℕ → Message
  web_socket_server_error : ℕ → Message

-- `stuck` is no Rust value: a loop of the model ran out of fuel.
pub data BrokerError : Type 0 where
  io : ℕ → BrokerError
  protocol decoding encoding config : Message → BrokerError
  stuck : BrokerError

pub data Result {ℓ} (A : Type ℓ) : Type ℓ where
  ok : A → Result A
  err : BrokerError → Result A

-- The operator `?`, with the code behind it as a continuation.
infixl 5 ◌>>=◌ ◌>>◌
abbrev pub ◌>>=◌ {ℓ κ} : {T : Type ℓ} {U : Type κ} → Result T → (T → Result U) → Result U
err e >>= next = err e
ok value >>= next = next value

-- A check whose value is not used.
abbrev pub ◌>>◌ {ℓ} : {U : Type ℓ} → Result (Unit {0}) → Result U → Result U
check >> next = check >>= λ done. next

-- `Option::ok_or_else`
abbrev pub ok_or {ℓ} : {A : Type ℓ} → Option A → BrokerError → Result A
ok_or none e = err e
ok_or (some a) e = ok a

module _ {ℓ} {A : Type ℓ} where
  pub Result-cases : (r : Result A) → ((a : A) × (r ≡ ok a)) ⊎ ((e : BrokerError) × (r ≡ err e))
  Result-cases (ok a) = inl (a, refl)
  Result-cases (err e) = inr (e, refl)
