-- ===== src/Server/Samples.antt =====
-- A client, and the program before and after it has connected, for the tests.
use opencode_rustquitto.Base.{ℕ, Bool, true, false, some, none, List, [], ◌∷◌, Bytes, arith}
use opencode_rustquitto.Extern.Channel.{one_channel}
use opencode_rustquitto.Extern.DashMap.{DashMap, function_map}
use opencode_rustquitto.Text.{Text}
use opencode_rustquitto.Text.Utf8.{ascii-is_utf8}
use opencode_rustquitto.Protocol.PacketType
use opencode_rustquitto.Protocol.Qos.{at_most_once}
use opencode_rustquitto.Protocol.Types.{ConnectPacket, be_bytes}
use opencode_rustquitto.Protocol.Wire.{prefixed, IsConnect, frame, connect_body}
use opencode_rustquitto.Broker.Session.{Session}
use opencode_rustquitto.Broker.Session
use opencode_rustquitto.Broker.Handlers.{Address, get_session}
use opencode_rustquitto.Broker.Handlers
use opencode_rustquitto.Server.Connection.{Connection, World, connect_session}
use opencode_rustquitto.Server.Tcp.Loop.{Event, received, outgoing, Local}

-- A client with nothing but a name, which wants a clean session.
abbrev pub name : Text
name = b'c' ∷ b'1' ∷ []

abbrev pub mqtt : Text
mqtt = b'M' ∷ b'Q' ∷ b'T' ∷ b'T' ∷ []

abbrev pub login : ConnectPacket
login = record {
  protocol_name = mqtt;
  protocol_level = 4;
  clean_session = true;
  will_flag = false;
  will_qos = some at_most_once;
  will_retain = false;
  username_flag = false;
  password_flag = false;
  keep_alive = 60;
  client_id = name;
  will_topic = none;
  will_message = none;
  username = none;
  password = none;
}

pub login-IsConnect : IsConnect login
unfolding prefixed be_bytes
login-IsConnect = record {
  name = record { fits = omega arith; utf8 = ascii-is_utf8 mqtt (omega arith) };
  level = λ e n. cc;
  keep_alive = omega arith;
  client_id = record { fits = omega arith; utf8 = ascii-is_utf8 name (omega arith) };
  will_topic = tt;
  will_message = tt;
  username = tt;
  password = tt;
  fits = omega arith;
}

abbrev pub sessions : DashMap Address
sessions = function_map ℕ

-- Before the first connection.
abbrev pub unused : Address → Session (Unit {0})
unused = λ a. Session.new tt [] true 0

abbrev pub nobody : World one_channel sessions
nobody = record { broker = Handlers.new sessions unused (true, []); next_address = 0 }

-- The client has connected.
abbrev pub somebody : World one_channel sessions
somebody = (connect_session one_channel sessions false tt login nobody).1

abbrev pub connected : Connection one_channel
connected = record { session = some 0; out_rx = some tt }

abbrev pub local : Bytes → Local one_channel Bytes
local buf = record { buf = buf; conn = connected; written = [] }

-- Every connection logs the client in, writes the answer and comes to its end.
abbrev pub visits : ℕ → List (Bool × Event)
visits i =
    (false, received (frame PacketType.connect 0 (connect_body login)))
    ∷ (false, outgoing none)
    ∷ (false, received [])
    ∷ []
