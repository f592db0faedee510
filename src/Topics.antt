-- ===== src/Topics.antt =====
-- The names of the topics and services of a connection, as src/ros_node.cpp and
-- src/modem_interface.cpp build them with a stringstream. A text is the list of its codes.
pub mod Names
use Prim.Native.Char.{code}
use Prim.Native.String.{String}
use ros_driver_modem.Prelude.{ℕ, zero, suc, ◌+◌, ◌/◌, ◌%◌, List, [], ◌∷◌, ◌++◌, ◌==◌, if◌then◌else◌}
use ros_driver_modem.Types.{Protocol}

abbrev pub Text : Type 0
Text = List ℕ

abbrev pub codes : String → Text
codes String.[] = []
codes (String.◌∷◌ c s) = code c ∷ codes s

-- `<<` on an unsigned number: its decimal digits, at most as many as the fuel.
unfoldable pub digits : ℕ → ℕ → Text → Text
digits zero n after = after
digits (suc fuel) n after =
    let more = digits fuel (n / 10) ((48 + n % 10) ∷ after) in
    if n / 10 == 0 then (48 + n % 10) ∷ after else more

-- Five digits are enough for a uint16_t.
unfoldable pub decimal : ℕ → Text
unfolding digits
decimal n = digits 5 n []

-- "tcp/PORT" and "udp/PORT".
unfoldable pub topic_front : Protocol → ℕ → Text
unfolding decimal
topic_front Protocol.tcp port = codes "tcp/" ++ decimal port
topic_front Protocol.udp port = codes "udp/" ++ decimal port
topic_front (Protocol.unknown _) port = []

unfoldable pub rx_topic : Protocol → ℕ → Text
unfolding topic_front
rx_topic type port = topic_front type port ++ codes "/rx"

unfoldable pub tx_topic : Protocol → ℕ → Text
unfolding topic_front
tx_topic type port = topic_front type port ++ codes "/tx"
