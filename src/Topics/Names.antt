-- ===== src/Topics/Names.antt =====
-- The names of src/ros_node.cpp for topics and services, read back.
use ros_driver_modem.Prelude.{
  ℕ, zero, suc, ◌+◌, ◌*◌, ◌-◌, ◌/◌, ◌%◌, ◌^◌, ◌<◌, ◌≡◌, refl, sym, ap, ◌∙◌, Bool, true, false, [],
  ◌∷◌, ◌++◌, arith, ltb, ◌&&◌, if◌then◌else◌,
}
use ros_driver_modem.Types.{Protocol}
use ros_driver_modem.Topics.{Text, codes, digits, decimal, topic_front, rx_topic, tx_topic}

-- The number that the digits at the front of a text continue.
unfoldable pub read_number : ℕ → Text → ℕ
read_number n [] = n
read_number n (c ∷ cs) =
    let more = read_number (10 * n + (c - 48)) cs in if ltb 47 c && ltb c 58 then more else n

-- The port in a name, after "tcp/" or "udp/".
unfoldable pub port_of : Text → ℕ
port_of (_ ∷ _ ∷ _ ∷ _ ∷ cs) = read_number 0 cs
port_of _ = 0

-- A number below it has at most that many digits.
power_of_ten : ℕ → ℕ
power_of_ten zero = 1
power_of_ten (suc n) = 10 * power_of_ten n

digits-append :
    (fuel n : ℕ) (after rest : Text) → digits fuel n after ++ rest ≡ digits fuel n (after ++ rest)
unfolding digits
digits-append zero n after rest = refl
digits-append (suc fuel) n after rest =
    ground (arith, digits-append fuel (n / 10) ((48 + n % 10) ∷ after) rest)

read_number-digits :
    (fuel n : ℕ) (after : Text)
    → n < power_of_ten fuel
    → read_number 0 (digits fuel n after) ≡ read_number n after
unfolding digits read_number power_of_ten
read_number-digits zero n after h = ground arith
read_number-digits (suc fuel) n after h =
    ground (arith, read_number-digits fuel (n / 10) ((48 + n % 10) ∷ after))

-- The decimal digits of a uint16_t, read back in front of what is no digit.
decimal-read_number :
    (port : ℕ) (cs : Text) → port < 2 ^ 16 → read_number 0 (decimal port ++ 47 ∷ cs) ≡ port
unfolding decimal read_number power_of_ten
decimal-read_number port cs h =
    ap (read_number 0) (digits-append 5 port [] (47 ∷ cs))
    ∙ read_number-digits 5 port (47 ∷ cs) (omega arith)

abbrev pub is_known : Protocol → Bool
is_known Protocol.tcp = true
is_known Protocol.udp = true
is_known (Protocol.unknown _) = false

port_of-rx_topic :
    (type : Protocol) (port : ℕ)
    → is_known type ≡ true
    → port < 2 ^ 16
    → port_of (rx_topic type port) ≡ port
unfolding port_of rx_topic topic_front
port_of-rx_topic Protocol.tcp port e h = decimal-read_number port (codes "rx") h
port_of-rx_topic Protocol.udp port e h = decimal-read_number port (codes "rx") h
port_of-rx_topic (Protocol.unknown _) port e h = cc

port_of-tx_topic :
    (type : Protocol) (port : ℕ)
    → is_known type ≡ true
    → port < 2 ^ 16
    → port_of (tx_topic type port) ≡ port
unfolding port_of tx_topic topic_front
port_of-tx_topic Protocol.tcp port e h = decimal-read_number port (codes "tx") h
port_of-tx_topic Protocol.udp port e h = decimal-read_number port (codes "tx") h
port_of-tx_topic (Protocol.unknown _) port e h = cc

-- The first letter tells the protocol.
initial : Text → ℕ
initial [] = 0
initial (c ∷ cs) = c

rx-protocol :
    (a b : Protocol) (p q : ℕ)
    → is_known a ≡ true
    → is_known b ≡ true
    → rx_topic a p ≡ rx_topic b q
    → a ≡ b
unfolding rx_topic topic_front initial
rx-protocol Protocol.tcp Protocol.tcp p q h k e = refl
rx-protocol Protocol.udp Protocol.udp p q h k e = refl
rx-protocol Protocol.tcp Protocol.udp p q h k e = absurd (omega (arith, ap initial e))
rx-protocol Protocol.udp Protocol.tcp p q h k e = absurd (omega (arith, ap initial e))
rx-protocol (Protocol.unknown _) b p q h k e = cc
rx-protocol Protocol.tcp (Protocol.unknown _) p q h k e = cc
rx-protocol Protocol.udp (Protocol.unknown _) p q h k e = cc

tx-protocol :
    (a b : Protocol) (p q : ℕ)
    → is_known a ≡ true
    → is_known b ≡ true
    → tx_topic a p ≡ tx_topic b q
    → a ≡ b
unfolding tx_topic topic_front initial
tx-protocol Protocol.tcp Protocol.tcp p q h k e = refl
tx-protocol Protocol.udp Protocol.udp p q h k e = refl
tx-protocol Protocol.tcp Protocol.udp p q h k e = absurd (omega (arith, ap initial e))
tx-protocol Protocol.udp Protocol.tcp p q h k e = absurd (omega (arith, ap initial e))
tx-protocol (Protocol.unknown _) b p q h k e = cc
tx-protocol Protocol.tcp (Protocol.unknown _) p q h k e = cc
tx-protocol Protocol.udp (Protocol.unknown _) p q h k e = cc

module _ (a b : Protocol) (p q : ℕ) (known : is_known a ≡ true) (known' : is_known b ≡ true)
    (small : p < 2 ^ 16) (small' : q < 2 ^ 16) where
  -- Two connections, each TCP or UDP and at a port below 2^16, whose rx topics have the same name
  -- have the same protocol and the same port.
  pub rx_topic-injective : rx_topic a p ≡ rx_topic b q → (a ≡ b) × (p ≡ q)
  rx_topic-injective e = (
    rx-protocol a b p q known known' e,
    sym (port_of-rx_topic a p known small) ∙ ap port_of e ∙ port_of-rx_topic b q known' small',
  )

  -- Two connections, each TCP or UDP and at a port below 2^16, whose tx names are the same have
  -- the same protocol and the same port.
  pub tx_topic-injective : tx_topic a p ≡ tx_topic b q → (a ≡ b) × (p ≡ q)
  tx_topic-injective e = (
    tx-protocol a b p q known known' e,
    sym (port_of-tx_topic a p known small) ∙ ap port_of e ∙ port_of-tx_topic b q known' small',
  )
