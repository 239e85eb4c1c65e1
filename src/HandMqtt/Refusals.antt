-- ===== src/HandMqtt/Refusals.antt =====
-- The answers of broker/hand_mqtt.c with a code that is not 0. `loop_read` then returns -1 and the client is
-- removed (broker/event_io.c, 259-261 and 513-515), while the answer is still in its queue.
use mumq.Base.{ℕ}
use mumq.Base.Memory.{Memory}
use mumq.Mqtt.Kind
use mumq.Mqtt.Message.{Message}
use mumq.Broker.{Broker}
use mumq.HandMqtt.{ack_msg}

-- What a CONNECT whose client id has more than 23 bytes leaves, and what is left when the client was
-- removed for it.
abbrev pub refused : ℕ → Broker → Broker
refused i b = ack_msg i Kind.connack 2 2 b
