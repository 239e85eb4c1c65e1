-- ===== src/Tools/Publisher.antt =====
-- What the publisher tool puts into its messages and counts: `my_publish_callback` and the branch for a socket
-- that can be written in `RunMain` of tools/eppub.c. What the library mosquitto does is an argument.
use mumq.Base.{
  ℕ, ◌+◌, ◌*◌, ◌%◌, ◌^◌, Bool, false, Option, none, some, ◌++◌, ltb, if◌then◌else◌, length, take,
  drop,
}
use mumq.Base.Words.{Bytes, add64}
use mumq.Tools.Measure.{Timeval, timeval_size, MosquittoState, will_disconnect}

pub record Publisher : Type 0 where
  pub mosq_state : MosquittoState
  pub msg_count : ℕ
  pub connect_time : Timeval
  pub is_publish_st : Bool

pub record PubStat : Type 0 where
  pub connects : ℕ
  pub snd_msgs : ℕ
  pub completes : ℕ
  pub errors : ℕ

unfoldable pub my_publish_callback : ℕ → Publisher → PubStat → Publisher × PubStat
my_publish_callback flows_per_con v st =
    let v' = record v { msg_count = (v.msg_count + 1) % 2 ^ 32 } in
    let st' = record st { snd_msgs = add64 st.snd_msgs 1 } in
    if ltb v'.msg_count flows_per_con then (v', st') else (
      record v' { mosq_state = will_disconnect },
      record st' { completes = add64 st'.completes 1 },
    )

-- `memcpy` to `block + start`.
abbrev pub write_at : ℕ → Bytes → Bytes → Bytes
write_at start bs block = take start block ++ (bs ++ drop (start + length bs) block)

-- How the machine keeps a `struct timeval` in 16 bytes.
module _ (store : Timeval → Bytes) where
  -- `none` is a write past the payload.
  unfoldable pub stamp : Timeval → Bytes → Publisher → Option (Bytes × Publisher)
  stamp now payload v =
      if ltb (length payload) timeval_size
      then none
      else if v.is_publish_st
      then (if ltb (length payload) (2 * timeval_size)
          then none
          else some (
            write_at timeval_size (store v.connect_time) (write_at 0 (store now) payload),
            record v { is_publish_st = false },
          ))
      else some (write_at 0 (store now) payload, v)
