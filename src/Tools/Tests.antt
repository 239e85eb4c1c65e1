-- ===== src/Tools/Tests.antt =====
-- Seven clients on three threads, and messages of 40 bytes.
use mumq.Base.{
  ◌⊎◌, ℕ, zero, suc, ◌+◌, ◌≤◌, ◌<◌, ◌≡◌, ◌^◌, ◌/◌, ◌%◌, ◌*◌, ◌==◌, refl, ap, ◌∙◌, true, false, none,
  some, List, [], ◌∷◌, ◌++◌, length, drop, All, arith,
}
use mumq.Base.Words.{Bytes}
use mumq.Tools.Load.{Options, launch, launches, shares, id_of}
use mumq.Tools.Load.Shares.{sum, launch-shares}
use mumq.Tools.Load.Ids.{id_of-differs}
use mumq.Tools.Measure.{
  Timeval, no_times, SubStat, no_stat, Totals, connected, ThreadContext, MosquittoVar,
  my_message_callback, print_stats,
}
use mumq.Tools.Measure.Sums.{all_noted, total_of, print_stats-total_of}
use mumq.Tools.Measure.Taken.{Takes}
use mumq.Tools.Measure.Stamped.{my_message_callback-stamp}
use mumq.Tools.Polling.{closes, on_events, readable, message}
use mumq.Tools.Polling.Completed.{reads}
use mumq.Base.Words.{add64}
use mumq.Tools.Publisher.{Publisher, stamp}
use mumq.Tools.Publishing.{PubContext, on_pub_events}
use mumq.Tools.Publishing
use mumq.Tools.Publishing.Completed.{writes}
use mumq.Tools.Publishing.Received.{with_times, on_pub_events-on_events}
use mumq.Tools.Report.{report}
use mumq.Tools.Report.Merged.{Part, Reports, report-flatten}
use mumq.Tools.Thread.{Runner, Turn, run_main}
use mumq.Tools.Thread.Bounded.{AreBounded, run_main-AreBounded}

abbrev options : Options
options = record {
  core_limit = 3;
  total_concurrency = 7;
  topic = some (b'a' ∷ []);
  is_unique = false;
  client_id = none;
  outfile = none;
}

launch-shares_example :
    (c : ℕ) × (concurs : List ℕ) × (launch options ≡ launches c concurs)
    × (sum concurs ≡ options.total_concurrency)
    × (length concurs ≤ options.core_limit)
    × (length concurs ≤ options.total_concurrency)
    × ((length concurs ≡ options.core_limit) ⊎ (length concurs ≡ options.total_concurrency))
    × (1 ≤ c)
    × All (λ m. (c ≤ m) × (m ≤ c + 1)) concurs
launch-shares_example = launch-shares options (b'a' ∷ []) refl (omega arith) (omega arith)

id_of-differs_example :
    (id_of 2 (shares 3 2 1) 0 2 < sum (shares 3 2 1))
    × (id_of 2 (shares 3 2 1) 0 2 ≡ id_of 2 (shares 3 2 1) 2 1 → (zero ≡ 2) × (suc 1 ≡ 1))
unfolding shares
id_of-differs_example =
    id_of-differs 3 2 1 0 2 2 1 (omega arith) (omega arith) (omega arith) (omega arith)
      (omega arith)

abbrev stat : SubStat
stat = record no_stat { connects = 2; rcv_msgs = 5 }

abbrev totals : Totals
totals = record {
  rcv_msgs = 0;
  errors = 0;
  min_rcv_time = 0;
  max_rcv_time = 0;
  total_avg_time = 0;
  acc_connects = 1;
  acc_rcv_msgs = 3;
  acc_completes = 0;
  acc_errors = 0;
}

abbrev stats : List SubStat
stats = stat ∷ stat ∷ []

print_stats-total_of_example :
    ((print_stats stats totals).0.acc_connects
      ≡ totals.acc_connects + total_of (λ st. st.connects) stats)
    × ((print_stats stats totals).0.acc_rcv_msgs
        ≡ totals.acc_rcv_msgs + total_of (λ st. st.rcv_msgs) stats)
    × ((print_stats stats totals).0.acc_completes
        ≡ totals.acc_completes + total_of (λ st. st.completes) stats)
    × ((print_stats stats totals).0.acc_errors
        ≡ totals.acc_errors + total_of (λ st. st.errors) stats)
    × All (λ st. st ≡ no_stat) (print_stats stats totals).1
print_stats-total_of_example =
    print_stats-total_of stats totals (omega arith) (omega arith) (omega arith) (omega arith)

-- A machine that keeps a number in eight places, of which the last has what is left.
abbrev bytes_of : ℕ → Bytes
bytes_of n =
    n % 256
    ∷ n / 256 % 256
    ∷ n / 2 ^ 16 % 256
    ∷ n / 2 ^ 24 % 256
    ∷ n / 2 ^ 32 % 256
    ∷ n / 2 ^ 40 % 256
    ∷ n / 2 ^ 48 % 256
    ∷ n / 2 ^ 56
    ∷ []

abbrev number_of : Bytes → ℕ
number_of (a ∷ b ∷ c ∷ d ∷ e ∷ f ∷ g ∷ h ∷ bs) =
    a + b * 2 ^ 8 + c * 2 ^ 16 + d * 2 ^ 24 + e * 2 ^ 32 + f * 2 ^ 40 + g * 2 ^ 48 + h * 2 ^ 56
number_of _ = 0

abbrev store : Timeval → Bytes
store t = bytes_of t.tv_sec ++ bytes_of t.tv_usec

abbrev load : Bytes → Timeval
load bs = record { tv_sec = number_of bs; tv_usec = number_of (drop 8 bs) }

number-bytes : (n : ℕ) → number_of (bytes_of n) ≡ n
number-bytes n = omega arith

store-length : (t : Timeval) → length (store t) ≡ 16
store-length t = refl

load-store : (t : Timeval) → load (store t) ≡ t
load-store t =
    ap (λ n. record { tv_sec = n; tv_usec = number_of (bytes_of t.tv_usec) })
      (number-bytes t.tv_sec)
    ∙ ap (λ n. record { tv_sec = t.tv_sec; tv_usec = n }) (number-bytes t.tv_usec)

abbrev zeros : ℕ → Bytes
zeros zero = []
zeros (suc n) = 0 ∷ zeros n

abbrev time : ℕ → Timeval
time n = record { tv_sec = 1000; tv_usec = n }

abbrev publisher : Publisher
publisher = record {
  mosq_state = connected;
  msg_count = 0;
  connect_time = time 100;
  is_publish_st = true;
}

abbrev subscriber : MosquittoVar
subscriber = record {
  id = 0;
  topic = b'a' ∷ [];
  mosq_state = connected;
  msg_count = 0;
  is_recv_st = true;
}

abbrev context : ThreadContext
context = record {
  core = 0;
  started = 1;
  done = 0;
  stat = no_stat;
  con_time = no_times;
  rcv_con_time = no_times;
}

my_message_callback-stamp_example :
    (message : Bytes) × (p' : Publisher) × (r : MosquittoVar × ThreadContext) × (stamp store
        (time 500)
        (zeros 40)
        publisher
      ≡ some (message, p'))
    × (my_message_callback load 1 (time 900) message subscriber context ≡ some r)
    × Takes 1 400 800 subscriber context r
my_message_callback-stamp_example =
    my_message_callback-stamp store load store-length load-store (time 500) (time 900) (zeros 40)
      publisher 1 subscriber context (omega arith) refl refl (omega arith, omega arith)
      (omega arith, omega arith) (omega arith, omega arith) (omega arith) (omega arith)

abbrev pub_context : PubContext
pub_context = record {
  core = 0;
  started = 1;
  done = 0;
  payload = zeros 40;
  stat = record { connects = 1; snd_msgs = 0; completes = 0; errors = 0 };
  con_time = no_times;
  published = [];
}

abbrev part : Part
part = record {
  ctx = record context {
    con_time = all_noted (30 ∷ 10 ∷ []) no_times;
    rcv_con_time = all_noted (25 ∷ []) no_times;
  };
  connecting = 30 ∷ 10 ∷ [];
  receiving = 25 ∷ [];
}

report-flatten_example :
    Reports 4 (30 ∷ 10 ∷ 30 ∷ 10 ∷ []) (report 4 (part.ctx ∷ part.ctx ∷ [])).0
    × Reports 4 (25 ∷ 25 ∷ []) (report 4 (part.ctx ∷ part.ctx ∷ [])).1
report-flatten_example =
    report-flatten 4 part (part ∷ []) (omega arith)
      (((omega arith, (omega arith, tt)), refl), (((omega arith, (omega arith, tt)), refl), tt))
      (((omega arith, tt), refl), (((omega arith, tt), refl), tt)) (omega arith) (omega arith)

-- Two clients, the second of which gets no connection.
abbrev runner : Runner
runner = record {
  ctx = record context { started = 0 };
  target = 2;
  slots = [];
  done = false;
  prev_tv = time 0;
  is_first = true;
  exec_stv = none;
  acc_stat = totals;
}

abbrev turn : Turn
turn = record {
  now = record { tv_sec = 1001; tv_usec = 0 };
  printed_at = record { tv_sec = 1001; tv_usec = 1 };
  others = stat ∷ [];
  answers = λ n. record { accepted = n == 1; socketed = true; before = time 10; after = time 20 };
  polled = some ((0, readable (message (time 900) (zeros 40) ∷ []) true) ∷ []);
  signalled = false;
}

run_main-AreBounded_example :
    AreBounded
      (run_main load 1 (λ n. b'0' ∷ []) (b'a' ∷ []) (b's' ∷ []) false 2 (2 ∷ []) (turn ∷ []) runner)
run_main-AreBounded_example =
    run_main-AreBounded load 1 (λ n. b'0' ∷ []) (b'a' ∷ []) (b's' ∷ []) false 2 (2 ∷ []) (turn ∷ [])
      runner refl refl refl

on_pub_events-on_events_example :
    (ms : List Bytes) × (ctx' : PubContext) × (sub' : ThreadContext) × (on_pub_events store 2
        (writes (time 500 ∷ time 600 ∷ []))
        publisher
        pub_context
      ≡ Publishing.closes ctx')
    × (ctx'.published ≡ ms)
    × (ctx'.stat.snd_msgs ≡ 0 + 2)
    × (on_events load 2 (reads (with_times (λ n. time (700 + n)) ms)) subscriber context
        ≡ closes sub')
    × (sub'.stat.rcv_msgs ≡ 0 + 2)
    × (sub'.stat.completes ≡ add64 0 1)
    × (sub'.done ≡ 0 + 1)
on_pub_events-on_events_example =
    on_pub_events-on_events store load store-length 2 (omega arith) (time 500) (time 600 ∷ [])
      publisher pub_context subscriber context (λ n. time (700 + n)) (omega arith) (refl, refl) refl
      (omega arith) (omega arith) (omega arith) (omega arith)
