-- ===== src/Tools/Load.antt =====
-- `main` of tools/epsub.c up to the start of the threads, and the numbers that `CreateConnection` gives to
-- the clients; tools/eppub.c has the same lines. `atoi` of the C library and the number of processors are
-- parameters. Options that are negative numbers are not followed.
pub mod Shares
pub mod Ids
use mumq.Base.{
  ℕ, zero, suc, ◌+◌, ◌-◌, ◌*◌, ◌/◌, ◌%◌, Bool, true, false, ◌&&◌, Option, none, some, List, [], ◌∷◌,
  ◌==◌, ltb, if◌then◌else◌, length, get_elem?,
}
use mumq.Base.Strings.{Str, same_str}

pub record Options : Type 0 where
  pub core_limit : ℕ
  pub total_concurrency : ℕ
  pub topic : Option Str
  pub is_unique : Bool
  pub client_id : Option Str
  pub outfile : Option Str

abbrev option : ℕ → Str
option c = b'-' ∷ c ∷ []

abbrev pub max_file_len : ℕ
max_file_len = 128

module _ (atoi : Str → ℕ) (num_cores : ℕ) where
  -- The arguments `argv[i]` and `argv[i + 1]`; `none` is the return of FALSE.
  pub with_option : Str → Str → Options → Option Options
  with_option a v o =
      if same_str a (option b'N')
      then (if ltb num_cores (atoi v) then none else some (record o { core_limit = atoi v }))
      else if same_str a (option b'p')
      then some (record o { total_concurrency = atoi v })
      else if same_str a (option b't')
      then some (record o { topic = some v })
      else if same_str a (option b'u')
      then some (record o { is_unique = true })
      else if same_str a (option b'c')
      then some (record o { client_id = some v })
      else if same_str a (option b'o')
      then (if ltb max_file_len (length v) then none else some (record o { outfile = some v }))
      else some o

  -- `for (i = 3; i < argc - 1; i++)`: the value of an option is read as an option too, and the last
  -- argument is not.
  pub with_options : Str → List Str → Options → Option Options
  unfolding with_option
  with_options a [] o = some o
  with_options a (v ∷ vs) o = elim (with_option a v o) [
    | none ↦ none
    | some o' ↦ with_options v vs o'
  ]

  abbrev pub defaults : Options
  defaults = record {
    core_limit = num_cores;
    total_concurrency = 0;
    topic = none;
    is_unique = false;
    client_id = none;
    outfile = none;
  }

-- `concurs[i]` for each thread, with the countdown of the remainder, which is tested against 0 only.
unfoldable pub shares : ℕ → ℕ → ℕ → List ℕ
shares zero concurrency remainder = []
shares (suc n) concurrency remainder =
    (if ltb 0 remainder then concurrency + 1 else concurrency)
    ∷ shares n concurrency (remainder - 1)

-- The threads start with these shares; or the program returns FALSE; or a number is divided by 0, before
-- the threads start or in the statistics after no thread was started.
pub data Launch : Type 0 where
  launches : (concurrency : ℕ) (concurs : List ℕ) → Launch
  refuses divides_by_zero : Launch

launch_with : Option Str → ℕ → ℕ → Launch
unfolding shares
launch_with none total core_limit = refuses
launch_with (some topic) total core_limit =
    if core_limit == 0
    then divides_by_zero
    else launches (total / core_limit) (shares core_limit (total / core_limit) (total % core_limit))

abbrev pub limited : Options → ℕ
limited o = if ltb o.total_concurrency o.core_limit then o.total_concurrency else o.core_limit

pub launch : Options → Launch
unfolding launch_with
launch o = launch_with o.topic o.total_concurrency (limited o)

-- An array of static storage is 0 where nothing was written.
abbrev or_zero : Option ℕ → ℕ
or_zero none = 0
or_zero (some n) = n

abbrev pub at : List ℕ → ℕ → ℕ
at concurs i = or_zero (get_elem? concurs i)

-- The number of a client of the thread `core` that has started `started` clients; `last` and `own` are the
-- shares of the last thread and of this one.
pub number : ℕ → ℕ → ℕ → ℕ → ℕ → ℕ → ℕ
number concurrency core_limit last own core started =
    if started == concurrency && ltb last own
    then core_limit * last + core
    else core * concurrency + started

pub id_of : ℕ → List ℕ → ℕ → ℕ → ℕ
unfolding number
id_of concurrency concurs core started =
    let core_limit = length concurs in
    number concurrency core_limit (at concurs (core_limit - 1)) (at concurs core) core started
