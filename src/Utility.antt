-- ===== src/Utility.antt =====
-- The tests on topics of broker/utility.c. `write_log` and `print_hex` only print.
pub mod Topics
mod Tests
use mumq.Base.{ℕ, ◌+◌, Bool, true, false, not, ◌&&◌, ◌||◌, [], ◌∷◌, ◌==◌, leb, if◌then◌else◌}
use mumq.Base.Strings.{Str, char_at}

-- `len` characters have been read. A text of more than 65535 characters is refused at its end.
pub pub_loop : ℕ → Str → Bool
pub_loop len [] = leb len 65535
pub_loop len (c ∷ s) =
    let rest = pub_loop (len + 1) s in if c == b'+' || c == b'#' then false else rest

unfoldable pub pub_topic_valid : Str → Bool
unfolding pub_loop
pub_topic_valid str = pub_loop 0 str

-- `(c != '\0' && c != '/') || (str[1] != '\0' && str[1] != '/')`
abbrev pub bad_plus : ℕ → Str → Bool
bad_plus c s =
    not (c == 0) && not (c == b'/') || not (char_at s 0 == 0) && not (char_at s 0 == b'/')

-- `(c != '\0' && c != '/') || str[1] != '\0'`
abbrev pub bad_hash : ℕ → Str → Bool
bad_hash c s = not (c == 0) && not (c == b'/') || not (char_at s 0 == 0)

-- `c` is the character before, or 0 at the start.
pub sub_loop : ℕ → ℕ → Str → Bool
sub_loop len c [] = leb len 65535
sub_loop len c (x ∷ s) =
    let rest = sub_loop (len + 1) x s in
    if x == b'+'
    then (if bad_plus c s then false else rest)
    else if x == b'#'
    then (if bad_hash c s then false else rest)
    else rest

unfoldable pub sub_topic_valid : Str → Bool
unfolding sub_loop
sub_topic_valid str = sub_loop 0 0 str
