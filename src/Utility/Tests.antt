-- ===== src/Utility/Tests.antt =====
-- The tests on topics at concrete inputs.
use mumq.Base.{◌≡◌, ◌↔◌, refl, true, [], ◌∷◌, length, ◌≤◌}
use mumq.Base.Strings.{Str, IsStr}
use mumq.Substree.Tokens.Levels.{levels}
use mumq.Utility.{pub_topic_valid, sub_topic_valid}
use mumq.Utility.Topics.{IsWord, IsFilter, pub_topic_valid_iff, sub_topic_valid-IsFilter}

abbrev word : Str
word = b'a' ∷ b'/' ∷ b'b' ∷ []

abbrev filter : Str
filter = b'+' ∷ b'/' ∷ b'#' ∷ []

filter-IsStr : IsStr filter
filter-IsStr = (λ e. cc, (λ e. cc, (λ e. cc, tt)))

word_valid : pub_topic_valid word ≡ true
unfolding pub_topic_valid
word_valid = refl

filter_valid : sub_topic_valid filter ≡ true
unfolding sub_topic_valid
filter_valid = refl

pub_topic_valid_iff_example : (pub_topic_valid word ≡ true) ↔ (IsWord word × (length word ≤ 65535))
pub_topic_valid_iff_example = pub_topic_valid_iff word

sub_topic_valid-IsFilter_example : IsFilter (levels filter)
sub_topic_valid-IsFilter_example = sub_topic_valid-IsFilter filter filter-IsStr filter_valid
