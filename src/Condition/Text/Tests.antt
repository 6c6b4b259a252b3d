-- ===== src/Condition/Text/Tests.antt =====
-- Patterns on concrete texts: names of files that end in ".txt", in any case.
use project_trans.Base.{ℕ, ◌+◌, ◌≡◌, refl, arith, leb, if◌then◌else◌, Bool, true, false, not, ◌&&◌}
use project_trans.Base.{some, List, [], ◌∷◌}
use project_trans.Condition.Text.{
  WildcardText, new, set_case_sensitive, set_front_context_length, suffix_match, is_match,
  is_all_match, match_by, equal_loop, get_matched_texts,
}
use project_trans.Condition.Text.Match.{Matches}
use project_trans.Condition.Text.Answers.{Answers}
use project_trans.Condition.Text.Verdict.{is_match-Matches}

abbrev lower : ℕ → ℕ
lower c = if leb 65 c && leb c 90 then c + 32 else c

-- ".TXT", "a.txt" and "txt"
abbrev upper_txt : List ℕ
upper_txt = 46 ∷ 84 ∷ 88 ∷ 84 ∷ []

abbrev a_txt : List ℕ
a_txt = 97 ∷ 46 ∷ 116 ∷ 120 ∷ 116 ∷ []

abbrev txt : List ℕ
txt = 116 ∷ 120 ∷ 116 ∷ []

abbrev any_txt : WildcardText
any_txt =
    set_front_context_length (some 1) (set_case_sensitive false (new upper_txt suffix_match true))

abbrev no_txt : WildcardText
no_txt = new upper_txt suffix_match false

matched : get_matched_texts lower any_txt (a_txt ∷ txt ∷ upper_txt ∷ []) ≡ some (a_txt ∷ [])
unfolding get_matched_texts is_match is_all_match match_by equal_loop
matched = refl

excluded : get_matched_texts lower no_txt (a_txt ∷ upper_txt ∷ []) ≡ some (a_txt ∷ [])
unfolding get_matched_texts is_match is_all_match match_by equal_loop
excluded = refl

is_match-Matches_example :
    (b : Bool) × (is_match lower any_txt a_txt
      ≡ some (if any_txt.is_included_rule then b else not b))
    × Answers b (Matches lower any_txt a_txt)
is_match-Matches_example = is_match-Matches lower any_txt a_txt (omega arith) tt (omega arith)
