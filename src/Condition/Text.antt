-- ===== src/Condition/Text.antt =====
-- `WildcardText` of common/source/danejoe/condition/wildcard_text.cpp. A text is the list of its
-- characters, as numbers; `std::tolower`, which depends on the locale, is a parameter. An exception is
-- `none`.
pub mod Compare
pub mod Match
pub mod Answers
pub mod Verdict
mod Tests
use project_trans.Base.{
  ℕ, suc, ◌+◌, ◌-◌, ◌%◌, ◌^◌, ltb, leb, ◌==◌, if◌then◌else◌, Bool, true, false, not, ◌&&◌, Option,
  none,
}
use project_trans.Base.{some, List, [], ◌∷◌, length, take, drop}

pub data MatchPattern : Type 0 where
  exact_match partial_match prefix_match suffix_match regex_match unknown : MatchPattern

pub record WildcardText : Type 0 where
  pub is_included_rule : Bool
  pub is_case_sensitive : Bool
  pub match_pattern : MatchPattern
  pub text : List ℕ
  pub max_length : Option ℕ
  pub min_length : Option ℕ
  pub front_context_length : Option ℕ
  pub back_context_length : Option ℕ

abbrev pub new : List ℕ → MatchPattern → Bool → WildcardText
new text pattern is_included = record {
  is_included_rule = is_included;
  is_case_sensitive = true;
  match_pattern = pattern;
  text = text;
  max_length = none;
  min_length = none;
  front_context_length = none;
  back_context_length = none;
}

abbrev pub set_matched_length : Option ℕ → Option ℕ → WildcardText → WildcardText
set_matched_length low high t = record t { min_length = low; max_length = high }

abbrev pub set_front_context_length : Option ℕ → WildcardText → WildcardText
set_front_context_length n t = record t { front_context_length = n }

abbrev pub set_back_context_length : Option ℕ → WildcardText → WildcardText
set_back_context_length n t = record t { back_context_length = n }

abbrev pub set_case_sensitive : Bool → WildcardText → WildcardText
set_case_sensitive b t = record t { is_case_sensitive = b }

-- `substr(pos)` and `substr(0, count)` of the standard library; the first throws behind the end.
abbrev pub substr_from : ℕ → List ℕ → Option (List ℕ)
substr_from pos text = if ltb (length text) pos then none else some (drop pos text)

-- `a - b` of `std::size_t`.
abbrev pub size_sub : ℕ → ℕ → ℕ
size_sub a b = (a + (2 ^ 64 - b)) % 2 ^ 64

-- Does the text start with the other? `find` looks for the first place where it does.
abbrev pub starts_with : List ℕ → List ℕ → Bool
starts_with text [] = true
starts_with [] (c ∷ cs) = false
starts_with (b ∷ bs) (c ∷ cs) = (b == c) && starts_with bs cs

unfoldable pub find_part : List ℕ → List ℕ → Option ℕ
find_part [] part = if starts_with [] part then some 0 else none
find_part (c ∷ cs) part =
    let rest = find_part cs part in
    if starts_with (c ∷ cs) part then some 0 else elim rest [ none ↦ none | some n ↦ some (suc n) ]

abbrev pub is_length_match : WildcardText → List ℕ → Bool
is_length_match t text =
    if elim t.min_length [ none ↦ false | some n ↦ ltb (length text) n ]
    then false
    else (if elim t.max_length [ none ↦ false | some n ↦ ltb n (length text) ]
        then false
        else leb (length t.text) (length text))

-- The first test of `is_prefix_match` and of `is_suffix_match`: does the length contradict the context?
abbrev pub is_other_length : Option ℕ → WildcardText → List ℕ → Bool
is_other_length none t text = false
is_other_length (some n) t text = not (length text == ((length t.text + n) % 2 ^ 64))

module _ (tolower : ℕ → ℕ) where
  unfoldable pub to_lower_string : List ℕ → List ℕ
  to_lower_string [] = []
  to_lower_string (c ∷ cs) = tolower c ∷ to_lower_string cs

  abbrev pub fold_char : WildcardText → ℕ → ℕ
  fold_char t c = if t.is_case_sensitive then c else tolower c

  -- The loop of `is_equal`, on texts of one length.
  unfoldable pub equal_loop : WildcardText → List ℕ → List ℕ → Bool
  equal_loop t [] ys = true
  equal_loop t (x ∷ xs) [] = true
  equal_loop t (x ∷ xs) (y ∷ ys) =
      let rest = equal_loop t xs ys in if fold_char t x == fold_char t y then rest else false

  abbrev pub is_equal : WildcardText → List ℕ → List ℕ → Bool
  is_equal t a b = if length a == length b then equal_loop t a b else false

  abbrev pub is_prefix_match : WildcardText → List ℕ → Bool
  is_prefix_match t text =
      if is_other_length t.back_context_length t text
      then false
      else is_equal t (take (length t.text) text) t.text

  abbrev pub is_suffix_match : WildcardText → List ℕ → Option Bool
  is_suffix_match t text =
      if is_other_length t.front_context_length t text
      then some false
      else elim (substr_from (size_sub (length text) (length t.text)) text) [
        | none ↦ none
        | some suffix ↦ some (is_equal t suffix t.text)
      ]

  abbrev pub is_partial_match : WildcardText → List ℕ → Bool
  is_partial_match t text =
      let text_copy = if t.is_case_sensitive then text else to_lower_string text in
      let pattern_copy = if t.is_case_sensitive then t.text else to_lower_string t.text in
      elim (find_part text_copy pattern_copy) [ none ↦ false | some n ↦ true ]

  abbrev pub is_exact_match : WildcardText → List ℕ → Bool
  is_exact_match t text = is_equal t text t.text

  abbrev pub is_regex_match : WildcardText → List ℕ → Bool
  is_regex_match t text = false

  -- The `switch` of `is_all_match`.
  unfoldable pub match_by : MatchPattern → WildcardText → List ℕ → Option Bool
  match_by exact_match t text = some (is_exact_match t text)
  match_by partial_match t text = some (is_partial_match t text)
  match_by prefix_match t text = some (is_prefix_match t text)
  match_by suffix_match t text = is_suffix_match t text
  match_by regex_match t text = some (is_regex_match t text)
  match_by unknown t text = some false

  unfoldable pub is_all_match : WildcardText → List ℕ → Option Bool
  is_all_match t text =
      if is_length_match t text then match_by t.match_pattern t text else some false

  unfoldable pub is_match : WildcardText → List ℕ → Option Bool
  is_match t text =
      if t.is_included_rule
      then is_all_match t text
      else elim (is_all_match t text) [ none ↦ none | some b ↦ some (not b) ]

  -- `get_matched_texts` and `get_unmatched_texts`.
  unfoldable pub get_matched_texts : WildcardText → List (List ℕ) → Option (List (List ℕ))
  get_matched_texts t [] = some []
  get_matched_texts t (text ∷ texts) =
      let rest = get_matched_texts t texts in
      elim (is_match t text) [
        | none ↦ none
        | some b ↦ elim rest [ none ↦ none | some kept ↦ some (if b then text ∷ kept else kept) ]
      ]

  unfoldable pub get_unmatched_texts : WildcardText → List (List ℕ) → Option (List (List ℕ))
  get_unmatched_texts t [] = some []
  get_unmatched_texts t (text ∷ texts) =
      let rest = get_unmatched_texts t texts in
      elim (is_match t text) [
        | none ↦ none
        | some b ↦ elim rest [ none ↦ none | some kept ↦ some (if b then kept else text ∷ kept) ]
      ]
