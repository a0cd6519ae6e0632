-- ===== src/Content/Tone.antt =====
-- `ToneSafetyChecker.check` of app/content/tone_safety.py. The language model and the parser of JSON
-- are parameters.
use agent_operator.Errors.{other_exception}
use agent_operator.Prelude.{
  ℕ, Bool, false, ◌&&◌, ◌||◌, Option, none, some, List, [], ◌∷◌, ◌++◌, ◌==◌, leb, Result, ok, err,
  if◌then◌else◌,
}
use agent_operator.Text.{Text, codes, strip, starts_with, text_eq}
use agent_operator.Content.Validation.{Check, tone_check, safety}
use agent_operator.Content.Drafts.{TonePreference}

-- What `json.loads` gives, as far as the checker looks into it. Of a string that stands for itself
-- the checker sees only that it is no object, and so of everything else in an array.
pub data Field : Type 0 where
  missing other : Field
  string : Text → Field

pub data Item : Type 0 where
  object : Field → Field → Item
  no_object : Item

-- An object and a string are sequences of strings for a loop; a number, a Boolean and null cannot be
-- looped over.
pub data Json : Type 0 where
  array : List Item → Json
  text_or_object : Json
  scalar : Json

-- Where `str.splitlines` ends a line.
abbrev ends_line : ℕ → Bool
ends_line c =
    (leb 10 c && leb c 13)
    || ((leb 28 c && leb c 30) || (c == 0x85 || (c == 0x2028 || c == 0x2029)))

-- `str.splitlines`, with the line that is being read; the line feed of a CRLF ends no line again.
unfoldable pub split_lines : Bool → Text → Text → List Text
split_lines after_cr [] [] = []
split_lines after_cr (c ∷ line) [] = (c ∷ line) ∷ []
split_lines after_cr line (c ∷ s) =
    let skipped = split_lines false [] s in
    let ended = split_lines (c == 13) [] s in
    let read = split_lines false (line ++ c ∷ []) s in
    if after_cr && c == 10 then skipped else if ends_line c then line ∷ ended else read

unfoldable pub without_last : List Text → List Text
without_last [] = []
without_last (line ∷ []) = []
without_last (line ∷ next ∷ lines) = line ∷ without_last (next ∷ lines)

abbrev pub without_first : List Text → List Text
without_first [] = []
without_first (line ∷ lines) = lines

-- `"\n".join`.
unfoldable pub join_lines : List Text → Text
join_lines [] = []
join_lines (line ∷ []) = line
join_lines (line ∷ next ∷ lines) = line ++ (10 ∷ join_lines (next ∷ lines))

-- Strips the fence around the JSON.
unfoldable pub strip_fence : Text → Text
strip_fence raw =
    if starts_with (codes "```") raw
    then strip (join_lines (without_last (without_first (split_lines false [] raw))))
    else raw

abbrev check_named : Text → Option Check
check_named name =
    if text_eq name (codes "tone")
    then some tone_check
    else if text_eq name (codes "safety")
    then some safety
    else none

unfoldable pub issue_of : Item → Option Check
issue_of (object (string check) (string message)) = check_named check
issue_of item = none

unfoldable pub issues_of : List Item → List Check
issues_of [] = []
issues_of (item ∷ items) = let rest = issues_of items in listed (issue_of item) rest
  where
    listed : Option Check → List Check → List Check
    listed none rest = rest
    listed (some issue) rest = issue ∷ rest

-- The issues in the JSON, if it is some. A number or null raises TypeError.
abbrev pub issues_in : Option Json → Result (List Check)
issues_in none = ok []
issues_in (some (array items)) = ok (issues_of items)
issues_in (some text_or_object) = ok []
issues_in (some scalar) = err other_exception

module _ (invoke : Text → TonePreference → Option Text) (loads : Text → Option Json) where
  abbrev pub issues_of_reply : Option Text → Result (List Check)
  issues_of_reply none = ok []
  issues_of_reply (some reply) = issues_in (loads (strip_fence (strip reply)))

  -- `check`: a call that fails and a reply that is no JSON count as no issue.
  unfoldable pub check_tone : Text → TonePreference → Result (List Check)
  check_tone content tone = issues_of_reply (invoke content tone)
