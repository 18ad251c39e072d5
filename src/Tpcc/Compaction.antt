-- ===== src/Tpcc/Compaction.antt =====
-- tpcc/ydb/table_full_compact.py. The answers of the viewer are arguments: the pages of a tablet by
-- the number of the reading, or none where the request raises, and whether the request of a compaction is
-- answered without an error. Letters are those of ASCII.
pub mod Headers
pub mod Waiting
mod Tests
use Prim.Native.Char.{code}
use Prim.Native.String
use benchhelpers.Prelude.{
  Bool, List, Option, Result, String, [], chars, drop_chars, err, false, if◌then◌else◌, leb, length,
  none, not, ok, other_exception, some, str_eq, suc, take_chars, true, words, zero, ℕ, ◌&&◌, ◌++◌,
  ◌+◌, ◌==◌, ◌>>=◌, ◌||◌, ◌∷◌,
}
use benchhelpers.Prelude.Sorting.{sort_by}

abbrev pub starts_with : String → String → Bool
starts_with s prefix = str_eq (take_chars (chars prefix) s) prefix

-- `\w`
abbrev pub is_word : ℕ → Bool
is_word c = (leb 48 c && leb c 57) || (leb 65 c && leb c 90) || (leb 97 c && leb c 122) || c == 95

abbrev pub word_of : String → String
word_of String.[] = ""
word_of (String.◌∷◌ c s) =
    let rest = word_of s in if is_word (code c) then String.◌∷◌ c rest else ""

abbrev pub or_else : Option String → Option String → Option String
or_else none later = later
or_else (some s) later = some s

-- The word after the prefix, where that is followed by one
abbrev pub word_after : String → String → Option String
word_after prefix s =
    let word = word_of (drop_chars (chars prefix) s) in
    if starts_with s prefix && not (str_eq word "") then some word else none

abbrev pub search_word : String → String → Option String
search_word prefix String.[] = none
search_word prefix (String.◌∷◌ c s) =
    or_else (word_after prefix (String.◌∷◌ c s)) (search_word prefix s)

-- The text before the first place where the suffix stands
abbrev pub text_before : String → String → Option String
text_before suffix String.[] = none
text_before suffix (String.◌∷◌ c s) =
    let rest = text_before suffix s in
    if starts_with (String.◌∷◌ c s) suffix
    then some ""
    else elim rest [ none ↦ none | some t ↦ some (String.◌∷◌ c t) ]

abbrev pub search_between : String → String → String → Option String
search_between prefix suffix String.[] = none
search_between prefix suffix (String.◌∷◌ c s) =
    or_else
      (if starts_with (String.◌∷◌ c s) prefix
        then text_before suffix (drop_chars (chars prefix) (String.◌∷◌ c s))
        else none)
      (search_between prefix suffix s)

unfoldable pub extract_force_compaction_state : String → Option String
extract_force_compaction_state = search_word "Forced compaction: "

unfoldable pub extract_loaned_parts : String → Option (List String)
extract_loaned_parts text = elim (search_between "<h4>Loaned parts</h4><pre>" "</pre>" text) [
  | none ↦ none
  | some parts ↦ some (words parts)
]

-- What a task prints or asks for
pub data Event : Type 0 where
  skip compacting warning : (index count tablet_id : ℕ) → Event
  start_force_compaction : (tablet_id : ℕ) → Event
  state_line : String → Event

-- The pages of a tablet, by the number of the reading
abbrev pub Pages : Type 0
Pages = ℕ → Option String

abbrev pub page : Option String → Result String
page none = err other_exception
page (some text) = ok text

abbrev pub is_new : String → Option String → Bool
is_new state none = not (str_eq state "Compacting")
is_new state (some prev) = not (str_eq state "Compacting") && not (str_eq state prev)

-- A call that needs more rounds than the fuel has no outcome; otherwise it has the number of the
-- next reading.
abbrev pub Waited : Type 0
Waited = Result (Option (ℕ × List Event))

abbrev pub with_events : List Event → Option (ℕ × List Event) → Option (ℕ × List Event)
with_events before none = none
with_events before (some (i, events)) = some (i, before ++ events)

-- A round of the loop with what the rounds after it come to
abbrev pub round : ℕ → Option String → Option String → Waited → Waited
round i prev_state none later = ok (some (suc i, []))
round i prev_state (some state) later = later >>= λ rest.
    ok (with_events (if is_new state prev_state then state_line state ∷ [] else []) rest)

unfoldable pub wait_loop : ℕ → Pages → ℕ → Option String → Waited
wait_loop zero pages i prev_state = ok none
wait_loop (suc fuel) pages i prev_state = page (pages i) >>= λ text.
    let state = extract_force_compaction_state text in
    round i prev_state state (wait_loop fuel pages (suc i) state)

-- `if state is None: start_force_compaction(...)`
abbrev pub started : (accepts : ℕ → Bool) → ℕ → Option String → Result (List Event)
started accepts tablet_id none =
    if accepts tablet_id then ok (start_force_compaction tablet_id ∷ []) else err other_exception
started accepts tablet_id (some state) = ok []

-- The request of the compaction may raise.
unfoldable pub force_compact : (accepts : ℕ → Bool) → ℕ → Pages → ℕ → ℕ → Waited
force_compact accepts fuel pages tablet_id i = page (pages i) >>= λ text.
    let state = extract_force_compaction_state text in
    started accepts tablet_id state >>= λ events.
    wait_loop fuel pages (suc i) state >>= λ rest. ok (with_events events rest)

-- `extract_loaned_parts(...)` as a condition
abbrev pub has_parts : Option (List String) → Bool
has_parts none = false
has_parts (some []) = false
has_parts (some (part ∷ parts)) = true

-- A tablet with its place among the tablets
pub record Task : Type 0 where
  pub index : ℕ
  pub count : ℕ
  pub tablet_id : ℕ

module _ (accepts : ℕ → Bool) (fuel : ℕ) (pages : Pages) (task : Task) where
  abbrev pub warned : List Event → String → List Event
  warned events text =
      if has_parts (extract_loaned_parts text)
      then events ++ warning task.index task.count task.tablet_id ∷ []
      else events

  abbrev pub checked_after : Option (ℕ × List Event) → Result (Option (List Event))
  checked_after none = ok none
  checked_after (some (i, events)) = page (pages i) >>= λ text. ok (some (warned events text))

  abbrev pub compacted : ℕ → Result (Option (List Event))
  compacted i = force_compact accepts fuel pages task.tablet_id i >>= λ waited.
      checked_after (with_events (compacting task.index task.count task.tablet_id ∷ []) waited)

  unfoldable pub process_task : (all : Bool) → Result (Option (List Event))
  process_task true = compacted 0
  process_task false = page (pages 0) >>= λ text.
      if has_parts (extract_loaned_parts text)
      then compacted 1
      else ok (some (skip task.index task.count task.tablet_id ∷ []))

abbrev pub numbered : ℕ → ℕ → List ℕ → List Task
numbered i count [] = []
numbered i count (tablet_id ∷ ids) =
    record { index = i + 1; count = count; tablet_id = tablet_id } ∷ numbered (i + 1) count ids

-- The tasks of `main`, for the shards that the description of the table names
unfoldable pub generate_tasks : List ℕ → List Task
generate_tasks datashard_ids =
    let tablet_ids = sort_by (λ n. n) datashard_ids in numbered 0 (length tablet_ids) tablet_ids
