-- ===== src/Tpcc/Compaction/Waiting.antt =====
-- How long a compaction is waited for.
use benchhelpers.Prelude.{List, Option, String, [], if◌then◌else◌, some, suc, ℕ, ◌++◌, ◌∷◌, ◌≡◌}
use benchhelpers.Tpcc.Compaction.{extract_force_compaction_state, Event, state_line, Pages, is_new}

-- The state that a reading shows
abbrev pub Shows : Pages → ℕ → Option String → Type 0
Shows pages i state =
    (text : String) × (pages i ≡ some text) × (extract_force_compaction_state text ≡ state)

-- Each of so many readings shows a state.
abbrev pub AreStates : Pages → ℕ → List String → Type 0
AreStates pages i [] = Unit
AreStates pages i (state ∷ states) = Shows pages i (some state) × AreStates pages (suc i) states

-- A line for each state that is new
abbrev pub lines_of : Option String → List String → List Event
lines_of prev_state [] = []
lines_of prev_state (state ∷ states) =
    (if is_new state prev_state then state_line state ∷ [] else []) ++ lines_of (some state) states
