-- ===== src/Memory.antt =====
-- agent/memory/memory.c: the ring of recent observations, and the rows that go to the database.
pub mod Ring
pub mod Window
use isky.Prelude.{
  ℕ, zero, suc, ◌+◌, ◌-◌, ◌%◌, ◌<◌, List, [], ◌∷◌, ◌++◌, Bool, true, false, Option, none, some, ℤ,
  pos, positive_or, Text, text, ltb, get_or, set, replicate, length, drop, ◌==◌, if◌then◌else◌,
}
use isky.Effects.{Effect, log_observation, add_memory, add_procedure, Io, send}

-- `recent` has `cap` places. Where `count < cap` the items stand from place 0 on; later `head` is the
-- place of the oldest.
pub record ShortTerm : Type 0 where
  pub goal : Option Text
  pub plan : Option Text
  pub recent : List Text
  pub cap : ℕ
  pub head : ℕ
  pub count : ℕ

-- `has_db` is whether `db` is not NULL.
pub record Memory : Type 0 where
  pub has_db : Bool
  pub task_id : Text
  pub st : ShortTerm

-- A place that holds no string yet is the empty text; no place of that kind is read.
unfoldable pub memory_init : Bool → Text → ℤ → Memory
memory_init has_db task_id cap = record {
  has_db = has_db;
  task_id = task_id;
  st = record {
    goal = none;
    plan = none;
    recent = replicate (positive_or cap 12) [];
    cap = positive_or cap 12;
    head = 0;
    count = 0;
  };
}

unfoldable pub memory_set_goal : Option Text → Memory → Memory
memory_set_goal goal m = record m { st = record m.st { goal = goal } }

unfoldable pub memory_set_plan : Option Text → Memory → Memory
memory_set_plan plan m = record m { st = record m.st { plan = plan } }

unfoldable pub push : Text → ShortTerm → ShortTerm
push obs s =
    if ltb s.count s.cap
    then record s { recent = set s.recent s.count obs; count = s.count + 1 }
    else record s { recent = set s.recent s.head obs; head = (s.head + 1) % s.cap }

unfoldable pub memory_add_observation : {W : Type 0} → Option Text → Memory → Io W → Memory × Io W
unfolding push send
memory_add_observation none m io = (m, io)
memory_add_observation (some obs) m io =
    (record m { st = push obs m.st }, if m.has_db then send (log_observation obs) io else io)

-- The place of the `i`th oldest item.
unfoldable pub place : ShortTerm → ℕ → ℕ
place s i = if ltb s.count s.cap then i else (s.head + i) % s.cap

-- `for (i = 0; i < count; i++)`, with `left` rounds to go
unfoldable pub items_from : ShortTerm → ℕ → ℕ → List Text
unfolding place
items_from s i zero = []
items_from s i (suc left) = get_or s.recent (place s i) [] ∷ items_from s (i + 1) left

-- The items, oldest first.
unfoldable pub items : ShortTerm → List Text
unfolding items_from
items s = items_from s 0 s.count

observation_lines : List Text → Text
observation_lines [] = []
observation_lines (o ∷ rest) = text "- " ++ (o ++ (text "\n" ++ observation_lines rest))

-- the part behind the first newline, if there is one
after_newline : Text → Option Text
after_newline [] = none
after_newline (c ∷ r) = if c == 10 then some r else after_newline r

line_start : Text → Text
unfolding after_newline
line_start t = elim (after_newline t) [ none ↦ t | some r ↦ r ]

-- A text over the budget loses its front, up to the end of a line.
unfoldable pub memory_recent_observations : Memory → ℕ → Text
unfolding items observation_lines line_start
memory_recent_observations m max_chars =
    let t = observation_lines (items m.st) in
    if ltb 0 max_chars
    then if ltb max_chars (length t) then line_start (drop (length t - max_chars) t) else t
    else t

-- `db_search_memories` is a parameter: the contents that it finds, none where a content is no text.
content_lines : List (Option Text) → Text
content_lines [] = []
content_lines (none ∷ rest) = content_lines rest
content_lines (some c ∷ rest) = text "  - " ++ (c ++ (text "\n" ++ content_lines rest))

append_items : List (Option Text) → Text → Text
unfolding content_lines
append_items [] label = []
append_items (o ∷ rest) label = label ++ (text ":\n" ++ content_lines (o ∷ rest))

unfoldable pub memory_recall : (Text → Text → ℕ → List (Option Text)) → Memory → Text → ℤ → Text
unfolding append_items
memory_recall search m query max_items =
    let n = positive_or max_items 6 in
    if m.has_db
    then append_items (search (text "semantic") query n) (text "Known facts")
      ++ (append_items (search (text "episodic") query n) (text "Past experiences")
          ++ append_items (search (text "procedural") query n) (text "Procedures"))
    else []

-- The importance, a float, is left out.
unfoldable pub memory_record_fact : {W : Type 0} → Memory → Option Text → Io W → Io W
unfolding send
memory_record_fact m none io = io
memory_record_fact m (some fact) io =
    if m.has_db then send (add_memory (text "semantic") fact) io else io

unfoldable pub memory_record_procedure : {W : Type 0} → Memory → Text → Text → Io W → Io W
unfolding send
memory_record_procedure m name steps_json io =
    if m.has_db then send (add_procedure name steps_json) io else io

-- `episode` is the JSON object of the four texts, printed.
unfoldable pub memory_record_episode : {W : Type 0} → Memory → Text → Io W → Io W
unfolding send
memory_record_episode m episode io =
    if m.has_db then send (add_memory (text "episodic") episode) io else io
