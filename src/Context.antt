-- ===== src/Context.antt =====
-- agent/context/context.c: the prompt of a decision, and its compression to a token budget.
pub mod Budget
use isky.Prelude.{
  ℕ, zero, suc, ◌+◌, ◌-◌, ◌*◌, ◌/◌, [], ◌∷◌, ◌++◌, Bool, true, false, ◌||◌, Option, none, some, ℤ,
  pos, negsuc, ltb, leb, Text, text, String, length, drop, ◌==◌, if◌then◌else◌,
}

pub record ContextParts : Type 0 where
  pub system_prompt : Option Text
  pub role : Option Text
  pub goal : Option Text
  pub state : Option Text
  pub plan_json : Option Text
  pub tools_desc : Option Text
  pub memory : Option Text
  pub observations : Option Text
  pub step_desc : Option Text
  pub extra : Option Text

unfoldable pub context_output_format : Text
context_output_format =
    (text "REQUIRED OUTPUT FORMAT\n"
      ++ (text "Respond with EXACTLY ONE JSON object, no prose around it, one of:\n"
          ++ (text
                "  {\"action\":\"tool\",\"tool\":\"NAME\",\"arguments\":{...},\"expected_result\":\"...\"}\n"
              ++ (text "  {\"action\":\"final\",\"answer\":\"...\"}\n"
                  ++ (text "  {\"action\":\"ask_user\",\"question\":\"...\"}\n"
                      ++ (text "  {\"action\":\"plan\",\"steps\":[...]}\n"
                          ++ (text "  {\"action\":\"reflect\",\"message\":\"...\"}\n"
                              ++ (text
                                  "Never invent tool results. Choose a tool only from AVAILABLE TOOLS.\n"))))))))

section : String → Option Text → Text
section title none = []
section title (some []) = []
section title (some (c ∷ r)) =
    text "\n=== " ++ (text title ++ (text " ===\n" ++ ((c ∷ r) ++ text "\n")))

after_newline : Text → Option Text
after_newline [] = none
after_newline (c ∷ r) = if c == 10 then some r else after_newline r

line_start : Text → Text
unfolding after_newline
line_start t = elim (after_newline t) [ none ↦ t | some r ↦ r ]

-- The tail of a section body. `max_chars` is an int that may be negative in the code; it is 0
-- here wherever it is not positive there, and both keep the body whole.
unfoldable pub tail_trim : Text → ℕ → Text
unfolding line_start
tail_trim s max_chars =
    if max_chars == 0 || leb (length s) max_chars
    then s
    else text "[... earlier context compressed ...]\n" ++ line_start (drop (length s - max_chars) s)

prompt_text : Option Text → Text
prompt_text none = []
prompt_text (some t) = t

-- One assembly of the sections.
unfoldable pub assemble : ContextParts → Option Text → Option Text → Text
unfolding section prompt_text context_output_format
assemble p mem obs =
    prompt_text p.system_prompt
    ++ (section "ROLE" p.role
        ++ (section "TASK" p.goal
            ++ (section "CURRENT STATE" p.state
                ++ (section "CURRENT STEP" p.step_desc
                    ++ (section "PLAN" p.plan_json
                        ++ (section "AVAILABLE TOOLS" p.tools_desc
                            ++ (section "MEMORY" mem
                                ++ (section "OBSERVATIONS" obs
                                    ++ (section "NOTE" p.extra
                                        ++ (text "\n"
                                            ++ (context_output_format
                                                ++ text "\nYour JSON response:\n")))))))))))

-- The tokenizer of the backend, or a quarter of the bytes.
unfoldable pub count : Option (Text → ℕ) → Text → ℕ
count none t = length t / 4
count (some f) t = f t

-- `budget <= 0 || tokens <= budget`
unfoldable pub fits : ℤ → ℕ → Bool
fits (negsuc n) tokens = true
fits (pos zero) tokens = true
fits (pos (suc b)) tokens = leb tokens (suc b)

-- how many characters to cut, when the prompt is over the budget
unfoldable pub excess : ℤ → ℕ → ℕ
excess (negsuc n) tokens = 0
excess (pos b) tokens = (tokens - b) * 4 + 512

-- The two elastic sections after a round over the budget: the observations first, and the memory
-- by what their new length leaves of the cut.
unfoldable pub compress : ℕ → Option Text → Option Text → Option Text × Option Text
unfolding tail_trim
compress cut none none = (none, none)
compress cut none (some mem) =
    (none, some (if ltb 0 cut then tail_trim mem (length mem - cut) else mem))
compress cut (some obs) none = (some (tail_trim obs (length obs - cut)), none)
compress cut (some obs) (some mem) =
    let obs' = tail_trim obs (length obs - cut) in
    let rest = cut - length obs' in
    (some obs', some (if ltb 0 rest then tail_trim mem (length mem - rest) else mem))

-- The passes that are left behind this one; the last returns whatever it assembled.
unfoldable pub build_pass :
    ℕ → Option (Text → ℕ) → ContextParts → ℤ → Option Text → Option Text → Text
unfolding assemble count fits excess compress
build_pass zero tokenizer p budget obs mem = assemble p mem obs
build_pass (suc later) tokenizer p budget obs mem =
    let prompt = assemble p mem obs in
    let tokens = count tokenizer prompt in
    let (obs', mem') = compress (excess budget tokens) obs mem in
    elim (fits budget tokens) [
      | true ↦ prompt
      | false ↦ build_pass later tokenizer p budget obs' mem'
    ]

-- Three passes.
unfoldable pub context_build : Option (Text → ℕ) → ContextParts → ℤ → Text
unfolding build_pass
context_build tokenizer p budget = build_pass 2 tokenizer p budget p.observations p.memory
