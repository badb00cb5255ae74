-- ===== src/Plan/Compose.antt =====
-- internal/plan/compose.go: the prompts. The digest of a prompt, SHA-256 in hexadecimal, is a parameter
-- of the functions that use it.
use command_center.Prelude.{
  String, ◌⧺◌, Option, none, some, List, [], ◌∷◌, if◌then◌else◌, find_first, ◌==◌, ◌!=◌, nat_eq,
  string_eq,
}
use command_center.Plan.Outcome.{Outcome, asked, continued}
use command_center.Plan.Ticket.{Ticket, default_base_branch}
use command_center.Plan.Workflow.{Step, StepRun}

abbrev pub Effort : Type 0
Effort = String

abbrev pub all_efforts : List Effort
all_efforts = "low" ∷ "medium" ∷ "high" ∷ []

-- `none` is the error of an unknown word.
unfoldable pub parse_effort : String → Option Effort
parse_effort s = find_first (λ e. e == s) all_efforts

unfoldable pub compose : Ticket → String
compose t =
    "/implement "
    ⧺ t.url
    ⧺ (if t.worked_example_branch != ""
        then "\n\n## Worked example: " ⧺ t.worked_example_branch
          ⧺ "\n\nRead the diff:\n\n    git diff " ⧺ default_base_branch ⧺ "..."
          ⧺ t.worked_example_branch
        else "")
    ⧺ (if t.launch_context != "" then "\n\n## Launch context\n\n" ⧺ t.launch_context else "")

unfoldable pub compose_follow_up : String → String
compose_follow_up text =
    "You were not given a fresh worktree. This one already carries a branch, a diff and a git history "
    ⧺ "a prior run produced; nothing remembers what that run was thinking, only what it committed. "
    ⧺ "Run `git status`, `git diff` and `git log -5`, and read the PR description if one exists, "
    ⧺ "before you touch anything.\n\n"
    ⧺ "Below is the operator's own instruction, typed for this run. It is the whole of your task, "
    ⧺ "not a restatement of the original ticket, and the ticket's acceptance criteria are not "
    ⧺ "automatically still the bar.\n\n"
    ⧺ "Carry it out, run the checks the repo defines for the code you touched, and commit each "
    ⧺ "distinct change separately. Do not push: the daemon that spawned you reads this worktree's "
    ⧺ "commits to decide when to push, and an uncommitted fix reads as a run that did nothing. "
    ⧺ "If the instruction asks for something your settings deny, do the rest, commit it, and say "
    ⧺ "in your final message what you could not do and why.\n\n" ⧺ "Your instruction:\n\n" ⧺ text

unfoldable pub compose_message : String → Outcome → String
compose_message text asked = "The owner's answer to your question:\n\n" ⧺ text
compose_message text continued =
    "The owner interrupted you with a message. Your last tool call may have been cut off, "
    ⧺ "so check its effect before going on:\n\n" ⧺ text
compose_message text _ = "The owner's follow-up instruction:\n\n" ⧺ text

unfoldable pub compose_asking : String → String
compose_asking question_path =
    "\n\n## Asking the owner\n\nIf you need a decision only the owner can make, write one question to "
    ⧺ question_path
    ⧺ " and end your turn. The owner's answer resumes this session. Do not ask what you can decide "
    ⧺ "yourself."

-- The handoffs of a pass, each under its step's name.
unfoldable pub compose_handoffs : List StepRun → String
compose_handoffs [] = ""
compose_handoffs (r ∷ rs) =
    let rest = compose_handoffs rs in
    elim r.handoff [
      | none ↦ rest
      | some handoff ↦ "\n\n## Handoff from " ⧺ r.step ⧺ "\n\n" ⧺ handoff ⧺ rest
    ]

unfoldable pub compose_step : Ticket → Step → List StepRun → String
unfolding compose_handoffs
compose_step t step pass =
    step.prompt
    ⧺ "\n\n## Ticket\n\n"
    ⧺ t.url
    ⧺ (if t.launch_context != "" then "\n\n## Launch context\n\n" ⧺ t.launch_context else "")
    ⧺ compose_handoffs pass
