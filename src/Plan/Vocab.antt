-- ===== src/Plan/Vocab.antt =====
-- internal/plan/vocab.go and internal/plan/glyph.go: the words of the program, which are texts in Go.
use command_center.Prelude.{
  String, Bool, true, false, ◌||◌, Option, none, some, List, [], ◌∷◌, if◌then◌else◌, ◌==◌, nat_eq,
  string_eq, contains,
}

abbrev pub Verb : Type 0
Verb = String

abbrev pub verb_launch : Verb
verb_launch = "launch"

abbrev pub verb_kill : Verb
verb_kill = "kill"

abbrev pub verb_re_run : Verb
verb_re_run = "re-run"

abbrev pub verb_retry_push : Verb
verb_retry_push = "retry-push"

abbrev pub verb_remove_worktree : Verb
verb_remove_worktree = "remove-worktree"

abbrev pub verb_cancel : Verb
verb_cancel = "cancel"

abbrev pub verb_refresh : Verb
verb_refresh = "refresh"

abbrev pub verb_abort : Verb
verb_abort = "abort"

abbrev pub verb_follow_up : Verb
verb_follow_up = "follow-up"

abbrev pub verb_import : Verb
verb_import = "import"

abbrev pub verb_track : Verb
verb_track = "track"

abbrev pub RunKind : Type 0
RunKind = String

abbrev pub run_kind_agent : RunKind
run_kind_agent = "agent"

abbrev pub run_kind_follow_up : RunKind
run_kind_follow_up = "follow_up"

abbrev pub run_kind_command : RunKind
run_kind_command = "command"

abbrev pub RepoPhase : Type 0
RepoPhase = String

abbrev pub repo_cloning : RepoPhase
repo_cloning = "cloning"

abbrev pub repo_ready : RepoPhase
repo_ready = "ready"

abbrev pub repo_refused : RepoPhase
repo_refused = "refused"

abbrev pub RefusalKind : Type 0
RefusalKind = String

abbrev pub refusal_merge_settings : RefusalKind
refusal_merge_settings = "merge_settings"

abbrev pub refusal_default_branch : RefusalKind
refusal_default_branch = "default_branch"

abbrev pub refusal_clone : RefusalKind
refusal_clone = "clone"

abbrev pub refusal_settings_parse : RefusalKind
refusal_settings_parse = "settings_parse"

abbrev pub GlyphWord : Type 0
GlyphWord = String

abbrev pub glyph_failed : GlyphWord
glyph_failed = "failed"

abbrev pub glyph_attention : GlyphWord
glyph_attention = "attention"

abbrev pub glyph_running : GlyphWord
glyph_running = "running"

abbrev pub glyph_pending : GlyphWord
glyph_pending = "pending"

abbrev pub glyph_checking : GlyphWord
glyph_checking = "checking"

abbrev pub glyph_ready : GlyphWord
glyph_ready = "ready"

abbrev pub glyph_blocked : GlyphWord
glyph_blocked = "blocked"

abbrev pub glyph_done : GlyphWord
glyph_done = "done"

abbrev pub all_verbs : List Verb
all_verbs =
    verb_launch ∷ verb_kill ∷ verb_re_run ∷ verb_retry_push ∷ verb_remove_worktree ∷ verb_cancel
    ∷ verb_refresh ∷ verb_abort ∷ verb_follow_up ∷ verb_import ∷ verb_track ∷ []

abbrev pub all_run_kinds : List RunKind
all_run_kinds = run_kind_agent ∷ run_kind_follow_up ∷ run_kind_command ∷ []

abbrev pub all_repo_phases : List RepoPhase
all_repo_phases = repo_cloning ∷ repo_ready ∷ repo_refused ∷ []

abbrev pub all_refusal_kinds : List RefusalKind
all_refusal_kinds =
    refusal_merge_settings ∷ refusal_default_branch ∷ refusal_clone ∷ refusal_settings_parse ∷ []

-- `none` is the error of an unknown word.
unfoldable pub parse_member : String → List String → Option String
parse_member s set = if contains set s then some s else none

unfoldable pub parse_verb : String → Option Verb
unfolding parse_member
parse_verb s = parse_member s all_verbs

unfoldable pub parse_run_kind : String → Option RunKind
unfolding parse_member
parse_run_kind s = parse_member s all_run_kinds

unfoldable pub parse_repo_phase : String → Option RepoPhase
unfolding parse_member
parse_repo_phase s = parse_member s all_repo_phases

unfoldable pub parse_refusal_kind : String → Option RefusalKind
unfolding parse_member
parse_refusal_kind s = parse_member s all_refusal_kinds

-- The first branch of the `switch`; the others all return false.
unfoldable pub is_row_verb : Verb → Bool
is_row_verb v =
    contains
      (verb_kill ∷ verb_re_run ∷ verb_retry_push ∷ verb_remove_worktree ∷ verb_cancel ∷ verb_refresh
        ∷ verb_abort ∷ verb_follow_up ∷ [])
      v

abbrev pub group_needs_you : String
group_needs_you = "needs-you"

abbrev pub group_in_flight : String
group_in_flight = "in-flight"

abbrev pub group_settled : String
group_settled = "settled"

-- The group of the rail, and whether it is folded.
unfoldable pub rail_group : GlyphWord → String × Bool
rail_group glyph =
    if glyph == glyph_failed || glyph == glyph_attention
    then (group_needs_you, false)
    else if glyph == glyph_done
    then (group_settled, false)
    else if glyph == glyph_ready || glyph == glyph_blocked
    then (group_in_flight, true)
    else (group_in_flight, false)
