-- ===== src/Plan/Ids.antt =====
-- internal/plan/ids.go: the identifiers. TicketURL, SHA and StepName are texts in Go too.
use command_center.Prelude.{
  String, ◌⧺◌, join, cut, ◌≡◌, ◌↔◌, Bool, true, ◌&&◌, Option, none, some, List, arith, Eq, ◌==◌,
  nat_eq, string_eq, ==_iff,
}

abbrev pub TicketUrl : Type 0
TicketUrl = String

abbrev pub Sha : Type 0
Sha = String

abbrev pub StepName : Type 0
StepName = String

abbrev pub Reason : Type 0
Reason = String

pub record BranchRef : Type 0 where
  pub repo : String
  pub branch : String

abbrev pub branch_ref_beq : BranchRef → BranchRef → Bool
branch_ref_beq a b = a.repo == b.repo && a.branch == b.branch

pub branch_ref_beq_iff : (a b : BranchRef) → (branch_ref_beq a b ≡ true) ↔ (a ≡ b)
branch_ref_beq_iff a b = ground (arith, ==_iff a.repo b.repo, ==_iff a.branch b.branch)

instance abbrev pub branch_ref_eq : Eq BranchRef
branch_ref_eq = record { same = branch_ref_beq; same_iff = branch_ref_beq_iff }

unfoldable pub marshal_text : BranchRef → String
marshal_text b = b.repo ⧺ "//" ⧺ b.branch

-- `none` is the error of a text with no `//`.
unfoldable pub unmarshal_text : String → Option BranchRef
unfolding cut
unmarshal_text text = elim (cut text "//") [
  | some (repo, branch) ↦ some (record { repo = repo; branch = branch })
  | none ↦ none
]

unfoldable pub join_urls : List TicketUrl → String
unfolding join
join_urls urls = join ", " urls
